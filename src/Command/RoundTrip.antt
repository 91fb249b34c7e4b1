-- ===== src/Command/RoundTrip.antt =====
-- Commands of src/command.c that are written to a table and read from it.
use epx_c.Base.{
  ℕ, suc, ◌+◌, ◌≤◌, ◌<◌, ◌≡◌, refl, sym, ap, ◌∙◌, true, false, some, List, [], ◌∷◌, ◌++◌, All,
  length, length-append, set, drop, get_or-middle, set-middle, length-snoc, if◌then◌else◌, ok,
  arith,
}
use mathlib.Core.List.{append-nil, append_assoc}
use epx_c.Epx.{key_size, max_tx}
use epx_c.Command.{Io, Span, Command, zero_span, empty_range}
use epx_c.Schema.{SpanTable, CommandTable, InstanceData}
use epx_c.Command.Codec.{
  copy_key, read_spans, io_of, byte_of, command_from_buffer, write_spans, command_to_buffer,
}

abbrev pack : Span → SpanTable
pack s = record { start_key = some s.start_key; end_key = some s.end_key }

-- the tables of the spans that are not empty
abbrev tables : List Span → List SpanTable
tables [] = []
tables (s ∷ ss) = if empty_range s then tables ss else pack s ∷ tables ss

abbrev pub IsFull : Span → Type 0
IsFull s = (empty_range s ≡ false) × (length s.start_key < key_size) × (length s.end_key < key_size)

write_spans-tables :
    (pre zs : List Span) → write_spans (length zs) (length pre) (pre ++ zs) ≡ tables zs
unfolding write_spans
write_spans-tables pre [] = refl
write_spans-tables pre (s ∷ ss) = rw (get_or-middle pre ss s zero_span) (
    ap (λ rest. if empty_range s then rest else pack s ∷ rest)
      (ap (λ xs. write_spans (length ss) (suc (length pre)) xs) (sym (append_assoc pre (s ∷ []) ss))
        ∙ ap (λ k. write_spans (length ss) k ((pre ++ (s ∷ [])) ++ ss)) (sym (length-snoc pre s))
        ∙ write_spans-tables (pre ++ (s ∷ [])) ss))

read_spans-pack :
    (i : ℕ) (s : Span) (ss : List SpanTable) (spans : List Span)
    → i < max_tx
    → IsFull s
    → read_spans i (pack s ∷ ss) spans ≡ read_spans (suc i) ss (set spans i s)
unfolding read_spans copy_key
read_spans-pack i s ss spans h f = ground arith

read_spans-tables :
    (pre xs ys : List Span)
    → All IsFull xs
    → length pre + length xs ≤ max_tx
    → length xs ≤ length ys
    → read_spans (length pre) (tables xs) (pre ++ ys) ≡ ok (pre ++ (xs ++ drop (length xs) ys))
read_spans-tables pre [] ys a h l = unfold read_spans in refl
read_spans-tables pre (x ∷ xs) [] a h l = absurd (omega arith)
read_spans-tables pre (x ∷ xs) (y ∷ ys) a h l =
    ap (λ t. read_spans (length pre) t (pre ++ (y ∷ ys))) (full x (tables xs) a.0.0)
    ∙ read_spans-pack (length pre) x (tables xs) (pre ++ (y ∷ ys)) (omega arith) a.0
    ∙ ap (read_spans (suc (length pre)) (tables xs))
        (set-middle pre ys y x ∙ sym (append_assoc pre (x ∷ []) ys))
    ∙ ap (λ k. read_spans k (tables xs) ((pre ++ (x ∷ [])) ++ ys)) (sym (length-snoc pre x))
    ∙ read_spans-tables (pre ++ (x ∷ [])) xs ys a.1 (omega (arith, length-snoc pre x)) (omega arith)
    ∙ ap ok (append_assoc pre (x ∷ []) (xs ++ drop (length xs) ys))
  where
    full :
        (s : Span) (ss : List SpanTable)
        → empty_range s ≡ false
        → (if empty_range s then ss else pack s ∷ ss) ≡ pack s ∷ ss
    full s ss e = rw e refl

tables-append : (xs ys : List Span) → tables (xs ++ ys) ≡ tables xs ++ tables ys
tables-append [] ys = refl
tables-append (x ∷ xs) ys = ground (arith, tables-append xs ys)

tables_empty : (ys : List Span) → All (λ s. empty_range s ≡ true) ys → tables ys ≡ []
tables_empty [] a = refl
tables_empty (y ∷ ys) a = ground (arith, tables_empty ys)

length-tables : (xs : List Span) → All IsFull xs → length (tables xs) ≡ length xs
length-tables [] a = refl
length-tables (x ∷ xs) a = ground (arith, length-tables xs)

-- The ranges `xs` of a command, and behind them empty ones.
pub record IsPacked (c : Command) (xs ys : List Span) : Type 0 where
  pub spans : c.spans ≡ xs ++ ys
  pub size : length c.spans ≡ max_tx
  pub count : c.tx_size ≡ length xs
  pub full : All IsFull xs
  pub empty : All (λ s. empty_range s ≡ true) ys

module _ (c : Command) (xs ys : List Span) (p : IsPacked c xs ys) where
  sent_spans : (command_to_buffer c).spans ≡ tables xs
  unfolding command_to_buffer
  sent_spans =
      ap (λ k. write_spans k 0 c.spans) (sym p.size)
      ∙ write_spans-tables [] c.spans
      ∙ ap tables p.spans
      ∙ tables-append xs ys
      ∙ ap (λ zs. tables xs ++ zs) (tables_empty ys p.empty)
      ∙ append-nil (tables xs)

  few : length xs ≤ max_tx
  few = omega (arith, p.size, ap length p.spans, length-append xs ys)

  read_back :
      (c0 : Command)
      → length c0.spans ≡ max_tx
      → read_spans 0 (command_to_buffer c).spans c0.spans ≡ ok (xs ++ drop (length xs) c0.spans)
  read_back c0 l =
      ap (λ t. read_spans 0 t c0.spans) sent_spans
      ∙ read_spans-tables [] xs c0.spans p.full (omega (arith, few)) (omega (arith, few))

io_of-byte_of : (w : Io) → io_of (byte_of w) ≡ w
io_of-byte_of Io.read = refl
io_of-byte_of Io.write = refl

command_steps :
    (c0 : Command) (buffer : InstanceData) (cmd : CommandTable) (spans : List Span)
    → buffer.command ≡ some cmd
    → read_spans 0 cmd.spans c0.spans ≡ ok spans
    → command_from_buffer c0 buffer
      ≡ ok (
        true,
        record {
          id = cmd.id;
          spans = spans;
          tx_size = length cmd.spans;
          writing = io_of cmd.writing;
        },
      )
unfolding command_from_buffer
command_steps c0 buffer cmd spans e h = ground arith

same_command :
    (c : Command) (xs ys spans : List Span)
    → IsPacked c xs ys
    → c.id < 256
    → ◌≡◌ {A = Command}
        (record {
          id = (command_to_buffer c).id;
          spans = spans;
          tx_size = length (command_to_buffer c).spans;
          writing = io_of (command_to_buffer c).writing;
        })
        (record { spans = spans; tx_size = c.tx_size; id = c.id; writing = c.writing })
same_command c xs ys spans p small =
    λ i. record { id = same_id i; spans = spans; tx_size = same_size i; writing = same_writing i }
  where
    same_id : (command_to_buffer c).id ≡ c.id
    same_id = unfold command_to_buffer in omega arith

    same_size : length (command_to_buffer c).spans ≡ c.tx_size
    same_size = omega (arith, ap length (sent_spans c xs ys p), length-tables xs p.full, p.count)

    same_writing : io_of (command_to_buffer c).writing ≡ c.writing
    same_writing = unfold command_to_buffer in io_of-byte_of c.writing

-- A command whose first `tx_size` ranges, and no others, are not empty, and whose number is a byte,
-- is received as it was sent, but for the ranges behind the first `tx_size`, which are as they were.
pub command_from_buffer-command_to_buffer :
    (c c0 : Command) (xs ys : List Span) (buffer : InstanceData)
    → IsPacked c xs ys
    → c.id < 256
    → length c0.spans ≡ max_tx
    → buffer.command ≡ some (command_to_buffer c)
    → command_from_buffer c0 buffer
      ≡ ok (
        true,
        record {
          spans = xs ++ drop (length xs) c0.spans;
          tx_size = c.tx_size;
          id = c.id;
          writing = c.writing;
        },
      )
command_from_buffer-command_to_buffer c c0 xs ys buffer p small l e =
    command_steps c0 buffer (command_to_buffer c) _ e (read_back c xs ys p c0 l)
    ∙ ap (λ (d : Command). ok (true, d))
        (same_command c xs ys (xs ++ drop (length xs) c0.spans) p small)
