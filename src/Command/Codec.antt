-- ===== src/Command/Codec.antt =====
-- `command_from_buffer` and `command_to_buffer` of src/command.c.
use epx_c.Base.{
  ℕ, zero, suc, ◌%◌, Bool, true, false, Option, none, some, List, [], ◌∷◌, length, get_or, set, ltb,
  ◌==◌, if◌then◌else◌, Outcome, ok, fault, null_deref, out_of_bounds, ◌>>=◌,
}
use epx_c.Epx.{key_size, max_tx}
use epx_c.Command.{Key, Io, Span, Command, zero_span, empty_range}
use epx_c.Schema.{SpanTable, CommandTable, InstanceData}

-- `strcpy` into a `char[KEY_SIZE]`
unfoldable pub copy_key : Option Key → Outcome Key
copy_key none = fault null_deref
copy_key (some k) = if ltb (length k) key_size then ok k else fault out_of_bounds

-- the loop over the spans, from `i`
unfoldable pub read_spans : ℕ → List SpanTable → List Span → Outcome (List Span)
read_spans i [] spans = ok spans
read_spans i (s ∷ ss) spans =
    if ltb i max_tx
    then (copy_key s.start_key >>= λ a. copy_key s.end_key >>= λ b.
        read_spans (suc i) ss (set spans i (record { start_key = a; end_key = b })))
    else fault out_of_bounds

-- Any value but 0 is as good as `WRITE` where it is read.
abbrev pub io_of : ℕ → Io
io_of n = if n == 0 then Io.read else Io.write

-- The result is 0 (`true`) or 1, with the command that is read into.
unfoldable pub command_from_buffer : Command → InstanceData → Outcome (Bool × Command)
command_from_buffer c buffer = elim buffer.command [
  | none ↦ ok (false, c)
  | some cmd ↦ read_spans 0 cmd.spans c.spans >>= λ spans. ok (
    true,
    record c {
      id = cmd.id;
      spans = spans;
      tx_size = length cmd.spans;
      writing = io_of cmd.writing;
    },
  )
]

-- the loop over the spans, of which `n` are left, from `i`: the empty ones are left out
unfoldable pub write_spans : ℕ → ℕ → List Span → List SpanTable
write_spans zero i spans = []
write_spans (suc n) i spans =
    let rest = write_spans n (suc i) spans in
    let s = get_or spans i zero_span in
    if empty_range s
    then rest
    else record { start_key = some s.start_key; end_key = some s.end_key } ∷ rest

abbrev pub byte_of : Io → ℕ
byte_of Io.read = 0
byte_of Io.write = 1

-- `id` is a byte of the schema.
unfoldable pub command_to_buffer : Command → CommandTable
command_to_buffer c = record {
  id = c.id % 256;
  spans = write_spans max_tx 0 c.spans;
  writing = byte_of c.writing;
}
