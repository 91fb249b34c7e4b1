-- ===== src/NodeIo/Clients.antt =====
-- src/io.h and src/io.c: the clients that are registered for key ranges, and the messages to them.
-- The tree of llrb-interval that has the ranges is a parameter.
use epx_c.Base.{
  ℕ, zero, suc, Bool, true, false, none, some, List, [], ◌∷◌, ◌++◌, get_or, set, ltb, ◌==◌, ◌&&◌,
  not, if◌then◌else◌, Outcome, ok, fault, null_deref,
}
use Prim.Native.Nat.{Ordering}
use epx_c.Command.{Key, Span, Command, strcmp, le_zero, ge_zero, zero_span, empty_range}
use epx_c.Message.{Message}

-- `chan` is the handle of the end `chan[1]`; `expires` is a time, or 0 where there is no client.
pub record Client : Type 0 where
  pub chan : ℕ
  pub expires : ℕ

-- `MAX_CLIENTS`
abbrev pub max_clients : ℕ
max_clients = 10

pub record RegisteredSpan : Type 0 where
  pub start_key : Key
  pub end_key : Key
  pub clients : List Client

-- A `client_index`. The functions on groups call the function that they are given, with the tree,
-- a range and the group of ranges so far; `group_add` returns whether the range is to be inserted.
pub record ClientTrees : Type 1 where
  pub ClientTree : Type 0
  pub insert_span : ClientTree → RegisteredSpan → ClientTree
  pub delete_span : ClientTree → RegisteredSpan → ClientTree
  pub group_add :
      (ClientTree
        → RegisteredSpan
        → List RegisteredSpan
        → ClientTree × RegisteredSpan × List RegisteredSpan)
      → ClientTree
      → RegisteredSpan
      → Bool × ClientTree × RegisteredSpan
  pub group_find :
      (RegisteredSpan → List RegisteredSpan → List RegisteredSpan)
      → ClientTree
      → RegisteredSpan
      → List RegisteredSpan

abbrev pub is_gt : Ordering → Bool
is_gt Ordering.gt = true
is_gt _ = false

abbrev pub is_lt : Ordering → Bool
is_lt Ordering.lt = true
is_lt _ = false

unfoldable pub rspcmp : RegisteredSpan → RegisteredSpan → Ordering
rspcmp sp1 sp2 = strcmp sp1.start_key sp2.start_key

-- the inner loop over the clients: the client goes to every place that has none
unfoldable pub fill_places : Client → List Client → List Client
fill_places a [] = []
fill_places a (t ∷ ts) = (if t.expires == 0 then a else t) ∷ fill_places a ts

-- the outer loop
unfoldable pub add_clients : List Client → List Client → List Client
add_clients [] ts = ts
add_clients (c ∷ cs) ts = add_clients cs (if c.expires == 0 then ts else fill_places c ts)

unfoldable pub spans_meet : RegisteredSpan → RegisteredSpan → Bool
spans_meet to_merge c =
    le_zero (strcmp to_merge.start_key c.end_key) && ge_zero (strcmp to_merge.end_key c.start_key)

-- what the loop does with a range that meets `to_merge`
unfoldable pub merge_span : RegisteredSpan → RegisteredSpan → RegisteredSpan
merge_span to_merge c = record {
  start_key =
      if is_gt (strcmp to_merge.start_key c.start_key) then c.start_key else to_merge.start_key;
  end_key = if is_lt (strcmp to_merge.end_key c.end_key) then c.end_key else to_merge.end_key;
  clients = add_clients c.clients to_merge.clients;
}

unfoldable pub is_client : Client → Bool
is_client c = not (c.expires == 0)

-- the test of `eo_reader` for a client whose time has not come
unfoldable pub active : ℕ → Client → Bool
active now c = ltb now c.expires

-- the loop over a range's clients: where the message is sent to
unfoldable pub active_chans : ℕ → List Client → List ℕ
active_chans now [] = []
active_chans now (c ∷ cs) =
    let rest = active_chans now cs in if active now c then c.chan ∷ rest else rest

module _ (x : ClientTrees) where
  -- the loop of `merge_clients` over the group: the ranges that stay in it
  unfoldable pub merge_group :
      x.ClientTree
      → RegisteredSpan
      → List RegisteredSpan
      → x.ClientTree × RegisteredSpan × List RegisteredSpan
  merge_group ci to_merge [] = (ci, to_merge, [])
  merge_group ci to_merge (c ∷ cs) = elim (spans_meet to_merge c) [
    | true ↦ merge_group (x.delete_span ci c) (merge_span to_merge c) cs
    | false ↦ let (ci', merged, kept) = merge_group ci to_merge cs in (ci', merged, c ∷ kept)
  ]

  unfoldable pub merge_clients :
      x.ClientTree
      → RegisteredSpan
      → List RegisteredSpan
      → x.ClientTree × RegisteredSpan × List RegisteredSpan
  merge_clients ci to_merge sll =
      let (ci', merged, kept) = merge_group ci to_merge sll in (ci', merged, merged ∷ kept)

  unfoldable pub find_clients : RegisteredSpan → List RegisteredSpan → List RegisteredSpan
  find_clients to_merge sll = to_merge ∷ sll

  -- `garbage` is what the places for clients hold before they are written.
  unfoldable pub register_client : List Client → Span → Client → x.ClientTree → x.ClientTree
  register_client garbage sp c clients =
      let crsp : RegisteredSpan = record {
        start_key = sp.start_key;
        end_key = sp.end_key;
        clients = set garbage 0 c;
      } in
      let (add, clients', merged) = x.group_add merge_clients clients crsp in
      if add
      then x.insert_span clients' (record merged { clients = set merged.clients 0 c })
      else clients'

  -- `writer`'s loop over the ranges of a client's command, of which `n` are left from `i`
  unfoldable pub register_all : ℕ → ℕ → List Client → Command → Client → x.ClientTree → x.ClientTree
  register_all zero i garbage cmd c clients = clients
  register_all (suc n) i garbage cmd c clients =
      let sp = get_or cmd.spans i zero_span in
      elim (empty_range sp) [
        | true ↦ clients
        | false ↦ register_all n (suc i) garbage cmd c (register_client garbage sp c clients)
      ]

  -- The loop over a group: the channels that a message is sent to, the first first, and the tree
  -- without the ranges that have no active client.
  unfoldable pub serve_group : ℕ → List RegisteredSpan → x.ClientTree → List ℕ × x.ClientTree
  serve_group now [] clients = ([], clients)
  serve_group now (rspf ∷ rest) clients =
      let chans = active_chans now rspf.clients in
      let clients' : x.ClientTree = elim chans [
        | [] ↦ x.delete_span clients rspf
        | c ∷ cs ↦ clients
      ] in
      let (later, clients2) = serve_group now rest clients' in (chans ++ later, clients2)

  -- the loop over a message's ranges
  unfoldable pub serve_spans : ℕ → ℕ → ℕ → Command → x.ClientTree → List ℕ × x.ClientTree
  serve_spans zero i now cmd clients = ([], clients)
  serve_spans (suc n) i now cmd clients =
      let sp = get_or cmd.spans i zero_span in
      elim (empty_range sp) [
        | true ↦ ([], clients)
        | false ↦
            let rsp : RegisteredSpan = record {
              start_key = sp.start_key;
              end_key = sp.end_key;
              clients = [];
            } in
            let group = x.group_find find_clients clients rsp in
            let (chans, clients') = serve_group now group clients in
            let (later, clients2) = serve_spans n (suc i) now cmd clients' in
            (chans ++ later, clients2)
      ]

  -- a round of `eo_reader` that has received a message
  unfoldable pub eo_reader : ℕ → Message → x.ClientTree → Outcome (List ℕ × Message × x.ClientTree)
  eo_reader now m clients =
      let m' = record m { ref = 1 } in
      elim m.command [
        | none ↦ fault null_deref
        | some cmd ↦
            let (chans, clients') = serve_spans cmd.tx_size 0 now cmd clients in
            ok (chans, m', clients')
      ]
