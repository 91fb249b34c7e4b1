-- ===== src/Tests/Libraries.antt =====
-- The libraries' behaviour on lists: one that the code's assumptions hold of.
use epx_c.Base.{
  ℕ, ◌≤◌, ◌≡◌, ◌≢◌, refl, sym, ◌∙◌, ap, Bool, true, false, Option, none, some, List, [], ◌∷◌, head?,
  length, All, if◌then◌else◌, ◌==◌, ◌&&◌, arith,
}
use mathlib.Core.List.{append-nil}
use epx_c.Command.{Span, overlaps, strcmp}
use epx_c.Instance.{Instance}
use epx_c.Extern.{Llrb, SpanTrees, Khash, Vertices, Externals}
use epx_c.Extern.Laws.{LlrbLaws, num, IsAscending, find_in, insert_result, write_in, rev_append}
use epx_c.Index.Walk.{rev_append-rev_append}

abbrev prev_in : Option Instance → List Instance → ℕ → Option Instance
prev_in below [] k = none
prev_in below (x ∷ xs) k = if num x == k then below else prev_in (some x) xs k

abbrev next_in : List Instance → ℕ → Option Instance
next_in [] k = none
next_in (x ∷ xs) k = if num x == k then head? xs else next_in xs k

abbrev delete_in : List Instance → ℕ → List Instance
delete_in [] k = []
delete_in (x ∷ xs) k = if num x == k then xs else x ∷ delete_in xs k

abbrev pub list_llrb : Llrb
list_llrb = record {
  Tree = List Instance;
  empty = [];
  insert = λ t e. (find_in t (num e), insert_result (find_in t (num e)) t e);
  find = find_in;
  delete = λ t e. delete_in t (num e);
  first = head?;
  last = λ t. head? (rev_append t []);
  next = λ t e. next_in t (num e);
  prev = λ t e. prev_in none t (num e);
  write = write_in;
  size = length;
}

abbrev pub is_span : Span → Span → Bool
unfolding strcmp overlaps
is_span s t = overlaps s t && overlaps t s

abbrev remove_span : List Span → Span → List Span
remove_span [] s = []
remove_span (t ∷ ts) s = if is_span t s then ts else t ∷ remove_span ts s

abbrev pub any_overlap : List Span → Span → Bool
unfolding strcmp overlaps
any_overlap [] s = false
any_overlap (t ∷ ts) s = if overlaps t s then true else any_overlap ts s

abbrev add_group :
    (List Span → Span → List Span → List Span × Span × List Span)
    → List Span
    → Span
    → Bool × List Span × Span
add_group merge t s = let (t', s', kept) = merge t s t in (true, t', s')

abbrev pub list_spans : SpanTrees
list_spans = record {
  SpanTree = List Span;
  no_spans = [];
  insert_span = λ t s. s ∷ t;
  delete_span = remove_span;
  range_group_add = add_group;
  range_overlaps = any_overlap;
}

abbrev pub get_in : List (ℕ × ℕ) → ℕ → Option ℕ
get_in [] k = none
get_in ((j, v) ∷ m) k = if j == k then some v else get_in m k

abbrev pub list_khash : Khash
list_khash = record {
  Map = List (ℕ × ℕ);
  no_entries = [];
  kh_get = get_in;
  kh_put = λ m k v. (k, v) ∷ m;
}

abbrev pub lists : Externals
lists = record { llrb = list_llrb; spans = list_spans; khash = list_khash }

abbrev Differ : ℕ → List Instance → Type 0
Differ k = All (λ y. num y ≢ k)

abbrev head_or : List Instance → Option Instance → Option Instance
head_or [] o = o
head_or (x ∷ xs) o = some x

prev_in-rev_append :
    (below : Option Instance) (rev ys : List Instance) (k : ℕ)
    → Differ k rev
    → prev_in below (rev_append rev ys) k ≡ prev_in (head_or rev below) ys k
prev_in-rev_append below [] ys k d = refl
prev_in-rev_append below (x ∷ rev) ys k d = ground (arith, prev_in-rev_append below rev (x ∷ ys) k)

next_in-rev_append :
    (rev ys : List Instance) (k : ℕ) → Differ k rev → next_in (rev_append rev ys) k ≡ next_in ys k
next_in-rev_append [] ys k d = refl
next_in-rev_append (x ∷ rev) ys k d = ground (arith, next_in-rev_append rev (x ∷ ys) k)

delete_in-rev_append :
    (rev ys : List Instance) (k : ℕ)
    → Differ k rev
    → delete_in (rev_append rev ys) k ≡ rev_append rev (delete_in ys k)
delete_in-rev_append [] ys k d = refl
delete_in-rev_append (x ∷ rev) ys k d = ground (arith, delete_in-rev_append rev (x ∷ ys) k)

IsAscending-rev_append : (rev ys : List Instance) → IsAscending (rev_append rev ys) → IsAscending ys
IsAscending-rev_append [] ys s = s
IsAscending-rev_append (x ∷ rev) ys s = (IsAscending-rev_append rev (x ∷ ys) s).1

Differ-rev :
    (rev : List Instance) (y : Instance) (ys : List Instance) (k : ℕ)
    → num y ≤ k
    → IsAscending (rev_append rev (y ∷ ys))
    → Differ k rev
Differ-rev [] y ys k h s = tt
Differ-rev (x ∷ rev) y ys k h s =
    ground (arith, Differ-rev rev x (y ∷ ys) k, IsAscending-rev_append rev (x ∷ y ∷ ys) s)

IsAscending-next :
    (t rev : List Instance) (e : Instance) (post : List Instance)
    → IsAscending t
    → t ≡ rev_append (e ∷ rev) post
    → Differ (num e) rev
IsAscending-next t rev e post s p = Differ-rev rev e post (num e) (omega arith) (rw (sym p) s)

pub prev_in_lem :
    (t rev : List Instance) (e : Instance) (post : List Instance)
    → IsAscending t
    → t ≡ rev_append (e ∷ rev) post
    → prev_in none t (num e) ≡ head? rev
prev_in_lem t rev e post s p =
    ap (λ u. prev_in none u (num e)) p
    ∙ prev_in-rev_append none rev (e ∷ post) (num e) (IsAscending-next t rev e post s p)
    ∙ found rev
  where
    found : (xs : List Instance) → prev_in (head_or xs none) (e ∷ post) (num e) ≡ head? xs
    found [] = ground arith
    found (x ∷ xs) = ground arith

pub next_in_lem :
    (t rev : List Instance) (e : Instance) (post : List Instance)
    → IsAscending t
    → t ≡ rev_append (e ∷ rev) post
    → next_in t (num e) ≡ head? post
next_in_lem t rev e post s p =
    ap (λ u. next_in u (num e)) p
    ∙ next_in-rev_append rev (e ∷ post) (num e) (IsAscending-next t rev e post s p)
    ∙ ground arith

pub delete_in_lem :
    (t rev : List Instance) (e : Instance) (post : List Instance)
    → IsAscending t
    → t ≡ rev_append (e ∷ rev) post
    → delete_in t (num e) ≡ rev_append rev post
delete_in_lem t rev e post s p =
    ap (λ u. delete_in u (num e)) p
    ∙ delete_in-rev_append rev (e ∷ post) (num e) (IsAscending-next t rev e post s p)
    ∙ ap (rev_append rev) (ground arith)

pub last_in_lem :
    (t rev : List Instance) → t ≡ rev_append rev [] → head? (rev_append t []) ≡ head? rev
last_in_lem t rev p =
    ap (λ u. head? (rev_append u [])) p
    ∙ ap head? (rev_append-rev_append rev [] [] ∙ append-nil rev)

unfoldable pub list_llrb_laws : LlrbLaws list_llrb
list_llrb_laws = record {
  to_list = λ t. t;
  to_list-empty = refl;
  size_lem = λ t. refl;
  find_lem = λ t k s. refl;
  insert_rejects = λ t e s. refl;
  to_list-insert = λ t e s. refl;
  to_list-write = λ t e. refl;
  to_list-delete = delete_in_lem;
  first_lem = λ t. refl;
  last_lem = last_in_lem;
  next_lem = next_in_lem;
  prev_lem = prev_in_lem;
}

abbrev pub remove_in : List (ℕ × ℕ) → ℕ → List (ℕ × ℕ)
remove_in [] k = []
remove_in ((j, v) ∷ m) k = if j == k then m else (j, v) ∷ remove_in m k

abbrev pub values_in : List (ℕ × ℕ) → List ℕ
values_in [] = []
values_in ((j, v) ∷ m) = v ∷ values_in m

abbrev pub list_vertices : Vertices
list_vertices = record {
  VertexMap = List (ℕ × ℕ);
  no_vertices = [];
  vertex_get = get_in;
  vertex_put = λ m k v. (k, v) ∷ remove_in m k;
  vertex_del = remove_in;
  vertex_values = values_in;
}
