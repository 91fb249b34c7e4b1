-- ===== src/Extern.antt =====
-- The libraries that the code calls and does not contain, as parameters: the trees of
-- llrb-interval (of instances, and of key ranges) and klib's hash maps.
pub mod Laws
pub mod Rocks
use epx_c.Base.{ℕ, Bool, Option, List}
use epx_c.Command.{Span}
use epx_c.Instance.{Instance}

-- An `instance_index`. An element is the instance itself: `write` is an assignment to fields,
-- other than the key, of the instance that stands in the tree under that key.
pub record Llrb : Type 1 where
  pub Tree : Type 0
  pub empty : Tree
  pub insert : Tree → Instance → Option Instance × Tree
  pub find : Tree → ℕ → Option Instance
  pub delete : Tree → Instance → Tree
  pub first : Tree → Option Instance
  pub last : Tree → Option Instance
  pub next : Tree → Instance → Option Instance
  pub prev : Tree → Instance → Option Instance
  pub write : Tree → Instance → Tree
  pub size : Tree → ℕ

-- A `span_tree`. `range_group_add` calls the function that it is given to merge a range with
-- those in the tree; it returns whether the range is to be inserted, the tree and the range.
pub record SpanTrees : Type 1 where
  pub SpanTree : Type 0
  pub no_spans : SpanTree
  pub insert_span : SpanTree → Span → SpanTree
  pub delete_span : SpanTree → Span → SpanTree
  pub range_group_add :
      (SpanTree → Span → List Span → SpanTree × Span × List Span)
      → SpanTree
      → Span
      → Bool × SpanTree × Span
  pub range_overlaps : SpanTree → Span → Bool

-- A `khash_t(deferred)`.
pub record Khash : Type 1 where
  pub Map : Type 0
  pub no_entries : Map
  pub kh_get : Map → ℕ → Option ℕ
  pub kh_put : Map → ℕ → ℕ → Map

-- A `khash_t(vertices)`: from hash keys to nodes. `vertex_values` is the order of an iteration.
pub record Vertices : Type 1 where
  pub VertexMap : Type 0
  pub no_vertices : VertexMap
  pub vertex_get : VertexMap → ℕ → Option ℕ
  pub vertex_put : VertexMap → ℕ → ℕ → VertexMap
  pub vertex_del : VertexMap → ℕ → VertexMap
  pub vertex_values : VertexMap → List ℕ

pub record Externals : Type 1 where
  pub llrb : Llrb
  pub open llrb use *
  pub spans : SpanTrees
  pub open spans use *
  pub khash : Khash
  pub open khash use *
