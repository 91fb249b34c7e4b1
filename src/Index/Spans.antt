-- ===== src/Index/Spans.antt =====
-- The key ranges that a search of src/index.c has covered: `merge`, `read_dependency` and the
-- loops of `seq_deps_for_command` and `pre_accept_conflict` over the ranges of two commands.
use epx_c.Base.{
  ℕ, zero, suc, Bool, true, false, not, ◌&&◌, List, [], ◌∷◌, get_or, set, if◌then◌else◌,
}
use epx_c.Command.{Key, Span, Command, zero_span, strcmp, le_zero, ge_zero, overlaps, empty_range}
use epx_c.Extern.{SpanTrees}

-- `strcmp(a, b) > 0` and `strcmp(a, b) < 0` as choices of a key
abbrev pub smaller_key : Key → Key → Key
smaller_key a b = if not (le_zero (strcmp a b)) then b else a

abbrev pub larger_key : Key → Key → Key
larger_key a b = if not (ge_zero (strcmp a b)) then b else a

-- the two `strcpy` of `merge`
unfoldable pub widen : Span → Span → Span
widen to_merge c = record {
  start_key = smaller_key to_merge.start_key c.start_key;
  end_key = larger_key to_merge.end_key c.end_key;
}

module _ (x : SpanTrees) where
  -- the loop of `merge` over the group behind `to_merge`: the tree, the range and the group
  unfoldable pub merge_loop : x.SpanTree → Span → List Span → x.SpanTree × Span × List Span
  merge_loop rt to_merge [] = (rt, to_merge, [])
  merge_loop rt to_merge (c ∷ group) =
      let (rt', to_merge', kept) =
        merge_loop (if overlaps to_merge c then x.delete_span rt c else rt)
          (if overlaps to_merge c then widen to_merge c else to_merge) group in
      (rt', to_merge', if overlaps to_merge c then kept else c ∷ kept)

  -- The group that `merge` leaves begins with the range.
  unfoldable pub merge : x.SpanTree → Span → List Span → x.SpanTree × Span × List Span
  merge rt to_merge sll =
      let (rt', to_merge', kept) = merge_loop rt to_merge sll in (rt', to_merge', to_merge' ∷ kept)

  -- the loop of `read_dependency`, with `n` rounds left from `i`
  unfoldable pub no_overlap : ℕ → ℕ → x.SpanTree → Command → Bool
  no_overlap zero i rt cmd = true
  no_overlap (suc n) i rt cmd =
      let rest = no_overlap n (suc i) rt cmd in
      if x.range_overlaps rt (get_or cmd.spans i zero_span) then false else rest

  unfoldable pub read_dependency : x.SpanTree → Command → Bool
  read_dependency rt cmd = no_overlap cmd.tx_size 0 rt cmd

  -- what the loops over ranges change
  pub record Cover : Type 0 where
    pub rt : x.SpanTree
    pub cmd : Command
    pub add : Bool
    pub covered : Bool

  -- The inner loop: the ranges of `cmd` are merged into the tree, and widened where they stand.
  unfoldable pub cover_spans : ℕ → ℕ → Cover → Cover
  cover_spans zero j c = c
  cover_spans (suc n) j c =
      let (hit, rt', s) = x.range_group_add merge c.rt (get_or c.cmd.spans j zero_span) in
      cover_spans n (suc j) (record c {
        rt = rt';
        cmd = record (c.cmd) { spans = set c.cmd.spans j s };
        covered = if hit then false else c.covered;
      })

  -- what follows an insertion: the range goes into the tree, and those of `cmd` are looked up
  unfoldable pub insert_and_cover : Span → Cover → Cover
  insert_and_cover s c =
      cover_spans c.cmd.tx_size 0
        (record c { rt = x.insert_span c.rt s; add = true; covered = true })

  -- the loop over the common ranges `cspan`
  unfoldable pub add_spans : ℕ → ℕ → List Span → Cover → Cover
  add_spans zero i cspan c = c
  add_spans (suc n) i cspan c =
      let (hit, rt', s) = x.range_group_add merge c.rt (get_or cspan i zero_span) in
      let c' =
        (if hit then insert_and_cover s (record c { rt = rt' }) else record c { rt = rt' }) in
      let rest = add_spans n (suc i) cspan c' in
      if empty_range (get_or cspan i zero_span) then c else if c'.covered && hit then c' else rest
