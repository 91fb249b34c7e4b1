-- ===== src/Executor/Tarjan/Enter.antt =====
-- What `visit` of src/execute.c does before its loop.
use epx_c.Base.{
  ℕ, ◌+◌, ◌≡◌, refl, ◌≢◌, inl, inr, true, Option, none, some, List, [], ◌∷◌, length-set,
  get_or-set_self, get_or-set_ne, Bool-cases, arith, sym, subst, ◌∙◌, ap, ◌==◌, ==_iff,
}
use epx_c.Extern.{Externals, Vertices}
use epx_c.Executor.{TarjanNode, Executor, no_node, node}
use epx_c.Executor.Components.{contains}
use epx_c.Executor.Visit.{enter}
use epx_c.Executor.Tarjan.{PathTo, here, Falls, Stage, stacked, placed, white, Keeps, Grows}
use epx_c.Executor.Tarjan.Member.{contains-cons, contains-here, contains-there, contains-nil}
use epx_c.Executor.Tarjan.Room.{unseen_in-less}
use epx_c.Executor.Tarjan.Nodes.{field-set, indexed-ne, Falls-same, Falls-member}
use epx_c.Executor.Tarjan.Loop.{InLoop}
use epx_c.Executor.Tarjan.Calls.{IsCallable}

module _ {x : Externals} {v : Vertices} (vals : List ℕ) (dp : ℕ → List (Option ℕ)) (n : ℕ)
    (e : Executor x v) (c : IsCallable vals dp n e) where
  enter_self {ℓ} :
      {A : Type ℓ} (f : TarjanNode → A)
      → f (node (enter e n) n)
        ≡ f (record (node e n) { index = some e.index; low_link = some e.index; on_stack = true })
  unfolding enter
  enter_self f = ap f (get_or-set_self e.nodes n _ no_node (c.keeps.allocated n c.live))

  enter_other : (m : ℕ) → n ≢ m → node (enter e n) m ≡ node e m
  unfolding enter
  enter_other m h = get_or-set_ne e.nodes _ no_node h

  -- a node that was visited is another one
  visited-ne : (m : ℕ) → (node e m).index ≢ none → n ≢ m
  visited-ne m h q = absurd (h (subst (λ k. (node e k).index ≡ none) q c.unseen))

  stacked-ne : (m : ℕ) → contains e.stack m ≡ true → n ≢ m
  stacked-ne m h =
      let (live, on, (k, i, b)) = Falls-member vals dp e e.index e.stack m c.keeps.falls h in
      visited-ne m (indexed-ne i)

  enter-Falls : Falls vals dp (enter e n) (e.index + 1) (n ∷ e.stack)
  enter-Falls = (
    c.live,
    enter_self (λ t. t.on_stack),
    (
      e.index,
      enter_self (λ t. t.index),
      omega arith,
      Falls-same vals dp e (enter e n) e.index e.stack
          (λ m h. ap (λ t. t.index) (enter_other m (stacked-ne m h)))
          (λ m h. ap (λ t. t.on_stack) (enter_other m (stacked-ne m h))) c.keeps.falls,
    ),
  )

  enter-Stage : (m : ℕ) → Stage vals dp e m → Stage vals dp (enter e n) m
  unfolding enter
  enter-Stage m (stacked h) = stacked (contains-there n e.stack m h)
  enter-Stage m (placed h) = placed h
  enter-Stage m (white h) = elim (Bool-cases (n == m)) [
    | inl q ↦
        stacked (
          subst (λ k. contains (n ∷ e.stack) k ≡ true) ((==_iff n m).0 q) (contains-here n e.stack))
    | inr q ↦ white (ap (λ t. t.index) (enter_other m (ground arith)) ∙ h)
  ]

  enter-Keeps : Keeps vals dp (enter e n)
  unfolding enter
  enter-Keeps = record {
    allocated = λ m h. omega (arith, c.keeps.allocated m h, length-set e.nodes n _);
    deps_are = λ m h. field-set (λ t. t.deps) e.nodes n _ m refl ∙ c.keeps.deps_are m h;
    falls = enter-Falls;
    stage = λ m h. enter-Stage m (c.keeps.stage m h);
    done = λ m h. (
      λ q.
          (c.keeps.done m h).0
            (sym (ap (λ t. t.index) (enter_other m (visited-ne m (c.keeps.done m h).0))) ∙ q),
      ap (λ t. t.on_stack) (enter_other m (visited-ne m (c.keeps.done m h).0))
          ∙ (c.keeps.done m h).1,
    );
    mapped = c.keeps.mapped;
    room = omega (
      arith,
      c.keeps.room,
      unseen_in-less n e (enter e n) vals (λ m q. ap (λ t. t.index) (enter_other m q)) c.unseen
          (enter_self (λ t. t.index)) c.live,
    );
    counted = c.keeps.counted;
    components = c.keeps.components;
  }

  pub enter-Grows : Grows vals dp e.stack e (enter e n)
  unfolding enter
  enter-Grows = record {
    indexed = λ m h. ap (λ t. t.index) (enter_other m (visited-ne m h));
    kept = λ m h. h;
    moved = λ m h. inl (contains-there n e.stack m h);
    low_same = λ m h. ap (λ t. t.low_link) (enter_other m (stacked-ne m h));
  }

  pub enter-InLoop : InLoop vals dp e.stack n e.index e.index e.index (enter e n)
  unfolding enter
  enter-InLoop = record {
    keeps = enter-Keeps;
    seg = [];
    stack_is = refl;
    at = enter_self (λ t. t.index);
    low = enter_self (λ t. t.low_link);
    le = omega arith;
    anchor = inl refl;
    closed = λ m d h q. absurd (contains-nil m h);
    out = λ m h. absurd (contains-nil m h);
    back = λ m h. elim (contains-cons n e.stack m h) [
      | inl q ↦ subst (λ k. PathTo dp n k) q here
      | inr q ↦ c.back m q
    ];
  }
