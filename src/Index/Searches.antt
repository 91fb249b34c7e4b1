-- ===== src/Index/Searches.antt =====
-- `seq_deps_for_command` of src/index.c: which instances of an index it looks at, in which order,
-- and that it comes to an end.
use epx_c.Base.{Option, none, some, List, [], ◌∷◌, if◌then◌else◌, Outcome, ok, ◌>>=◌}
use epx_c.InstanceId.{InstanceId}
use epx_c.Command.{Command}
use epx_c.Message.{State, bits}
use epx_c.Instance.{Instance, is_state}
use epx_c.Extern.{Externals}
use epx_c.Index.{go, stop, Search, interferes_ptr, is_ignored, seq_deps_found}

module _ (x : Externals) where
  -- Those that are searched: all in front of the first executed one, but for the one to ignore.
  abbrev pub searched : Option InstanceId → List Instance → List Instance
  searched ignore [] = []
  searched ignore (i ∷ is) =
      if is_ignored x ignore i.key
      then searched ignore is
      else (if is_state (bits i.status) (bits State.executed) then [] else i ∷ searched ignore is)

  -- Each in turn is compared, and found where the two commands interfere, until all ranges of the
  -- command are covered.
  abbrev pub compare_all : List Instance → Search x → Outcome (Search x)
  compare_all [] w = ok w
  compare_all (i ∷ is) w = interferes_ptr i.command w.cmd >>= λ (hit, cspan). elim w.cmd [
    | none ↦ compare_all is w
    | some cmd ↦
        if hit
        then elim (seq_deps_found x i cspan cmd w) [ go w' ↦ compare_all is w' | stop w' ↦ ok w' ]
        else compare_all is w
  ]
