-- ===== src/Tests/Indexes.antt =====
-- The searches of an index at concrete instances.
use epx_c.Base.{ℕ, ◌≡◌, List, [], ◌∷◌, ok, arith}
use epx_c.Message.{State}
use epx_c.Instance.{Instance, SeqDepsProbe}
use epx_c.Instance.Deps.{zero_deps}
use epx_c.Index.{clear_index}
use epx_c.Index.Clear.{clear_index_lem}
use epx_c.Extern.Laws.{IsAscending}
use epx_c.Tests.Libraries.{lists, list_llrb_laws}
use epx_c.Tests.Handlers.{instance_at}

-- an index of two executed instances and one that is not
abbrev numbered : State → ℕ → Instance
numbered s n = record (instance_at s 0) { key = record { replica_id = 0; instance_id = n } }

abbrev worn : List Instance
worn = numbered State.executed 1 ∷ numbered State.executed 2 ∷ numbered State.committed 3 ∷ []

worn-IsAscending : IsAscending (list_llrb_laws.to_list worn)
unfolding list_llrb_laws
worn-IsAscending = ground arith

abbrev nothing_found : SeqDepsProbe
nothing_found = record { updated = 0; deps = zero_deps }

clear_index_lem_example :
    (t : List Instance) × (clear_index lists worn ≡ ok t)
    × (t ≡ numbered State.executed 2 ∷ numbered State.committed 3 ∷ [])
unfolding list_llrb_laws
clear_index_lem_example = clear_index_lem lists list_llrb_laws worn worn-IsAscending
