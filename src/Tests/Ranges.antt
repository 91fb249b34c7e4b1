-- ===== src/Tests/Ranges.antt =====
-- Ranges and commands at concrete keys.
use epx_c.Base.{◌≡◌, ◌↔◌, true, ◌||◌, [], ◌∷◌}
use epx_c.Command.{Io, Key, Span, Command, is_write, interferes}
use epx_c.Command.Ranges.{HaveOverlap, interferes_iff}

abbrev range : Key → Key → Span
range a b = record { start_key = a; end_key = b }

-- "a" to "c", and "b" to "d"
abbrev ac : Span
ac = range (97 ∷ []) (99 ∷ [])

abbrev bd : Span
bd = range (98 ∷ []) (100 ∷ [])

abbrev on : Span → Io → Command
on s w = record { spans = s ∷ []; tx_size = 1; id = 1; writing = w }

interferes_iff_example : ((interferes (on ac Io.write) (on bd Io.read)).0 ≡ true) ↔ (
    ((is_write Io.write || is_write Io.read) ≡ true) × HaveOverlap (on ac Io.write) (on bd Io.read))
interferes_iff_example = interferes_iff (on ac Io.write) (on bd Io.read)
