-- ===== src/Idle/Tests.antt =====
-- A state that meets the hypothesis of the theorem on idle workers.
use zedlibs.Prelude.{◌*◌, ◌^◌, [], ◌∷◌, refl, arith}
use zedlibs.Idle.{Idle, num_working}
use zedlibs.Idle.Notify.{WellFormed}

-- Of four workers two work, and 1 and 3 sleep.
abbrev half_asleep : Idle
half_asleep = record { state = 2 * 2 ^ 16; num_workers = 4; sleeping_workers = 3 ∷ 1 ∷ [] }

half_asleep-WellFormed : WellFormed half_asleep
unfolding num_working
half_asleep-WellFormed = record { counted = refl; few = omega arith }
