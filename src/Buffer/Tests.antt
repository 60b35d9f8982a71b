-- ===== src/Buffer/Tests.antt =====
-- A buffer that meets the hypotheses of the buffer's theorems, and runs of its operations.
use zedlibs.Prelude.{ℕ, ◌≡◌, refl, [], ◌∷◌, some, arith}
use zedlibs.Prelude.Slices.{slice, copy_to}
use zedlibs.Buffer.{StreamBuffer, write_to, reset_pos, r_increase, r_remaining}
use zedlibs.Buffer.Bytes.{IsValid}

-- 2 and 3 can be read, and there is room for one more at the end.
abbrev two_held : StreamBuffer ℕ
two_held = record { r_pos = 1; w_pos = 3; buf = 1 ∷ 2 ∷ 3 ∷ 0 ∷ [] }

two_held-IsValid : IsValid two_held
two_held-IsValid = record { ordered = omega arith; inside = omega arith; addressable = omega arith }

-- When all is read the positions go back to the start.
all_read :
    write_to two_held (0 ∷ 0 ∷ 0 ∷ [])
    ≡ some (record { r_pos = 0; w_pos = 0; buf = 1 ∷ 2 ∷ 3 ∷ 0 ∷ [] }, 2 ∷ 3 ∷ 0 ∷ [], 2)
unfolding write_to r_increase r_remaining reset_pos slice copy_to
all_read = refl
