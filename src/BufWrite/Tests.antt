-- ===== src/BufWrite/Tests.antt =====
-- A file that keeps the promises, and runs of the writers on it.
use zedlibs.Prelude.{ℕ, ◌≡◌, refl, min, List, [], ◌∷◌, ◌++◌, length, take, some, false, arith}
use Prim.{tt}
use zedlibs.Prelude.Slices.{slice, copy_to}
use zedlibs.Buffer.{
  StreamBuffer, r_slice, r_remaining, w_remaining, r_increase, reset_data, read_from, w_increase,
}
use zedlibs.Buffer.Bytes.{IsValid}
use zedlibs.BufWrite.{write_all, flush, write_rest, write_loop, real_write}
use zedlibs.BufWrite.System.{File, Promises, done}
use zedlibs.BufWrite.Flush.{Flushed, flush-Flushed}
use zedlibs.BufWrite.Accept.{Accepted}
use zedlibs.BufWrite.Write.{real_write-Accepted}

-- A file that takes at most two data at a time.
abbrev slow : File (List ℕ) ℕ
slow = record {
  write = λ f l. (f ++ take (min 2 (length l)) l, done (min 2 (length l)));
  write_vectored =
      λ f l m. (f ++ take (min 2 (length (l ++ m))) (l ++ m), done (min 2 (length (l ++ m))));
}

slow-Promises : Promises slow (λ f. f)
slow-Promises = record {
  on_write = λ f l. (omega arith, refl);
  on_write_vectored = λ f l m. (omega arith, refl);
}

-- 2 and 3 can be read, and there is room for one more at the end.
abbrev two_held : StreamBuffer ℕ
two_held = record { r_pos = 1; w_pos = 3; buf = 1 ∷ 2 ∷ 3 ∷ 0 ∷ [] }

two_held-IsValid : IsValid two_held
two_held-IsValid = record { ordered = omega arith; inside = omega arith; addressable = omega arith }

flush-Flushed_example : Flushed slow (λ f. f) slow-Promises [] two_held (flush slow [] two_held)
flush-Flushed_example = flush-Flushed slow (λ f. f) slow-Promises [] two_held two_held-IsValid

real_write-Accepted_example :
    Accepted slow
      (λ f. f)
      slow-Promises
      false
      []
      two_held
      (4 ∷ 5 ∷ 6 ∷ 7 ∷ 8 ∷ [])
      0
      (real_write slow false [] two_held (4 ∷ 5 ∷ 6 ∷ 7 ∷ 8 ∷ []))
real_write-Accepted_example =
    real_write-Accepted slow (λ f. f) slow-Promises false [] two_held (4 ∷ 5 ∷ 6 ∷ 7 ∷ 8 ∷ [])
      two_held-IsValid

-- The file takes 2 and 3, then 4 and 5; the rest goes into the buffer.
in_two_rounds :
    real_write slow false [] two_held (4 ∷ 5 ∷ 6 ∷ 7 ∷ 8 ∷ 9 ∷ [])
    ≡ some (2 ∷ 3 ∷ 4 ∷ 5 ∷ [], record { r_pos = 0; w_pos = 4; buf = 6 ∷ 7 ∷ 8 ∷ 9 ∷ [] }, done 6)
unfolding real_write write_loop write_rest r_slice r_remaining w_remaining r_increase reset_data
    read_from w_increase slice copy_to
in_two_rounds = refl

all_written : write_all slow 2 [] (4 ∷ 5 ∷ 6 ∷ []) ≡ some (4 ∷ 5 ∷ 6 ∷ [], done tt)
unfolding write_all
all_written = refl
