-- ===== src/BufRead/Tests.antt =====
-- A file that keeps the promises, and runs of the readers on it.
use zedlibs.Prelude.{
  ℕ, ◌≡◌, refl, sym, min, List, [], ◌∷◌, take, drop, length-take, take-append-drop, Option, some,
  none, true, arith,
}
use zedlibs.Prelude.Slices.{slice, copy_to}
use zedlibs.Errors.{unexpected_eof}
use zedlibs.Buffer.{
  StreamBuffer, r_slice, r_remaining, w_remaining, r_increase, w_increase, reset_pos, reset_data,
  write_to, capacity, empty,
}
use zedlibs.Buffer.Bytes.{IsValid}
use zedlibs.BufWrite.System.{Outcome, done, failed, sys, zedio}
use zedlibs.BufRead.{fill, pred, hand_out, read_exact, read_loop, read_buffered, real_read}
use zedlibs.BufRead.Source.{Input, Promises}
use zedlibs.Buffer.Find.{find, starts_with, find_flag_and_return_slice}
use zedlibs.BufRead.Until.{refill, round, read_until}
use zedlibs.BufRead.Lines.{Lined, read_until-Lined}
use zedlibs.BufRead.Read.{Served, real_read-Served}

-- A file that gives at most two data at a time.
abbrev slow : Input (List ℕ) ℕ
slow = record { read = λ f n. (drop (min 2 n) f, done (take (min 2 n) f)) }

slow-Promises : Promises slow (λ f. f)
slow-Promises = record {
  on_read = λ f n. (omega (arith, length-take (min 2 n) f), sym (take-append-drop (min 2 n) f));
}

-- 2 and 3 can be read, and there is room for one more at the end.
abbrev two_held : StreamBuffer ℕ
two_held = record { r_pos = 1; w_pos = 3; buf = 1 ∷ 2 ∷ 3 ∷ 0 ∷ [] }

two_held-IsValid : IsValid two_held
two_held-IsValid = record { ordered = omega arith; inside = omega arith; addressable = omega arith }

abbrev span : List ℕ
span = 0 ∷ 0 ∷ 0 ∷ 0 ∷ []

real_read-Served_example :
    Served slow
      (λ f. f)
      slow-Promises
      true
      (4 ∷ 5 ∷ 6 ∷ [])
      two_held
      span
      (real_read slow true (4 ∷ 5 ∷ 6 ∷ []) two_held span)
real_read-Served_example =
    real_read-Served slow (λ f. f) slow-Promises true (4 ∷ 5 ∷ 6 ∷ []) two_held span
      two_held-IsValid (unfold capacity in omega arith)

exact :
    real_read slow true (4 ∷ 5 ∷ 6 ∷ []) two_held span
    ≡ some (
      6 ∷ [],
      record { r_pos = 0; w_pos = 0; buf = 2 ∷ 3 ∷ 4 ∷ 5 ∷ [] },
      2 ∷ 3 ∷ 4 ∷ 5 ∷ [],
      done 4,
    )
unfolding real_read read_buffered read_loop hand_out pred fill write_to capacity r_slice r_remaining
    w_remaining r_increase w_increase reset_data reset_pos slice copy_to
exact = refl

-- A file that fails once, with the error 5, and is then at its end.
abbrev broken : Input (List ℕ) ℕ
broken = record { read = λ f n. elim f [ [] ↦ ([], done []) | _ ∷ f' ↦ (f', failed (sys 5)) ] }

abbrev answer : Option (List ℕ × StreamBuffer ℕ × List ℕ × Outcome ℕ) → Option (Outcome ℕ)
answer none = none
answer (some (f, b, dst, ret)) = some ret

-- With a span that is larger than the buffer the error 5 is not reported.
error_lost :
    answer (real_read broken true (1 ∷ []) two_held (0 ∷ 0 ∷ 0 ∷ 0 ∷ 0 ∷ []))
    ≡ some (failed (zedio unexpected_eof))
unfolding real_read read_exact read_buffered read_loop hand_out pred fill write_to capacity r_slice
    r_remaining w_remaining r_increase w_increase reset_data reset_pos slice copy_to empty
error_lost = refl

-- The line ends in the second round.
read_until-Lined_example :
    Lined slow
      (λ f. f)
      slow-Promises
      5
      (4 ∷ 5 ∷ 6 ∷ [])
      two_held
      (9 ∷ [])
      (read_until slow 4 (5 ∷ []) (4 ∷ 5 ∷ 6 ∷ []) two_held (9 ∷ []))
read_until-Lined_example =
    read_until-Lined slow (λ f. f) slow-Promises 5 4 (4 ∷ 5 ∷ 6 ∷ []) two_held (9 ∷ [])
      two_held-IsValid (omega arith)

line_of_two_reads :
    read_until slow 4 (5 ∷ []) (4 ∷ 5 ∷ 6 ∷ []) two_held (9 ∷ [])
    ≡ some (
      6 ∷ [],
      record { r_pos = 2; w_pos = 2; buf = 4 ∷ 5 ∷ 3 ∷ 0 ∷ [] },
      9 ∷ 2 ∷ 3 ∷ 4 ∷ 5 ∷ [],
      done 5,
    )
unfolding read_until round refill find_flag_and_return_slice find starts_with fill r_slice
    r_remaining w_remaining r_increase w_increase reset_pos slice copy_to
line_of_two_reads = refl

-- A flag of two characters that two reads give is not found: the text goes on to the end.
flag_of_two_reads :
    answer (read_until slow 5 (3 ∷ 4 ∷ []) (4 ∷ 5 ∷ 6 ∷ []) two_held []) ≡ some (done 5)
unfolding read_until round refill find_flag_and_return_slice find starts_with fill r_slice
    r_remaining w_remaining r_increase w_increase reset_pos slice copy_to
flag_of_two_reads = refl
