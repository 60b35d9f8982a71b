-- ===== src/Logger.antt =====
-- zedio/log/buffer.hpp, file.hpp and the FileLogger of logger.hpp: the threads that log fill buffers,
-- which the logger's own thread writes to files. A step is what runs under the mutex, or what the
-- logger's thread does between two such parts.
pub mod Pending
pub mod Order
pub mod Spare
pub mod Steps
mod Tests
use zedlibs.Prelude.{
  ℕ, zero, suc, ◌+◌, ◌-◌, List, [], ◌∷◌, ◌++◌, length, replicate, take, map, Option, none, some,
  Bool, true, false, ◌==◌, ltb, if◌then◌else◌,
}
use zedlibs.Prelude.Slices.{slice, copy_to}

pub record LogBuffer {ℓ} (A : Type ℓ) : Type ℓ where
  pub data_ : List A
  pub cur : ℕ

-- `closed` are the contents of the files before the present one, the newest first, and `ofs` is what
-- the present file has got.
pub record LogFile {ℓ} (A : Type ℓ) : Type ℓ where
  pub closed : List (List A)
  pub ofs : List A
  pub max_file_size : ℕ
  pub cur_file_size : ℕ
  pub last_roll_second : ℕ

-- `cerr` are the numbers that were reported as dropped, the newest first.
pub record FileLogger {ℓ} (A : Type ℓ) : Type ℓ where
  pub file : LogFile A
  pub current_buffer : LogBuffer A
  pub empty_buffers : List (LogBuffer A)
  pub full_buffers : List (LogBuffer A)
  pub running : Bool
  pub cerr : List ℕ

-- A call of `log` with the text of the record, and the two parts of a round of `work`, the second with
-- the time at each of its writes.
pub data Step {ℓ} (A : Type ℓ) : Type ℓ where
  logs : List A → Step A
  hands_over : Step A
  writes_out : (ℕ → ℕ) → Step A

abbrev pub max_buffer_list_size : ℕ
max_buffer_list_size = 15

module _ {ℓ} {A : Type ℓ} where
  unfoldable pub size : LogBuffer A → ℕ
  size b = b.cur

  unfoldable pub writable_bytes : LogBuffer A → ℕ
  writable_bytes b = length b.data_ - size b

  -- `none` is the failed assertion.
  unfoldable pub write : LogBuffer A → List A → Option (LogBuffer A)
  write b str =
      if ltb (length str) (writable_bytes b)
      then some (record { data_ = copy_to str b.data_ b.cur; cur = b.cur + length str })
      else none

  unfoldable pub empty : LogBuffer A → Bool
  empty b = b.cur == 0

  unfoldable pub reset : LogBuffer A → LogBuffer A
  reset b = record b { cur = 0 }

  -- What `data()` and `size()` give to the file.
  abbrev pub content : LogBuffer A → List A
  content b = slice b.data_ 0 (size b)

  unfoldable pub roll : ℕ → LogFile A → LogFile A
  roll current_second f =
      if ltb f.last_roll_second current_second
      then record f {
        closed = f.ofs ∷ f.closed;
        ofs = [];
        cur_file_size = 0;
        last_roll_second = current_second;
      }
      else f

  unfoldable pub write_file : ℕ → LogFile A → List A → LogFile A
  write_file current_second f l =
      let f' : LogFile A = record f {
        ofs = f.ofs ++ l;
        cur_file_size = f.cur_file_size + length l;
      } in
      if ltb f.max_file_size (f.cur_file_size + length l) then roll current_second f' else f'

  -- The loops over `full_buffers_`; the n-th write is at the time `now n`.
  unfoldable pub write_all : (ℕ → ℕ) → ℕ → LogFile A → List (LogBuffer A) → LogFile A
  write_all now n f [] = f
  write_all now n f (b ∷ buffers) = write_all now (suc n) (write_file (now n) f (content b)) buffers

  -- `std::list::resize`, where it makes the list shorter.
  abbrev pub at_most : ℕ → List (LogBuffer A) → List (LogBuffer A)
  at_most n buffers = if ltb n (length buffers) then take 2 buffers else buffers

  unfoldable pub write_out : (ℕ → ℕ) → FileLogger A → FileLogger A
  write_out now s =
      let kept = at_most max_buffer_list_size s.full_buffers in
      record s {
        file = write_all now 0 s.file kept;
        empty_buffers = s.empty_buffers ++ at_most 2 (map reset kept);
        full_buffers = [];
        cerr =
            if ltb max_buffer_list_size (length s.full_buffers)
            then (length s.full_buffers - 2) ∷ s.cerr
            else s.cerr;
      }

  -- What `work` does after its loop.
  unfoldable pub finish : (ℕ → ℕ) → FileLogger A → LogFile A
  finish now s =
      write_all now 0 s.file
        (if empty s.current_buffer then s.full_buffers else s.full_buffers ++ s.current_buffer ∷ [])

-- `null` is what a new buffer is full of, and `capacity` the template's SIZE.
module _ {ℓ} {A : Type ℓ} (null : A) (capacity : ℕ) where
  abbrev pub new_buffer : LogBuffer A
  new_buffer = record { data_ = replicate capacity null; cur = 0 }

  -- The buffer that comes next, and the empty ones that are left.
  unfoldable pub next_buffer : List (LogBuffer A) → LogBuffer A × List (LogBuffer A)
  next_buffer [] = (new_buffer, [])
  next_buffer (b ∷ rest) = (b, rest)

  -- The current buffer goes to the full ones, and an empty one takes its place.
  unfoldable pub hand_over : FileLogger A → FileLogger A
  hand_over s = record s {
    full_buffers = s.full_buffers ++ s.current_buffer ∷ [];
    current_buffer = (next_buffer s.empty_buffers).0;
    empty_buffers = (next_buffer s.empty_buffers).1;
  }

  abbrev pub write_current : FileLogger A → List A → Option (FileLogger A)
  write_current s msg = elim (write s.current_buffer msg) [
    | none ↦ none
    | some b ↦ some (record s { current_buffer = b })
  ]

  unfoldable pub log : FileLogger A → List A → Option (FileLogger A)
  log s msg =
      if s.running
      then if ltb (length msg) (writable_bytes s.current_buffer)
        then write_current s msg
        else write_current (hand_over s) msg
      else some s

  unfoldable pub step : Step A → FileLogger A → Option (FileLogger A)
  step (logs msg) s = log s msg
  step hands_over s = some (hand_over s)
  step (writes_out now) s = some (write_out now s)

  unfoldable pub run : List (Step A) → FileLogger A → Option (FileLogger A)
  run [] s = some s
  run (x ∷ steps) s = elim (step x s) [ none ↦ none | some s' ↦ run steps s' ]
