-- ===== src/FileBuilder/Flags.antt =====
-- Which flags a fresh builder gives.
use zedlibs.Prelude.{
  ℕ, ◌+◌, ◌-◌, ◌^◌, ◌≡◌, refl, List, [], ◌∷◌, Bool, true, false, ◌&&◌, ◌||◌, ◌==◌, ==_iff, arith,
}
use zedlibs.FileBuilder.{
  Builder, options, Setting, read, write, append, create, truncate, permission, set_option,
  access_flags, adjust_flags, open_file,
}

-- What a file may be used for.
pub data Access : Type 0 where
  read_only : Access
  write_only : Access
  read_write : Access
  no_access : Access

-- A file to which one appends is written to, whether or not `write` is on.
unfoldable pub access : Bool → Bool → Access
access true true = read_write
access true false = read_only
access false true = write_only
access false false = no_access

unfoldable pub number : Bool → ℕ → ℕ
number true n = n
number false n = 0

-- The documented flags: the access mode, and one bit for each of the others.
unfoldable pub wanted : Access → Bool → Bool → Bool → ℕ
wanted read_only appends truncates creates =
    0 + number appends 1024 + number truncates 512 + number creates 64
wanted write_only appends truncates creates =
    1 + number appends 1024 + number truncates 512 + number creates 64
wanted read_write appends truncates creates =
    2 + number appends 1024 + number truncates 512 + number creates 64
wanted no_access appends truncates creates = 2 ^ 32 - 1

abbrev pub set_all : List Setting → Builder → Builder
set_all [] b = b
set_all (s ∷ settings) b = set_all settings (set_option s b)

abbrev pub chosen : Bool → Bool → Bool → Bool → Bool → ℕ → Builder
chosen r w a t c mode =
    set_all (read r ∷ write w ∷ append a ∷ truncate t ∷ create c ∷ permission mode ∷ []) options

for_both : (Bool → Bool) → Bool
for_both p = p true && p false

for_both_sound : (p : Bool → Bool) (b : Bool) → for_both p ≡ true → p b ≡ true
unfolding for_both
for_both_sound p true h = ground (arith, h)
for_both_sound p false h = ground (arith, h)

agrees : ℕ → Bool → Bool → Bool → Bool → Bool → Bool
agrees mode r w a t c = (open_file (chosen r w a t c mode)).0 == wanted (access r (w || a)) a t c

table :
    (mode : ℕ)
    → for_both (λ r. for_both (λ w. for_both (λ a. for_both (λ t. for_both (agrees mode r w a t)))))
      ≡ true
unfolding for_both agrees open_file adjust_flags access_flags set_option wanted access number
table mode = refl

-- A builder on which `read`, `write`, `append`, `truncate`, `create` and `permission` were called once
-- each opens with the access that reading and writing or appending ask for, a bit for each of the other
-- options, and the mode. With no access at all every bit of the flags is set.
pub open_file-wanted :
    (reads writes appends truncates creates : Bool) (mode : ℕ)
    → ((open_file (chosen reads writes appends truncates creates mode)).0
        ≡ wanted (access reads (writes || appends)) appends truncates creates)
      × ((open_file (chosen reads writes appends truncates creates mode)).1 ≡ mode)
unfolding agrees open_file adjust_flags set_option
open_file-wanted r w a t c mode =
    let in_r =
      for_both_sound
        (λ r. for_both (λ w. for_both (λ a. for_both (λ t. for_both (agrees mode r w a t))))) r
        (table mode) in
    let in_w =
      for_both_sound (λ w. for_both (λ a. for_both (λ t. for_both (agrees mode r w a t)))) w in_r in
    let in_a = for_both_sound (λ a. for_both (λ t. for_both (agrees mode r w a t))) a in_w in
    let in_t = for_both_sound (λ t. for_both (agrees mode r w a t)) t in_a in
    let in_c = for_both_sound (agrees mode r w a t) c in_t in ((==_iff _ _).0 in_c, refl)
