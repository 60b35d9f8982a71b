-- ===== src/BufRead/Fill.antt =====
-- What a read adds to the buffer, and what compacting it keeps.
use zedlibs.Prelude.{
  ◌+◌, ◌≤◌, ◌≡◌, refl, List, ◌++◌, length, Option, some, ltb, arith, Bool-cases, inl, inr,
}
use zedlibs.Prelude.Slices.{length-slice, copy_to, length-copy_to, slice-copy_to}
use zedlibs.Buffer.{StreamBuffer, r_slice, w_remaining, capacity, reset_data}
use zedlibs.Buffer.Bytes.{IsValid, held, w_increase_lem, reset_data-Compacted}
use zedlibs.BufRead.{fill, compacted}

module _ {ℓ} {A : Type ℓ} where
  pub held_few : (b : StreamBuffer A) → IsValid b → length (held b) ≤ capacity b
  unfolding capacity
  held_few b v = omega (arith, length-slice b.buf b.r_pos b.w_pos v.inside, v.inside)

  pub record Grown (b : StreamBuffer A) (l : List A) (out : Option (StreamBuffer A)) : Type ℓ where
    pub b' : StreamBuffer A
    pub returns : out ≡ some b'
    pub good : IsValid b'
    pub more : held b' ≡ held b ++ l
    pub size : capacity b' ≡ capacity b

  -- A read of no more than fits, into a valid buffer: no assertion fails, the data stand behind those
  -- that were there, the buffer stays valid.
  pub fill-Grown :
      (b : StreamBuffer A) (l : List A)
      → IsValid b
      → length l ≤ w_remaining b
      → Grown b l (fill b l)
  unfolding fill w_remaining capacity
  fill-Grown b l v fits =
      let same : length (copy_to l b.buf b.w_pos) ≡ length b.buf = length-copy_to l b.buf b.w_pos in
      let room : b.w_pos + length l ≤ length b.buf = omega (arith, fits, v.inside) in
      record {
        b' = record b { w_pos = b.w_pos + length l; buf = copy_to l b.buf b.w_pos };
        returns =
            w_increase_lem (record b { buf = copy_to l b.buf b.w_pos }) (length l) v.ordered
              (omega (arith, room, v.addressable));
        good = record {
          ordered = omega (arith, v.ordered);
          inside = omega (arith, same, room);
          addressable = omega (arith, same, v.addressable);
        };
        more = slice-copy_to l b.buf b.r_pos b.w_pos v.ordered room;
        size = same;
      }

  pub record Ready (b b' : StreamBuffer A) : Type ℓ where
    pub good : IsValid b'
    pub kept : held b' ≡ held b
    pub size : capacity b' ≡ capacity b

  capacity-reset_data : (b : StreamBuffer A) → capacity (reset_data b) ≡ capacity b
  unfolding capacity reset_data
  capacity-reset_data b = length-copy_to (r_slice b) b.buf 0

  pub compacted-Ready : (b : StreamBuffer A) (dst : List A) → IsValid b → Ready b (compacted b dst)
  compacted-Ready b dst v = elim (Bool-cases (ltb (w_remaining b) (length dst))) [
    | inl e ↦
        let c = reset_data-Compacted b v in
        rw e (record { good = c.good; kept = c.kept; size = capacity-reset_data b })
    | inr e ↦ rw e (record { good = v; kept = refl; size = refl })
  ]
