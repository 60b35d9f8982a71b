-- ===== src/BufWrite/Advance.antt =====
-- `r_increase` after the file has taken a part of the data.
use zedlibs.Prelude.{
  ℕ, ◌+◌, ◌-◌, ◌≤◌, ◌≡◌, sym, ap, ◌∙◌, ◌++◌, length, drop, drop-append_length, Option, some, arith,
}
use zedlibs.Prelude.Slices.{slice, slice-join, length-slice}
use zedlibs.Buffer.{StreamBuffer, r_increase}
use zedlibs.Buffer.Bytes.{IsValid, held, r_increase_lem}

module _ {ℓ} {A : Type ℓ} where
  pub length-held : (b : StreamBuffer A) → IsValid b → length (held b) ≡ b.w_pos - b.r_pos
  length-held b v = length-slice b.buf b.r_pos b.w_pos v.inside

  pub record Advanced (b : StreamBuffer A) (n : ℕ) (out : Option (StreamBuffer A)) : Type ℓ where
    pub b' : StreamBuffer A
    pub returns : out ≡ some b'
    pub good : IsValid b'
    pub rest : held b' ≡ drop n (held b)

  -- `r_increase` of a valid buffer by no more than it holds: no assertion fails, the first so many data
  -- are gone, the buffer stays valid.
  pub r_increase-Advanced :
      (b : StreamBuffer A) (n : ℕ) → IsValid b → n ≤ length (held b) → Advanced b n (r_increase b n)
  r_increase-Advanced b n v h =
      let size = length-held b v in
      let front : length (slice b.buf b.r_pos (b.r_pos + n)) ≡ n =
        omega (arith, length-slice b.buf b.r_pos (b.r_pos + n), size, h, v.inside, v.ordered) in
      let whole : held b ≡ slice b.buf b.r_pos (b.r_pos + n) ++ slice b.buf (b.r_pos + n) b.w_pos =
        sym (
          slice-join b.buf b.r_pos (b.r_pos + n) b.w_pos (omega arith)
            (omega (arith, size, h, v.ordered))) in
      record {
        b' = record b { r_pos = b.r_pos + n };
        returns =
            r_increase_lem b n (omega (arith, size, h, v.ordered))
              (omega (arith, v.inside, v.addressable));
        good = record {
          ordered = omega (arith, size, h, v.ordered);
          inside = v.inside;
          addressable = v.addressable;
        };
        rest = sym (
            ap (drop n) whole
            ∙ ap
                (λ k.
                  drop k (slice b.buf b.r_pos (b.r_pos + n) ++ slice b.buf (b.r_pos + n) b.w_pos))
                (sym front)
            ∙ drop-append_length (slice b.buf b.r_pos (b.r_pos + n))
                (slice b.buf (b.r_pos + n) b.w_pos));
      }
