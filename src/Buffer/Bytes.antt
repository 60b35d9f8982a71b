-- ===== src/Buffer/Bytes.antt =====
-- What the buffer holds, and what the operations do to it.
use zedlibs.Prelude.{
  ℕ, ◌+◌, ◌-◌, ◌%◌, ◌^◌, ◌≤◌, ◌<◌, ◌≡◌, refl, sym, ap, ap₂, ◌∙◌, List, ◌++◌, length, length-take,
  take, min, Option, some, true, ◌==◌, leb, if◌then◌else◌, arith, Bool-cases, inl, inr,
}
use zedlibs.Prelude.Slices.{
  slice, slice_empty, length-slice, slice-join, copy_to, length-copy_to, slice-copy_to,
}
use zedlibs.Buffer.{
  StreamBuffer, r_remaining, w_remaining, r_slice, capacity, reset_data, reset_pos, r_increase,
  w_increase, write_to, read_from,
}

module _ {ℓ} {A : Type ℓ} where
  pub record IsValid (b : StreamBuffer A) : Type ℓ where
    pub ordered : b.r_pos ≤ b.w_pos
    pub inside : b.w_pos ≤ length b.buf
    pub addressable : length b.buf < 2 ^ 64

  -- The data that can be read.
  abbrev pub held : StreamBuffer A → List A
  held b = slice b.buf b.r_pos b.w_pos

  pub r_slice-held : (b : StreamBuffer A) → IsValid b → r_slice b ≡ held b
  unfolding r_slice r_remaining
  r_slice-held b v = ap (slice b.buf b.r_pos) (omega (arith, v.ordered))

  -- A copy to the front of an array.
  slice-front :
      (src dst : List A) → length src ≤ length dst → slice (copy_to src dst 0) 0 (length src) ≡ src
  slice-front src dst h =
      let end : length src ≡ 0 + length src = omega arith in
      ap (slice (copy_to src dst 0) 0) end
      ∙ slice-copy_to src dst 0 0 (omega arith) (omega arith)
      ∙ ap (λ l. l ++ src) (slice_empty dst 0 0 (omega arith))

  pub w_increase_lem :
      (b : StreamBuffer A) (n : ℕ)
      → b.r_pos ≤ b.w_pos
      → b.w_pos + n < 2 ^ 64
      → w_increase b n ≡ some (record b { w_pos = b.w_pos + n })
  unfolding w_increase
  w_increase_lem b n h p =
      let sum : (b.w_pos + n) % 2 ^ 64 ≡ b.w_pos + n = omega arith in
      let test : leb b.r_pos (b.w_pos + n) ≡ true = ground arith in rw sum (rw test refl)

  pub r_increase_lem :
      (b : StreamBuffer A) (n : ℕ)
      → b.r_pos + n ≤ b.w_pos
      → b.w_pos < 2 ^ 64
      → r_increase b n ≡ some (record b { r_pos = b.r_pos + n })
  unfolding r_increase
  r_increase_lem b n h p =
      let sum : (b.r_pos + n) % 2 ^ 64 ≡ b.r_pos + n = omega arith in
      let test : leb (b.r_pos + n) b.w_pos ≡ true = ground arith in rw sum (rw test refl)

  -- What `read_from` leaves: as much of the source as fits stands behind the data that were there.
  pub record Filled (b : StreamBuffer A) (src : List A) (out : Option (StreamBuffer A × ℕ))
      : Type ℓ where
    pub after : StreamBuffer A
    pub len : ℕ
    pub found : out ≡ some (after, len)
    pub good : IsValid after
    pub most : len ≡ min (w_remaining b) (length src)
    pub appended : held after ≡ held b ++ take len src

  -- `read_from` of a valid buffer fails no assertion and appends as much of the source as fits; the
  -- buffer stays valid.
  pub read_from-Filled :
      (b : StreamBuffer A) (src : List A) → IsValid b → Filled b src (read_from b src)
  unfolding read_from w_remaining
  read_from-Filled b src v =
      let len : ℕ = min (length b.buf - b.w_pos) (length src) in
      let count : length (take len src) ≡ len = omega (arith, length-take len src) in
      let same : length (copy_to (take len src) b.buf b.w_pos) ≡ length b.buf =
        length-copy_to (take len src) b.buf b.w_pos in
      let more =
        w_increase_lem (record b { buf = copy_to (take len src) b.buf b.w_pos }) len v.ordered
          (omega (arith, v.inside, v.addressable)) in
      rw (more, read_from)
        (record {
          after = record b { w_pos = b.w_pos + len; buf = copy_to (take len src) b.buf b.w_pos };
          len = len;
          found = refl;
          good = record {
            ordered = omega (arith, v.ordered);
            inside = omega (arith, same, v.inside);
            addressable = omega (arith, same, v.addressable);
          };
          most = refl;
          appended =
              ap (λ n. slice (copy_to (take len src) b.buf b.w_pos) b.r_pos (b.w_pos + n))
                (sym count)
              ∙ slice-copy_to (take len src) b.buf b.r_pos b.w_pos v.ordered
                  (omega (arith, count, v.inside));
        })

  -- What `write_to` leaves: the front of the destination and the buffer share the data that were
  -- there.
  pub record Drained (b : StreamBuffer A) (dst : List A)
      (out : Option (StreamBuffer A × List A × ℕ)) : Type ℓ where
    pub after : StreamBuffer A
    pub dst' : List A
    pub len : ℕ
    pub found : out ≡ some (after, dst', len)
    pub good : IsValid after
    pub most : len ≡ min (length (held b)) (length dst)
    pub shared : held b ≡ slice dst' 0 len ++ held after

  -- The positions go back to the start when all is read.
  rewound :
      (b : StreamBuffer A)
      → IsValid b
      → IsValid (if b.r_pos == b.w_pos then reset_pos b else b)
        × (held (if b.r_pos == b.w_pos then reset_pos b else b) ≡ held b)
  unfolding reset_pos
  rewound b v = elim (Bool-cases (b.r_pos == b.w_pos)) [
    | inl e ↦ rw e (
      record { ordered = omega arith; inside = omega arith; addressable = v.addressable },
      slice_empty b.buf 0 0 (omega arith)
          ∙ sym (slice_empty b.buf b.r_pos b.w_pos (ground (arith, e))),
    )
    | inr e ↦ rw e (v, refl)
  ]

  -- `write_to` of a valid buffer fails no assertion. It moves the oldest data, as many as the
  -- destination can take, to the front of the destination; the others stay in order, and the buffer
  -- stays valid.
  pub write_to-Drained :
      (b : StreamBuffer A) (dst : List A) → IsValid b → Drained b dst (write_to b dst)
  unfolding write_to r_remaining
  write_to-Drained b dst v =
      let len : ℕ = min (b.w_pos - b.r_pos) (length dst) in
      let less =
        r_increase_lem b len (omega (arith, v.ordered)) (omega (arith, v.inside, v.addressable)) in
      let part : List A = slice b.buf b.r_pos (b.r_pos + len) in
      let count : length part ≡ len =
        omega (arith, length-slice b.buf b.r_pos (b.r_pos + len), v.ordered, v.inside) in
      let moved : StreamBuffer A = record b { r_pos = b.r_pos + len } in
      let back = rewound moved (record {
        ordered = omega (arith, v.ordered);
        inside = v.inside;
        addressable = v.addressable;
      }) in
      rw (less, write_to)
        (record {
          after = if moved.r_pos == moved.w_pos then reset_pos moved else moved;
          dst' = copy_to part dst 0;
          len = len;
          found = refl;
          good = back.0;
          most = omega (arith, length-slice b.buf b.r_pos b.w_pos v.inside);
          shared =
              sym (
                slice-join b.buf b.r_pos (b.r_pos + len) b.w_pos (omega arith)
                  (omega (arith, v.ordered)))
              ∙ ap₂ (λ l m. l ++ m)
                  (sym (
                    ap (slice (copy_to part dst 0) 0) (sym count)
                    ∙ slice-front part dst (omega (arith, count))))
                  (sym back.1);
        })

  -- What `reset_data` leaves.
  pub record Compacted (b b' : StreamBuffer A) : Type ℓ where
    pub good : IsValid b'
    pub kept : held b' ≡ held b
    pub free : w_remaining b' + length (held b) ≡ capacity b

  -- `reset_data` of a valid buffer keeps the data, makes all the free space writable, and leaves the
  -- buffer valid.
  pub reset_data-Compacted : (b : StreamBuffer A) → IsValid b → Compacted b (reset_data b)
  unfolding reset_data r_remaining w_remaining capacity
  reset_data-Compacted b v =
      let count = length-slice b.buf b.r_pos b.w_pos v.inside in
      let size : length (r_slice b) ≡ b.w_pos - b.r_pos = ap length (r_slice-held b v) ∙ count in
      let same = length-copy_to (r_slice b) b.buf 0 in
      record {
        good = record {
          ordered = omega arith;
          inside = omega (arith, same, v.inside);
          addressable = omega (arith, same, v.addressable);
        };
        kept =
            ap (slice (copy_to (r_slice b) b.buf 0) 0) (sym size)
            ∙ slice-front (r_slice b) b.buf (omega (arith, size, v.inside))
            ∙ r_slice-held b v;
        free = omega (arith, same, count, v.ordered, v.inside);
      }
