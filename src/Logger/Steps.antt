-- ===== src/Logger/Steps.antt =====
-- FileLogger: what one call of log, and each part of a round of work, keeps of the texts logged.
use zedlibs.Prelude.{
  ℕ, suc, ◌+◌, ◌-◌, ◌≤◌, ◌<◌, ◌≡◌, refl, sym, ap, subst, ◌∙◌, List, [], ◌∷◌, ◌++◌, append-nil,
  append_assoc, length, length-replicate, map, Option, some, true, ltb, if◌then◌else◌, inl, inr,
  Bool-cases, arith,
}
use Prim.{tt}
use zedlibs.Prelude.Slices.{slice_empty, copy_to, length-copy_to, slice-copy_to}
use zedlibs.Logger.{
  LogBuffer, FileLogger, size, writable_bytes, write, reset, content, write_all, at_most,
  max_buffer_list_size, write_out, new_buffer, next_buffer, hand_over, write_current, log,
}
use zedlibs.Logger.Pending.{
  gathered, contents, contents-append, write_all-gathered, pending, Sized, Ready, AllSized,
  AllSized-append, AllSized-take, Ready-append, Ready-take, reset-Ready, IsValid, Carried,
}

module _ {ℓ} {A : Type ℓ} (null : A) (capacity : ℕ) where
  -- The outcome of a step that logs the text `l`.
  abbrev pub Goes : List A → FileLogger A → Option (FileLogger A) → Type ℓ
  Goes l s out = (s' : FileLogger A) × (out ≡ some s') × Carried capacity l s s'

  write_lem :
      (b : LogBuffer A) (str : List A)
      → Sized capacity b
      → length str < capacity - b.cur
      → (b' : LogBuffer A) × (write b str ≡ some b')
        × Sized capacity b'
        × (content b' ≡ content b ++ str)
  unfolding write writable_bytes size
  write_lem b str v room =
      let test : ltb (length str) (length b.data_ - b.cur) ≡ true = ground (arith, room, v.sized) in
      let same = length-copy_to str b.data_ b.cur in
      let inside : b.cur + length str ≤ length b.data_ = omega (arith, room, v.sized) in
      rw test (
        record { data_ = copy_to str b.data_ b.cur; cur = b.cur + length str },
        refl,
        record { inside = omega (arith, same, inside); sized = same ∙ v.sized },
        slice-copy_to str b.data_ 0 b.cur (omega arith) inside,
      )

  write_current_lem :
      (s : FileLogger A) (msg : List A)
      → IsValid capacity s
      → length msg < capacity - s.current_buffer.cur
      → Goes msg s (write_current null capacity s msg)
  unfolding pending
  write_current_lem s msg v room =
      let (b', returns, good, more) = write_lem s.current_buffer msg v.current room in
      rw (returns, write_current)
        (
          record s { current_buffer = b' },
          refl,
          record {
            valid = record { current = good; full = v.full; ready = v.ready; on = v.on };
            reports = omega arith;
            kept = λ _.
                ap (λ l. gathered s.file ++ contents s.full_buffers ++ l) more
                ∙ sym (
                    append_assoc (gathered s.file ++ contents s.full_buffers)
                      (content s.current_buffer) msg);
          },
        )

  new_buffer-Sized : Sized capacity (new_buffer null capacity)
  new_buffer-Sized = record { inside = omega arith; sized = length-replicate capacity null }

  -- The current buffer is among the full ones, and an empty one is in its place.
  handed :
      (l : List A) (s : FileLogger A) (b : LogBuffer A)
      → b.cur ≡ 0
      → l ++ contents (s.full_buffers ++ s.current_buffer ∷ []) ++ content b
        ≡ l ++ contents s.full_buffers ++ content s.current_buffer
  unfolding contents size
  handed l s b e =
      let buffers = contents (s.full_buffers ++ s.current_buffer ∷ []) in
      let none_yet : content b ≡ [] = slice_empty b.data_ 0 b.cur (omega (arith, e)) in
      ap (λ c. l ++ buffers ++ c) none_yet
      ∙ append-nil (l ++ buffers)
      ∙ ap (λ c. l ++ c) (contents-append s.full_buffers (s.current_buffer ∷ []))
      ∙ ap (λ c. l ++ (contents s.full_buffers ++ c)) (append-nil (content s.current_buffer))
      ∙ sym (append_assoc l (contents s.full_buffers) (content s.current_buffer))

  pub record Handed (s s' : FileLogger A) : Type ℓ where
    pub valid : IsValid capacity s'
    pub fresh : s'.current_buffer.cur ≡ 0
    pub cerr : s'.cerr ≡ s.cerr
    pub kept : pending s' ≡ pending s

  next_buffer-Ready :
      (buffers : List (LogBuffer A))
      → Ready capacity buffers
      → Sized capacity (next_buffer null capacity buffers).0
        × ((next_buffer null capacity buffers).0.cur ≡ 0)
        × Ready capacity (next_buffer null capacity buffers).1
  unfolding next_buffer Ready
  next_buffer-Ready [] r = (new_buffer-Sized, refl, tt)
  next_buffer-Ready (b ∷ rest) r = r

  pub hand_over_lem : (s : FileLogger A) → IsValid capacity s → Handed s (hand_over null capacity s)
  unfolding hand_over pending AllSized
  hand_over_lem s v =
      let (good, e, rest) = next_buffer-Ready s.empty_buffers v.ready in
      record {
        valid = record {
          current = good;
          full =
              AllSized-append capacity s.full_buffers (s.current_buffer ∷ []) v.full
                (v.current, tt);
          ready = rest;
          on = v.on;
        };
        fresh = e;
        cerr = refl;
        kept = handed (gathered s.file) s (next_buffer null capacity s.empty_buffers).0 e;
      }

  log_running :
      (s : FileLogger A) (msg : List A)
      → IsValid capacity s
      → length msg < capacity
      → Goes msg s (
          if ltb (length msg) (writable_bytes s.current_buffer)
          then write_current null capacity s msg
          else write_current null capacity (hand_over null capacity s) msg)
  unfolding writable_bytes size
  log_running s msg v short =
      let room = ltb (length msg) (length s.current_buffer.data_ - s.current_buffer.cur) in
      elim (Bool-cases room) [
        | inl enough ↦
            rw enough (write_current_lem s msg v (ground (arith, enough, v.current.sized)))
        | inr full ↦
            let h = hand_over_lem s v in
            let (s', returns, c) =
              write_current_lem (hand_over null capacity s) msg h.valid
                (omega (arith, h.fresh, short)) in
            rw full (
              s',
              returns,
              record {
                valid = c.valid;
                reports = omega (arith, c.reports, ap length h.cerr);
                kept = λ same.
                    c.kept (omega (arith, same, ap length h.cerr)) ∙ ap (λ l. l ++ msg) h.kept;
              },
            )
      ]

  pub log_lem :
      (s : FileLogger A) (msg : List A)
      → IsValid capacity s
      → length msg < capacity
      → Goes msg s (log null capacity s msg)
  unfolding log
  log_lem s msg v short =
      subst
        (λ on. Goes msg s (
          if on
          then if ltb (length msg) (writable_bytes s.current_buffer)
            then write_current null capacity s msg
            else write_current null capacity (hand_over null capacity s) msg
          else some s))
        (sym v.on) (log_running s msg v short)

  at_most-AllSized :
      (n : ℕ) (buffers : List (LogBuffer A))
      → AllSized capacity buffers
      → AllSized capacity (at_most n buffers)
  at_most-AllSized n buffers v = elim (Bool-cases (ltb n (length buffers))) [
    | inl many ↦ rw many (AllSized-take capacity 2 buffers v)
    | inr few ↦ rw few v
  ]

  at_most-Ready :
      (n : ℕ) (buffers : List (LogBuffer A))
      → Ready capacity buffers
      → Ready capacity (at_most n buffers)
  at_most-Ready n buffers v = elim (Bool-cases (ltb n (length buffers))) [
    | inl many ↦ rw many (Ready-take capacity 2 buffers v)
    | inr few ↦ rw few v
  ]

  write_out-IsValid :
      (now : ℕ → ℕ) (s : FileLogger A) → IsValid capacity s → IsValid capacity (write_out now s)
  unfolding write_out AllSized
  write_out-IsValid now s v =
      let kept = at_most max_buffer_list_size s.full_buffers in
      record {
        current = v.current;
        full = tt;
        ready = Ready-append capacity s.empty_buffers (at_most 2 (map reset kept)) v.ready (
            at_most-Ready 2 (map reset kept) (
              reset-Ready capacity kept
                (at_most-AllSized max_buffer_list_size s.full_buffers v.full)));
        on = v.on;
      }

  -- What the files, and the buffers, have got when the full buffers were written.
  write_out-pending :
      (now : ℕ → ℕ) (s : FileLogger A)
      → pending (write_out now s)
        ≡ gathered s.file
          ++ contents (at_most max_buffer_list_size s.full_buffers)
          ++ content s.current_buffer
  unfolding write_out pending contents
  write_out-pending now s =
      let kept = at_most max_buffer_list_size s.full_buffers in
      ap (λ l. l ++ content s.current_buffer)
        (append-nil (gathered (write_all now 0 s.file kept)) ∙ write_all-gathered now 0 s.file kept)

  pub write_out_lem :
      (now : ℕ → ℕ) (s : FileLogger A)
      → IsValid capacity s
      → Carried capacity [] s (write_out now s)
  unfolding write_out pending
  write_out_lem now s v =
      let many = ltb max_buffer_list_size (length s.full_buffers) in
      let good = write_out-IsValid now s v in
      let all : pending (write_out now s) ≡ _ = write_out-pending now s in
      elim (Bool-cases many) [
        | inl dropped ↦
            let more : length (write_out now s).cerr ≡ suc (length s.cerr) = rw dropped refl in
            record {
              valid = good;
              reports = omega (arith, more);
              kept = λ same. absurd (omega (arith, same, more));
            }
        | inr few ↦
            let same : (write_out now s).cerr ≡ s.cerr = rw few refl in
            record {
              valid = good;
              reports = omega (arith, ap length same);
              kept = λ _. all ∙ rw few (sym (append-nil (pending s)));
            }
      ]
