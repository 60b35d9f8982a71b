-- ===== src/Logger/Pending.antt =====
-- FileLogger: the texts that were logged reach the files in order, as long as nothing is dropped.
use zedlibs.Prelude.{
  ℕ, zero, suc, ◌+◌, ◌≤◌, ◌<◌, ◌≡◌, refl, sym, ap, ◌∙◌, List, [], ◌∷◌, ◌++◌, append-nil,
  append_assoc, length, take, map, true, ltb, inl, inr, Bool-cases, arith,
}
use Prim.{tt}
use zedlibs.Logger.{
  LogBuffer, LogFile, FileLogger, Step, logs, hands_over, writes_out, reset, content, roll,
  write_file, write_all,
}

module _ {ℓ} {A : Type ℓ} where
  unfoldable pub joined : List (List A) → List A
  joined [] = []
  joined (l ∷ older) = joined older ++ l

  -- What stands in the files, the oldest first.
  abbrev pub gathered : LogFile A → List A
  gathered f = joined f.closed ++ f.ofs

  unfoldable pub contents : List (LogBuffer A) → List A
  contents [] = []
  contents (b ∷ buffers) = content b ++ contents buffers

  pub contents-append :
      (buffers others : List (LogBuffer A))
      → contents (buffers ++ others) ≡ contents buffers ++ contents others
  unfolding contents
  contents-append [] others = refl
  contents-append (b ∷ buffers) others =
      ap (λ l. content b ++ l) (contents-append buffers others)
      ∙ sym (append_assoc (content b) (contents buffers) (contents others))

  write_file-gathered :
      (now : ℕ) (f : LogFile A) (l : List A) → gathered (write_file now f l) ≡ gathered f ++ l
  unfolding write_file roll joined
  write_file-gathered now f l =
      let there : joined f.closed ++ (f.ofs ++ l) ≡ gathered f ++ l =
        sym (append_assoc (joined f.closed) f.ofs l) in
      elim (Bool-cases (ltb f.max_file_size (f.cur_file_size + length l))) [
        | inr below ↦ rw below there
        | inl above ↦ elim (Bool-cases (ltb f.last_roll_second now)) [
          | inr same ↦ rw (above, same) there
          | inl later ↦ rw (above, later) (append-nil (joined f.closed ++ (f.ofs ++ l)) ∙ there)
        ]
      ]

  pub write_all-gathered :
      (now : ℕ → ℕ) (n : ℕ) (f : LogFile A) (buffers : List (LogBuffer A))
      → gathered (write_all now n f buffers) ≡ gathered f ++ contents buffers
  unfolding write_all contents
  write_all-gathered now n f [] = sym (append-nil (gathered f))
  write_all-gathered now n f (b ∷ buffers) =
      write_all-gathered now (suc n) (write_file (now n) f (content b)) buffers
      ∙ ap (λ l. l ++ contents buffers) (write_file-gathered (now n) f (content b))
      ∙ append_assoc (gathered f) (content b) (contents buffers)

  -- What was logged: what stands in the files, in the full buffers and in the current one.
  unfoldable pub pending : FileLogger A → List A
  pending s = gathered s.file ++ contents s.full_buffers ++ content s.current_buffer

  unfoldable pub messages : List (Step A) → List A
  messages [] = []
  messages (logs msg ∷ steps) = msg ++ messages steps
  messages (hands_over ∷ steps) = messages steps
  messages (writes_out now ∷ steps) = messages steps

  -- Where every text is shorter than a buffer.
  unfoldable pub Short : ℕ → List (Step A) → Type 0
  Short capacity [] = Unit
  Short capacity (logs msg ∷ steps) = (length msg < capacity) × Short capacity steps
  Short capacity (hands_over ∷ steps) = Short capacity steps
  Short capacity (writes_out now ∷ steps) = Short capacity steps

  -- A buffer of the template's size.
  pub record Sized (capacity : ℕ) (b : LogBuffer A) : Type ℓ where
    pub inside : b.cur ≤ length b.data_
    pub sized : length b.data_ ≡ capacity

  -- Buffers that are there to be filled.
  unfoldable pub Ready : ℕ → List (LogBuffer A) → Type ℓ
  Ready capacity [] = Unit
  Ready capacity (b ∷ buffers) = Sized capacity b × (b.cur ≡ 0) × Ready capacity buffers

  unfoldable pub AllSized : ℕ → List (LogBuffer A) → Type ℓ
  AllSized capacity [] = Unit
  AllSized capacity (b ∷ buffers) = Sized capacity b × AllSized capacity buffers

  pub AllSized-append :
      (capacity : ℕ) (buffers others : List (LogBuffer A))
      → AllSized capacity buffers
      → AllSized capacity others
      → AllSized capacity (buffers ++ others)
  unfolding AllSized
  AllSized-append capacity [] others v w = w
  AllSized-append capacity (b ∷ buffers) others v w =
      (v.0, AllSized-append capacity buffers others v.1 w)

  pub Ready-append :
      (capacity : ℕ) (buffers others : List (LogBuffer A))
      → Ready capacity buffers
      → Ready capacity others
      → Ready capacity (buffers ++ others)
  unfolding Ready
  Ready-append capacity [] others v w = w
  Ready-append capacity (b ∷ buffers) others v w =
      (v.0, v.1, Ready-append capacity buffers others v.2 w)

  pub AllSized-take :
      (capacity n : ℕ) (buffers : List (LogBuffer A))
      → AllSized capacity buffers
      → AllSized capacity (take n buffers)
  unfolding AllSized
  AllSized-take capacity zero buffers v = tt
  AllSized-take capacity (suc n) [] v = tt
  AllSized-take capacity (suc n) (b ∷ buffers) v = (v.0, AllSized-take capacity n buffers v.1)

  pub Ready-take :
      (capacity n : ℕ) (buffers : List (LogBuffer A))
      → Ready capacity buffers
      → Ready capacity (take n buffers)
  unfolding Ready
  Ready-take capacity zero buffers v = tt
  Ready-take capacity (suc n) [] v = tt
  Ready-take capacity (suc n) (b ∷ buffers) v = (v.0, v.1, Ready-take capacity n buffers v.2)

  pub reset-Ready :
      (capacity : ℕ) (buffers : List (LogBuffer A))
      → AllSized capacity buffers
      → Ready capacity (map reset buffers)
  unfolding AllSized Ready reset
  reset-Ready capacity [] v = tt
  reset-Ready capacity (b ∷ buffers) v =
      (record { inside = omega arith; sized = v.0.sized }, refl, reset-Ready capacity buffers v.1)

  pub record IsValid (capacity : ℕ) (s : FileLogger A) : Type ℓ where
    pub current : Sized capacity s.current_buffer
    pub full : AllSized capacity s.full_buffers
    pub ready : Ready capacity s.empty_buffers
    pub on : s.running ≡ true

  -- From `s` to `s'` the texts `l` were logged, if nothing was reported as dropped.
  pub record Carried (capacity : ℕ) (l : List A) (s s' : FileLogger A) : Type ℓ where
    pub valid : IsValid capacity s'
    pub reports : length s.cerr ≤ length s'.cerr
    pub kept : length s'.cerr ≡ length s.cerr → pending s' ≡ pending s ++ l
