-- ===== src/Queue/Local.antt =====
-- The class LocalQueue. `head_` packs two positions: the tasks from `steal` up to `real` are being
-- stolen, those from `real` up to `tail_` wait. Positions are 32-bit counters that wrap around.
use zedlibs.Prelude.{
  ℕ, zero, suc, ◌+◌, ◌-◌, ◌*◌, ◌/◌, ◌%◌, ◌^◌, List, [], ◌∷◌, ◌++◌, Option, none, some, Bool, true,
  false, not, ◌&&◌, ◌==◌, leb, ltb, if◌then◌else◌,
}
use zedlibs.Queue.Global.{GlobalQueue}
use zedlibs.Queue.Global

pub record LocalQueue {ℓ} (A : Type ℓ) : Type ℓ where
  pub head : ℕ
  pub tail : ℕ
  pub buffer : ℕ → A

-- Addition and subtraction on `uint32_t`
abbrev pub plus32 : ℕ → ℕ → ℕ
plus32 a b = (a + b) % 2 ^ 32

abbrev pub minus32 : ℕ → ℕ → ℕ
minus32 a b = if ltb a b then a + 2 ^ 32 - b else a - b

-- `LOCAL_QUEUE_CAPACITY`, and a position `& MASK`
abbrev pub capacity : ℕ
capacity = 256

abbrev pub masked : ℕ → ℕ
masked position = position % capacity

-- The two halves of a packed head.
unfoldable pub unpack : ℕ → ℕ × ℕ
unpack head = (head / 2 ^ 32 % 2 ^ 32, head % 2 ^ 32)

unfoldable pub pack : ℕ → ℕ → ℕ
pack steal real = steal * 2 ^ 32 + real

abbrev pub write {ℓ} : {A : Type ℓ} → (ℕ → A) → ℕ → A → ℕ → A
write f i a j = if j == i then a else f j

-- What `push_overflow` returns, and the two queues after it.
pub record Overflow {ℓ} (A : Type ℓ) : Type ℓ where
  pub pushed : Bool
  pub local : LocalQueue A
  pub global : GlobalQueue A

module _ {ℓ} {A : Type ℓ} where
  unfoldable pub make : A → LocalQueue A
  make null = record { head = 0; tail = 0; buffer = λ _. null }

  -- `none` is the failed assertion.
  unfoldable pub remaining_slots : LocalQueue A → Option ℕ
  remaining_slots q =
      let steal : ℕ = (unpack q.head).0 in
      if leb (minus32 q.tail steal) capacity then some (capacity - minus32 q.tail steal) else none

  unfoldable pub size : LocalQueue A → ℕ
  size q = minus32 q.tail (unpack q.head).1

  unfoldable pub empty : LocalQueue A → Bool
  empty q = size q == 0

  -- `for (auto &&task : tasks)` in `push_batch`, with the tail in a local variable.
  unfoldable pub put_all : List A → (ℕ → A) → ℕ → (ℕ → A) × ℕ
  put_all [] buffer tail = (buffer, tail)
  put_all (task ∷ tasks) buffer tail =
      put_all tasks (write buffer (masked tail) task) (plus32 tail 1)

  -- `none` is the failed assertion or the exception.
  unfoldable pub push_batch : LocalQueue A → List A → ℕ → Option (LocalQueue A)
  push_batch q tasks len =
      let steal : ℕ = (unpack q.head).0 in
      let (buffer, tail) = put_all tasks q.buffer q.tail in
      if not (ltb 0 len && leb len capacity)
      then none
      else if ltb (capacity - len) (minus32 q.tail steal)
      then none
      else some (record q { buffer = buffer; tail = tail })

  -- `for (uint32_t i = 0; i < n; ++i) tasks.push_back(buffer_[(head + i) & MASK]);`, from `i` on.
  unfoldable pub collect : (ℕ → A) → ℕ → ℕ → ℕ → List A
  collect buffer head i zero = []
  collect buffer head i (suc n) = buffer (masked (plus32 head i)) ∷ collect buffer head (suc i) n

  -- `none` is the failed assertion. `compare_exchange_weak` finds the head as it is.
  unfoldable pub push_overflow : LocalQueue A → A → ℕ → ℕ → GlobalQueue A → Option (Overflow A)
  push_overflow q task head tail global =
      let next : ℕ = plus32 head 128 in
      if not (minus32 tail head == capacity)
      then none
      else some (
          if q.head == pack head head
          then record {
            pushed = true;
            local = record q { head = pack next next };
            global = Global.push_batch global (collect q.buffer head 0 128 ++ task ∷ []) 129;
          }
          else record { pushed = false; local = q; global = global })

  -- Rounds of `while (true)`; `none` is a failed assertion or that no round is left.
  unfoldable pub push_back_or_overflow :
      ℕ → LocalQueue A → A → GlobalQueue A → Option (LocalQueue A × GlobalQueue A)
  push_back_or_overflow zero q task global = none
  push_back_or_overflow (suc rounds) q task global =
      let (steal, real) = unpack q.head in
      let again = push_back_or_overflow rounds q task global in
      if ltb (minus32 q.tail steal) capacity
      then some (
        record q { buffer = write q.buffer (masked q.tail) task; tail = plus32 q.tail 1 },
        global,
      )
      else if not (steal == real)
      then some (q, Global.push global task)
      else elim (push_overflow q task real q.tail global) [
        | none ↦ none
        | some over ↦ if over.pushed then some (over.local, over.global) else again
      ]

  -- `compare_exchange_weak` finds the head as it was loaded.
  unfoldable pub pop : LocalQueue A → LocalQueue A × Option A
  pop q =
      let (steal, real) = unpack q.head in
      let next_real : ℕ = plus32 real 1 in
      if real == q.tail then (q, none) else (
        record q {
          head = if steal == real then pack next_real next_real else pack steal next_real;
        },
        some (q.buffer (masked real)),
      )

  -- The loop that moves `n` tasks from position `first` to position `tail` of the other buffer, from
  -- `i` on.
  unfoldable pub copy : (ℕ → A) → (ℕ → A) → ℕ → ℕ → ℕ → ℕ → ℕ → A
  copy src dst first tail i zero = dst
  copy src dst first tail i (suc n) =
      copy src (write dst (masked (plus32 tail i)) (src (masked (plus32 first i)))) first tail
        (suc i) n

  -- The number of tasks that a thief takes, and the head that marks them; `none` where it takes none.
  -- `n` is between 1 and 2^31, so the asserted `src_steal != next_src_real` holds.
  unfoldable pub reserve : LocalQueue A → Option (ℕ × ℕ)
  reserve src =
      let (steal, real) = unpack src.head in
      let size : ℕ = minus32 src.tail real in
      let n : ℕ = size - size / 2 in
      if not (steal == real)
      then none
      else if n == 0
      then none
      else some (n, pack steal (plus32 real n))

  -- The thief is done: the tasks up to `real` are free.
  unfoldable pub release : LocalQueue A → LocalQueue A
  release src = record src { head = pack (unpack src.head).1 (unpack src.head).1 }

  -- The source afterwards, the other buffer, and the number of tasks.
  unfoldable pub steal_into2 : LocalQueue A → LocalQueue A → ℕ → LocalQueue A × LocalQueue A × ℕ
  steal_into2 src dst dst_tail = elim (reserve src) [
    | none ↦ (src, dst, 0)
    | some (n, head) ↦ (
      release (record src { head = head }),
      record dst { buffer = copy src.buffer dst.buffer (unpack head).0 dst_tail 0 n },
      n,
    )
  ]

  -- The source and the destination afterwards, and the task that the thief runs.
  unfoldable pub steal_into : LocalQueue A → LocalQueue A → LocalQueue A × LocalQueue A × Option A
  steal_into src dst =
      let steal : ℕ = (unpack dst.head).0 in
      let (src', dst', n) = steal_into2 src dst dst.tail in
      let new_tail : ℕ = plus32 dst.tail (n - 1) in
      if ltb 128 (minus32 dst.tail steal)
      then (src, dst, none)
      else if n == 0
      then (src', dst', none)
      else (
        src',
        record dst' { tail = if ltb 0 (n - 1) then new_tail else dst'.tail },
        some (dst'.buffer (masked new_tail)),
      )
