-- ===== src/Channel/History.antt =====
-- Whole histories of a channel: every value that was accepted is in one place.
use mathlib.Core.List.{Perm, perm_middle}
use mathlib.Core.List.Perm
use zedlibs.Prelude.{
  ℕ, ◌+◌, ◌-◌, ◌^◌, ◌<◌, ◌≡◌, refl, sym, ap, ◌∙◌, subst, List, [], ◌∷◌, ◌++◌, Option, none, some,
  inl, inr, append-nil, append_assoc, ◌==◌, if◌then◌else◌, Bool-cases,
}
use zedlibs.Errors.{err}
use zedlibs.Ring.{size_t}
use zedlibs.Ring.Contents.{contents, contents-make}
use zedlibs.Channel.{
  Channel, Handle, Outcome, Suspend, resumes, send_suspend, recv_suspend, init, add_sender,
  sub_sender, add_receiver, sub_receiver, destroy,
}
use zedlibs.Channel.Invariant.{
  WellFormed, init-WellFormed, send-WellFormed, recv-WellFormed, add_sender-WellFormed,
  add_receiver-WellFormed, sub_sender-WellFormed, sub_receiver-WellFormed,
}
use zedlibs.Channel.Cases.{send_suspend-cases, recv_suspend-cases}
use zedlibs.Channel.Order.{pending, values, handed_over, taken, send-Appends, recv-perm, Appends}

-- The coroutines' calls, in the order in which they get the channel's mutex; the counts of
-- handles are atomic.
pub data Op {ℓ} (A : Type ℓ) : Type ℓ where
  sends : Handle → A → Op A
  recvs : Handle → Op A
  adds_sender subs_sender adds_receiver subs_receiver : Op A

-- A channel with what went into it, what receivers got, and what waiting senders kept when it closed.
pub record Trace {ℓ} (A : Type ℓ) : Type ℓ where
  pub channel : Channel A
  pub accepted : List A
  pub received : List A
  pub kept : List A

module _ {ℓ} {A : Type ℓ} where
  -- The value of a send goes into the channel unless the send is refused.
  abbrev pub taken_in : Suspend (Unit {0}) → A → List A
  taken_in (resumes (err _)) v = []
  taken_in _ v = v ∷ []

  -- The values of the senders that a close turns away, when `n` handles are counted before it.
  abbrev pub turned_back : ℕ → Channel A → List A
  turned_back n c = if n == 1 then (if c.is_closed then [] else values c.waiting_senders) else []

  unfoldable pub step : Trace A → Op A → Option (Trace A)
  step t (sends handle value) = elim (send_suspend t.channel handle value) [
    | none ↦ none
    | some out ↦ some (record t {
      channel = out.channel;
      accepted = t.accepted ++ taken_in out.reply value;
      received = t.received ++ handed_over out.wakes;
    })
  ]
  step t (recvs handle) = elim (recv_suspend t.channel handle) [
    | none ↦ none
    | some out ↦ some (record t { channel = out.channel; received = t.received ++ taken out.reply })
  ]
  step t adds_sender = some (record t { channel = add_sender t.channel })
  step t subs_sender = some (record t {
    channel = (sub_sender t.channel).0;
    kept = t.kept ++ turned_back t.channel.num_senders t.channel;
  })
  step t adds_receiver = some (record t { channel = add_receiver t.channel })
  step t subs_receiver = some (record t {
    channel = (sub_receiver t.channel).0;
    kept = t.kept ++ turned_back t.channel.num_receivers t.channel;
  })

  unfoldable pub run : Trace A → List (Op A) → Option (Trace A)
  run t [] = some t
  run t (op ∷ ops) = elim (step t op) [ none ↦ none | some t' ↦ run t' ops ]

  abbrev pub begin : Channel A → Trace A
  begin c = record { channel = c; accepted = []; received = []; kept = [] }

module _ {ℓ} {A : Type ℓ} where
  swap_front : (xs ys zs : List A) → Perm (xs ++ (ys ++ zs)) (ys ++ (xs ++ zs))
  swap_front [] ys zs = Perm.refl (ys ++ zs)
  swap_front (x ∷ xs) ys zs =
      Perm.trans (Perm.cons x (swap_front xs ys zs)) (Perm.symm (perm_middle ys (xs ++ zs)))

  append_comm : (xs ys : List A) → Perm (xs ++ ys) (ys ++ xs)
  append_comm xs ys =
      subst (λ l. Perm (xs ++ l) (ys ++ xs)) (append-nil ys)
        (subst (λ l. Perm (xs ++ (ys ++ [])) (ys ++ l)) (append-nil xs) (swap_front xs ys []))

  -- What leaves the channel goes to the receivers, or back to the senders.
  to_received :
      {a : List A} (r d h p q : List A)
      → Perm a (r ++ (d ++ p))
      → Perm p (h ++ q)
      → Perm a ((r ++ h) ++ (d ++ q))
  to_received r d h p q before moved = rw append_assoc (
      Perm.trans before
        (Perm.append_left r (Perm.trans (Perm.append_left d moved) (swap_front d h q))))

  to_kept :
      {a : List A} (r d h p q : List A)
      → Perm a (r ++ (d ++ p))
      → Perm p (h ++ q)
      → Perm a (r ++ ((d ++ h) ++ q))
  to_kept r d h p q before moved =
      rw (append_assoc d h q) (Perm.trans before (Perm.append_left r (Perm.append_left d moved)))

  -- A value that comes in stands last.
  come_in :
      {a : List A} (r d p v : List A)
      → Perm a (r ++ (d ++ p))
      → Perm (a ++ v) (r ++ (d ++ (p ++ v)))
  come_in {a} r d p v before =
      subst (Perm (a ++ v)) (append_assoc r (d ++ p) v ∙ ap (◌++◌ r) (append_assoc d p v))
        (Perm.append_right v before)

pub record Balanced {ℓ} {A : Type ℓ} (t : Trace A) : Type ℓ where
  pub well_formed : WellFormed t.channel
  pub accounted : Perm t.accepted (t.received ++ (t.kept ++ pending t.channel))

module _ {ℓ} {A : Type ℓ} where
  -- What goes in joins the values in the channel, and what a receiver is handed leaves them.
  send_moves :
      (c : Channel A) (value : A) (out : Outcome (Unit {0}) A)
      → Appends c value out
      → handed_over out.wakes ++ pending out.channel ≡ pending c ++ taken_in out.reply value
  send_moves c value out (inl (inl e, moved)) =
      moved ∙ ap (λ r. pending c ++ taken_in r value) (sym e)
  send_moves c value out (inl (inr e, moved)) =
      moved ∙ ap (λ r. pending c ++ taken_in r value) (sym e)
  send_moves c value out (inr (_, e)) = rw e (sym (append-nil (pending c)))

  sub_moves :
      (n : ℕ) (c : Channel A)
      → Perm (pending c) (turned_back n c ++ pending (if n == 1 then destroy c else (c, [])).0)
  unfolding destroy
  sub_moves n c = elim (Bool-cases (n == 1)) [
    | inr more ↦ rw more (Perm.refl _)
    | inl last ↦ rw last (elim (Bool-cases c.is_closed) [
      | inl shut ↦ rw (shut, destroy) (Perm.refl _)
      | inr live ↦
          rw (live, destroy)
            (rw (append-nil (contents c.buf))
              (append_comm (contents c.buf) (values c.waiting_senders)))
    ])
  ]

  step-Balanced :
      (t : Trace A) (op : Op A) → Balanced t → (t' : Trace A) × (step t op ≡ some t') × Balanced t'
  unfolding step
  step-Balanced t (sends handle value) b =
      let (out, e, branch) = send_suspend-cases t.channel handle value in
      (
        _,
        rw (e, step) refl,
        record {
          well_formed = send-WellFormed branch b.well_formed;
          accounted =
              to_received t.received t.kept (handed_over out.wakes)
                (pending t.channel ++ taken_in out.reply value) (pending out.channel)
                (come_in t.received t.kept (pending t.channel) (taken_in out.reply value)
                  b.accounted)
                (rw (send_moves t.channel value out (send-Appends branch b.well_formed))
                  (Perm.refl _));
        },
      )
  step-Balanced t (recvs handle) b =
      let (out, e, branch) = recv_suspend-cases t.channel handle b.well_formed.valid in
      (
        _,
        rw (e, step) refl,
        record {
          well_formed = recv-WellFormed branch b.well_formed;
          accounted =
              to_received t.received t.kept (taken out.reply) (pending t.channel)
                (pending out.channel) b.accounted (recv-perm branch b.well_formed);
        },
      )
  step-Balanced t adds_sender b = (
    _,
    refl,
    record {
      well_formed = add_sender-WellFormed t.channel b.well_formed;
      accounted = unfold add_sender in b.accounted;
    },
  )
  step-Balanced t subs_sender b =
      let c = t.channel in
      let less : Channel A = record c { num_senders = size_t (c.num_senders + 2 ^ 64 - 1) } in
      (
        _,
        refl,
        record {
          well_formed = sub_sender-WellFormed c b.well_formed;
          accounted =
              to_kept t.received t.kept (turned_back c.num_senders c) (pending c)
                (pending (sub_sender c).0) b.accounted
                (unfold sub_sender in sub_moves c.num_senders less);
        },
      )
  step-Balanced t adds_receiver b = (
    _,
    refl,
    record {
      well_formed = add_receiver-WellFormed t.channel b.well_formed;
      accounted = unfold add_receiver in b.accounted;
    },
  )
  step-Balanced t subs_receiver b =
      let c = t.channel in
      let less : Channel A = record c { num_receivers = size_t (c.num_receivers + 2 ^ 64 - 1) } in
      (
        _,
        refl,
        record {
          well_formed = sub_receiver-WellFormed c b.well_formed;
          accounted =
              to_kept t.received t.kept (turned_back c.num_receivers c) (pending c)
                (pending (sub_receiver c).0) b.accounted
                (unfold sub_receiver in sub_moves c.num_receivers less);
        },
      )

  run-Balanced :
      (t : Trace A) (ops : List (Op A))
      → Balanced t
      → (t' : Trace A) × (run t ops ≡ some t') × Balanced t'
  unfolding run
  run-Balanced t [] b = (t, refl, b)
  run-Balanced t (op ∷ ops) b =
      let (t1, e, b1) = step-Balanced t op b in
      let (t2, e2, b2) = run-Balanced t1 ops b1 in (t2, rw (e, run) e2, b2)

  -- From a new channel every sequence of calls runs without a failed assertion. After it the values that were accepted
  -- are, as often, those that receivers got, those that waiting senders kept when the channel
  -- closed, and those that are still in the channel.
  pub run_accounts :
      (default : A) (senders receivers cap : ℕ) (ops : List (Op A))
      → cap < 2 ^ 63
      → (t : Trace A) × (run (begin (init default senders receivers cap)) ops ≡ some t)
        × Perm t.accepted (t.received ++ (t.kept ++ pending t.channel))
  run_accounts default senders receivers cap ops h =
      let fresh : Channel A = init default senders receivers cap in
      let (t, e, b) = run-Balanced (begin fresh) ops (record {
        well_formed = init-WellFormed default senders receivers cap h;
        accounted = unfold init in rw (contents-make default cap) (Perm.refl []);
      }) in
      (t, e, b.accounted)
