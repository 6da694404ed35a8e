-- ===== src/Connect/Share.antt =====
-- internal/curlu/http3.go: how `connectQUIC` shares its time among the addresses.
use curlu.Base.{
  ℕ, suc, false, Option, some, List, ◌∷◌, ◌+◌, ◌-◌, ◌*◌, ◌/◌, ◌≤◌, ◌≡◌, refl, sym, ◌∙◌, arith,
  Bytes, length, Result, err,
}
use native.Mathlib.Nat.{le-div_iff_mul-le, div-mul-le_self, mul-suc}
use curlu.Fault.{Fault}
use curlu.Options.{Outside}
use curlu.Connect.Dial.{Attempt}
use curlu.Connect.Quic.{QuicNet, split_deadline, quic_peer_answered, quic_tried, quic_each}

-- What is left behind one share of several is enough for as large a share of the rest.
share_kept :
    (left left' r : ℕ) → left ≤ left' + left / suc (suc r) → left / suc (suc r) ≤ left' / suc r
share_kept left left' r h =
    let part = left / suc (suc r) in
    let whole : part * suc (suc r) ≤ left = div-mul-le_self left (suc (suc r)) in
    let e : part * suc (suc r) ≡ part * suc r + part = mul-suc part (suc r) in
    (le-div_iff_mul-le (omega arith)).1 (omega (arith, h, whole, e))

module _ {C : Type 0} (x : Outside) (net : QuicNet C) (deadline : ℕ) where
  -- The loop comes from one round to a later one: each attempt between them stayed silent, and ended
  -- within its budget.
  pub data Silent
      : ℕ → ℕ → Option Fault → List Bytes → ℕ → ℕ → Option Fault → List Bytes → Type 0 where
    here :
        {i now : ℕ} {last : Option Fault} {addrs : List Bytes}
        → Silent i now last addrs i now last addrs
    silent :
        {i now i' now' : ℕ} {last last' : Option Fault} {addrs' : List Bytes} (addr next : Bytes)
        (addrs : List Bytes) (e : Fault) (budget : ℕ)
        → split_deadline (some deadline) now (length (addr ∷ next ∷ addrs)) ≡ some budget
        → (net.dial_quic i addr (some budget)).outcome ≡ err e
        → (net.dial_quic i addr (some budget)).expired ≡ false
        → quic_peer_answered e ≡ false
        → net.time_behind i ≤ now + budget
        → Silent (suc i) (net.time_behind i) (some e) (next ∷ addrs) i' now' last' addrs'
        → Silent i now last (addr ∷ next ∷ addrs) i' now' last' addrs'

  -- An equal share of the time to the deadline, for each of the addresses.
  abbrev pub share : ℕ → List Bytes → ℕ
  share now addrs = (deadline - now) / length addrs

  quic_tried_on :
      (a : Attempt C) (e : Fault) (onward : Fault → Result Fault C)
      → a.outcome ≡ err e
      → a.expired ≡ false
      → quic_peer_answered e ≡ false
      → quic_tried x net a onward ≡ onward e
  quic_tried_on a e onward o alive quiet = rw (o, alive, quiet) refl

  -- Past silent attempts the loop has come to the later round, and the shares have not become smaller.
  shares_kept :
      {i now i' now' : ℕ} {last last' : Option Fault} {addrs addrs' : List Bytes}
      → Silent i now last addrs i' now' last' addrs'
      → (quic_each x net (some deadline) i now last addrs
          ≡ quic_each x net (some deadline) i' now' last' addrs')
        × (share now addrs ≤ share now' addrs')
  unfolding quic_each split_deadline
  shares_kept here = (refl, omega arith)
  shares_kept {i} {now} {now'} {addrs'}
        (silent addr next addrs e budget b o alive quiet in_time later) =
      let (same_end, more) = shares_kept later in
      let given : share now (addr ∷ next ∷ addrs) ≡ budget = cc b in
      let kept =
        share_kept (deadline - now) (deadline - net.time_behind i) (length addrs)
          (omega (arith, given, in_time)) in
      (
        quic_tried_on _ e _ (rw (sym b) at o) (rw (sym b) at alive) quiet ∙ same_end,
        omega (arith, kept, more),
      )

  -- However many addresses stayed silent, each for no longer than it was given, `connectQUIC` goes on
  -- with the next one. The budget that it gives to that attempt is no less than an equal share of the
  -- time that there was before the silent ones, and as much for each of the addresses from this one on
  -- does not go past the deadline. The loop ends with this attempt, or goes on behind it.
  pub quic_each-share :
      {i now i' now' : ℕ} {last last' : Option Fault} {addrs rest : List Bytes} {addr : Bytes}
      → Silent i now last addrs i' now' last' (addr ∷ rest)
      → (b : ℕ) × (quic_each x net (some deadline) i now last addrs
          ≡ quic_tried x net
              (net.dial_quic i' addr (some b))
              (λ e. quic_each x net (some deadline) (suc i') (net.time_behind i') (some e) rest))
        × ((deadline - now) / length addrs ≤ b)
        × (b * suc (length rest) ≤ deadline - now')
  unfolding quic_each split_deadline
  quic_each-share {now'} {rest} silence =
      let (same_end, more) = shares_kept silence in
      (
        (deadline - now') / suc (length rest),
        same_end,
        more,
        div-mul-le_self (deadline - now') (suc (length rest)),
      )
