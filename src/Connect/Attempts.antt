-- ===== src/Connect/Attempts.antt =====
-- Attempts to connect, one after another: the first that answers.
use curlu.Base.{
  ℕ, suc, false, List, [], ◌∷◌, ◌++◌, ◌+◌, ◌≡◌, ◌≢◌, ◌⊎◌, inl, inr, refl, ap, ◌∙◌, arith, Bytes,
  length, Result, ok, err, Bool-cases, Result-cases,
}
use curlu.Fault.{Fault}
use curlu.Connect.Dial.{Attempt, tried}

module _ {C : Type 0} where
  -- An attempt that failed, with the context alive behind it.
  abbrev pub Failed : Attempt C → Type 0
  Failed a = (e : Fault) × (a.outcome ≡ err e) × (a.expired ≡ false)

  abbrev pub AllFailed : (ℕ → Bytes → Attempt C) → ℕ → List Bytes → Type 0
  AllFailed attempt i [] = Unit
  AllFailed attempt i (addr ∷ addrs) = Failed (attempt i addr) × AllFailed attempt (suc i) addrs

  -- The first address that answers: from the attempt `i` on those before it failed.
  pub record Reached (attempt : ℕ → Bytes → Attempt C) (i : ℕ) (addrs : List Bytes) (conn : C)
      : Type 0 where
    pub front : List Bytes
    pub addr : Bytes
    pub back : List Bytes
    pub whole : addrs ≡ front ++ addr ∷ back
    pub failed : AllFailed attempt i front
    pub answers : (attempt (i + length front) addr).outcome ≡ ok conn

  pub tried-ok :
      (a : Attempt C) (onward : Fault → Result Fault C) {conn : C}
      → tried a onward ≡ ok conn
      → (a.outcome ≡ ok conn) ⊎ (Failed a × ((e : Fault) × (onward e ≡ ok conn)))
  tried-ok a onward {conn} h = elim (Result-cases a.outcome) [
    | inl (c, e) ↦ inl (e ∙ rw e at h)
    | inr (f, e) ↦ elim (Bool-cases a.expired) [
      | inl b ↦ absurd (let h' = rw (e, b) at h in cc h')
      | inr b ↦ inr ((f, e, b), (f, rw (e, b) at h))
    ]
  ]

  pub tried_answers :
      (a : Attempt C) (onward : Fault → Result Fault C) {conn : C}
      → a.outcome ≡ ok conn
      → tried a onward ≡ ok conn
  tried_answers a onward e = rw e refl

  pub tried_onward :
      (a : Attempt C) (onward : Fault → Result Fault C) {conn : C}
      → Failed a
      → ((e : Fault) → onward e ≡ ok conn)
      → tried a onward ≡ ok conn
  tried_onward a onward (e, k, b) h = rw (k, b) (h e)

  module _ (attempt : ℕ → Bytes → Attempt C) where
    pub Reached-first :
        (i : ℕ) (addr : Bytes) (addrs : List Bytes) {conn : C}
        → (attempt i addr).outcome ≡ ok conn
        → Reached attempt i (addr ∷ addrs) conn
    Reached-first i addr addrs h = record {
      front = [];
      addr = addr;
      back = addrs;
      whole = refl;
      failed = tt;
      answers = let z : i + 0 ≡ i = omega arith in rw z h;
    }

    pub Reached-later :
        (i : ℕ) (addr : Bytes) (addrs : List Bytes) {conn : C}
        → Failed (attempt i addr)
        → Reached attempt (suc i) addrs conn
        → Reached attempt i (addr ∷ addrs) conn
    Reached-later i addr addrs f r = record {
      front = addr ∷ r.front;
      addr = r.addr;
      back = r.back;
      whole = ap (◌∷◌ addr) r.whole;
      failed = (f, r.failed);
      answers =
          let z : i + suc (length r.front) ≡ suc i + length r.front = omega arith in rw z r.answers;
    }

    pub Reached-cases :
        (i : ℕ) (addr : Bytes) (addrs front back : List Bytes) (at : Bytes) {conn : C}
        → addr ∷ addrs ≡ front ++ at ∷ back
        → AllFailed attempt i front
        → (attempt (i + length front) at).outcome ≡ ok conn
        → ((attempt i addr).outcome ≡ ok conn)
          ⊎ (Failed (attempt i addr) × Reached attempt (suc i) addrs conn)
    Reached-cases i addr addrs [] back at w f h =
        let z : i + 0 ≡ i = omega arith in
        let same_addr : addr ≡ at = cc w in inl (rw same_addr (rw z at h))
    Reached-cases i addr addrs (a ∷ front) back at w (f, fs) h =
        let z : i + suc (length front) ≡ suc i + length front = omega arith in
        let same_addr : addr ≡ a = cc w in
        inr (
          rw same_addr f,
          record {
            front = front;
            addr = at;
            back = back;
            whole = cc w;
            failed = fs;
            answers = rw z at h;
          },
        )

    no_addr : (front : List Bytes) (a : Bytes) (back : List Bytes) → [] ≢ front ++ a ∷ back
    no_addr [] a back h = cc h
    no_addr (_ ∷ _) a back h = cc h

    pub Reached-none : (i : ℕ) {conn : C} → Reached attempt i [] conn → ⊥
    Reached-none i r = no_addr r.front r.addr r.back r.whole
