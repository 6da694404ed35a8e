-- ===== src/Hello/Grease.antt =====
-- internal/curlu/utls.go: GREASE values among cipher suites.
use curlu.Base.{
  ℕ, true, List, [], ◌∷◌, ◌+◌, ◌*◌, ◌/◌, ◌%◌, ◌<◌, ◌≡◌, ◌↔◌, arith, Bool-cases, inl, inr, All, suc,
}
use curlu.Hello.Defs.{is_grease, count_non_grease}

-- The sixteen values 0x0a0a, 0x1a1a to 0xfafa.
abbrev pub IsGrease : ℕ → Type 0
IsGrease value = (k : ℕ) × (k < 16) × (value ≡ 2570 + 4112 * k)

grease_test :
    (value : ℕ)
    → is_grease value ≡ true
    → (value / 256 % 256 ≡ value % 256) × (value % 256 % 16 ≡ 10)
unfolding is_grease
grease_test value h = ground arith

grease_value : (k value : ℕ) → k < 16 → value ≡ 2570 + 4112 * k → is_grease value ≡ true
unfolding is_grease
grease_value k value below e =
    let high : value / 256 % 256 ≡ 10 + 16 * k = omega (arith, e, below) in
    let low : value % 256 ≡ 10 + 16 * k = omega (arith, e, below) in
    let digit : value % 256 % 16 ≡ 10 = omega (arith, low) in ground (arith, high, low, digit)

-- `isGREASE` holds for a 16-bit value exactly if it is 0x0a0a plus a multiple, below sixteen, of 0x1010.
is_grease_iff : (value : ℕ) → value < 65536 → (is_grease value ≡ true) ↔ IsGrease value
is_grease_iff value small = (
  λ h.
      let (a, b) = grease_test value h in
      (value % 256 / 16, omega (arith, a, b), omega (arith, a, b, small)),
  λ (k, below, e). grease_value k value below e,
)

-- The number of the suites that are no GREASE value.
pub data Counted : List ℕ → ℕ → Type 0 where
  nothing : Counted [] 0
  grease : {c n : ℕ} {cs : List ℕ} → IsGrease c → Counted cs n → Counted (c ∷ cs) n
  suite : {c n : ℕ} {cs : List ℕ} → ¬ IsGrease c → Counted cs n → Counted (c ∷ cs) (suc n)

pub count_non_grease-Counted :
    (cs : List ℕ) → All (λ c. c < 65536) cs → Counted cs (count_non_grease cs)
unfolding count_non_grease
count_non_grease-Counted [] small = nothing
count_non_grease-Counted (c ∷ cs) (small, rest) =
    let tail = count_non_grease-Counted cs rest in
    elim (Bool-cases (is_grease c)) [
      | inl e ↦ rw e (grease ((is_grease_iff c small).0 e) tail)
      | inr e ↦ rw e (suite (λ g. absurd (cc (e, (is_grease_iff c small).1 g))) tail)
    ]

-- The same suites, but that a GREASE value may have become another one.
pub data Alike : List ℕ → List ℕ → Type 0 where
  nothing_alike : Alike [] []
  kept : {cs ds : List ℕ} (c : ℕ) → Alike cs ds → Alike (c ∷ cs) (c ∷ ds)
  regreased :
      {c d : ℕ} {cs ds : List ℕ} → IsGrease c → IsGrease d → Alike cs ds → Alike (c ∷ cs) (d ∷ ds)

pub Alike-small : {cs ds : List ℕ} → Alike cs ds → All (λ c. c < 65536) cs → All (λ c. c < 65536) ds
Alike-small nothing_alike small = small
Alike-small (kept c alike) (small, rest) = (small, Alike-small alike rest)
Alike-small (regreased _ (k, below, e) alike) (_, rest) =
    (omega (arith, below, e), Alike-small alike rest)
