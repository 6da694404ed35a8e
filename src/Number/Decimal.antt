-- ===== src/Number/Decimal.antt =====
-- Reading back what `format_uint` writes, and what a decimal text stands for.
use mathlib.Core.List.{cons-ne-nil}
use curlu.Base.{
  replicate, length, ◌++◌, ◌-◌, All-append, sym, ◌∙◌, ℕ, zero, suc, some, [], ◌∷◌, ◌+◌, ◌*◌, ◌/◌,
  ◌%◌, ◌≤◌, ◌≡◌, ◌≢◌, refl, arith, ◌==◌, Bytes, All, Bool-cases, inl, inr,
}
use curlu.Number.Defs.{pad, digit_value, scan, parse_uint, digits, format_uint}

abbrev pub IsDecimal : ℕ → Type 0
IsDecimal c = (b'0' ≤ c) × (c ≤ b'9')

scan_last :
    (max n : ℕ) (out : Bytes)
    → n ≤ max
    → scan 10 max ((b'0' + n % 10) ∷ out) (n / 10) ≡ scan 10 max out n
unfolding scan digit_value
scan_last max n out h = ground arith

scan-digits :
    (f max n : ℕ) (out : Bytes)
    → n ≤ f
    → n ≤ max
    → scan 10 max (digits f n out) 0 ≡ scan 10 max out n
unfolding digits
scan-digits zero max n out hf hm = ground arith
scan-digits (suc f) max n out hf hm = elim (Bool-cases (n == 0)) [
  | inl e ↦ ground arith
  | inr e ↦
      ground (arith, scan-digits f max (n / 10) ((b'0' + n % 10) ∷ out), scan_last max n out hm)
]

digits-ne-nil : (f n : ℕ) (out : Bytes) → out ≢ [] → digits f n out ≢ []
unfolding digits
digits-ne-nil zero n out h = h
digits-ne-nil (suc f) n out h =
    ground (arith, digits-ne-nil f (n / 10) ((b'0' + n % 10) ∷ out) (cons-ne-nil _ _))

pub format_uint-ne-nil : (n : ℕ) → format_uint n ≢ []
unfolding format_uint
format_uint-ne-nil zero = cons-ne-nil _ _
format_uint-ne-nil (suc n) =
    let h = digits-ne-nil n (suc n / 10) ((b'0' + suc n % 10) ∷ []) (cons-ne-nil _ _) in
    unfold digits in ground (arith, h)

pub parse_uint-scan :
    (base max : ℕ) (s : Bytes) → s ≢ [] → parse_uint base max s ≡ scan base max s 0
unfolding parse_uint
parse_uint-scan base max [] h = absurd (h refl)
parse_uint-scan base max (c ∷ s) h = refl

pub parse_uint-format_uint : (max n : ℕ) → n ≤ max → parse_uint 10 max (format_uint n) ≡ some n
unfolding format_uint
parse_uint-format_uint max n h =
    rw (parse_uint-scan 10 max (format_uint n) (format_uint-ne-nil n))
      (unfold format_uint scan digit_value in ground (arith, scan-digits n max n []))

digits-All : (f n : ℕ) (out : Bytes) → All IsDecimal out → All IsDecimal (digits f n out)
unfolding digits
digits-All zero n out h = h
digits-All (suc f) n out h = ground (arith, digits-All f (n / 10) ((b'0' + n % 10) ∷ out))

pub format_uint-All : (n : ℕ) → All IsDecimal (format_uint n)
unfolding format_uint
format_uint-All n = ground (arith, digits-All n n [])

-- A number that was read is within its bound.
pub scan-le : (base max : ℕ) (s : Bytes) (n r : ℕ) → n ≤ max → scan base max s n ≡ some r → r ≤ max
unfolding scan
scan-le base max [] n r h e = ground arith
scan-le base max (c ∷ s) n r h e = ground (arith, scan-le base max s (n * base + digit_value c) r)

pub parse_uint-le : (base max : ℕ) (s : Bytes) {r : ℕ} → parse_uint base max s ≡ some r → r ≤ max
unfolding parse_uint
parse_uint-le base max [] e = cc
parse_uint-le base max (c ∷ s) {r} e = scan-le base max (c ∷ s) 0 r (omega arith) e

scan-zeros : (max n k : ℕ) (s : Bytes) → scan 10 max (replicate k b'0' ++ s) 0 ≡ scan 10 max s 0
unfolding scan digit_value
scan-zeros max n zero s = refl
scan-zeros max n (suc k) s = ground (arith, scan-zeros max n k s)

append-nil-right : (a b : Bytes) → a ++ b ≡ [] → b ≡ []
append-nil-right [] b h = h
append-nil-right (x ∷ a) b h = absurd (cc h)

-- Zeros in front do not change the number that is read.
pad-ne-nil : (width n : ℕ) → pad width n ≢ []
unfolding pad
pad-ne-nil width n h =
    format_uint-ne-nil n (append-nil-right (replicate (width - length (format_uint n)) b'0') _ h)

pub parse_uint-pad : (max width n : ℕ) → n ≤ max → parse_uint 10 max (pad width n) ≡ some n
unfolding pad
parse_uint-pad max width n h =
    parse_uint-scan 10 max (pad width n) (pad-ne-nil width n)
    ∙ scan-zeros max n (width - length (format_uint n)) (format_uint n)
    ∙ sym (parse_uint-scan 10 max (format_uint n) (format_uint-ne-nil n))
    ∙ parse_uint-format_uint max n h

replicate-All : (k : ℕ) → All IsDecimal (replicate k b'0')
replicate-All zero = tt
replicate-All (suc k) = (omega arith, replicate-All k)

pub pad-All : (width n : ℕ) → All IsDecimal (pad width n)
unfolding pad
pad-All width n =
    All-append IsDecimal _ (format_uint n) (replicate-All (width - length (format_uint n)))
      (format_uint-All n)
