-- ===== src/Fingerprint/Print.antt =====
-- `String` against `parseJA4T`.
use mathlib.Core.List.{cons-ne-nil}
use mathlib.Core.Path.{subst}
use native.Mathlib.Decide.{ℕ_discrete}
use curlu.Base.{
  ℕ, false, List, [], ◌∷◌, map, ◌≤◌, ◌<◌, ◌≡◌, ◌≢◌, ◌⊎◌, inl, inr, refl, ap, ◌∙◌, arith, ◌==◌,
  if◌then◌else◌, Bytes, codes, same, same_iff, All, All-append, All-of_imp, ok, or_err, >>=-eq-ok,
  or_err-eq-ok, Bool-cases, some,
}
use curlu.Text.{Lacks, split, join, split-join, split-append, split-Lacks}
use curlu.Number.{parse_uint, max_u8, max_u16, format_uint, pad}
use curlu.Number.Decimal.{
  IsDecimal, format_uint-All, parse_uint-format_uint, parse_uint-le, format_uint-ne-nil,
  parse_uint-pad, pad-All,
}
use curlu.Fingerprint.Defs.{
  Fingerprint, bad_window, parse_each, parse_kinds, parse_section, parse_parts, four_parts, checked,
  parse_ja4t, print_kinds, print, validate,
}
use curlu.Fingerprint.Valid.{IsSupported, IsValid, validate_iff}

-- The fields hold in the words of the source: `uint16`, `uint16` and `uint8`.
pub record IsSized (fp : Fingerprint) : Type 0 where
  pub window_fits : fp.window ≤ max_u16
  pub mss_fits : fp.mss ≤ max_u16
  pub scale_fits : fp.scale ≤ max_u8

decimal-Lacks : (sep : ℕ) (s : Bytes) → sep < b'0' ⊎ (b'9' < sep) → All IsDecimal s → Lacks sep s
decimal-Lacks sep s h = All-of_imp IsDecimal (λ c. c ≢ sep) (λ c d. omega arith) s

join-Lacks : (b sep : ℕ) (ps : List Bytes) → sep ≢ b → All (Lacks b) ps → Lacks b (join sep ps)
unfolding join
join-Lacks b sep [] ne _ = tt
join-Lacks b sep (p ∷ []) ne (h, _) = h
join-Lacks b sep (p ∷ q ∷ ps) ne (h, hs) =
    All-append _ p (sep ∷ join sep (q ∷ ps)) h (ne, join-Lacks b sep (q ∷ ps) ne hs)

formatted-Lacks : (b : ℕ) (ns : List ℕ) → b < b'0' ⊎ (b'9' < b) → All (Lacks b) (map format_uint ns)
formatted-Lacks b [] h = tt
formatted-Lacks b (n ∷ ns) h =
    (decimal-Lacks b (format_uint n) h (format_uint-All n), formatted-Lacks b ns h)

parse_each-format :
    (kinds : List ℕ) → All IsSupported kinds → parse_each (map format_uint kinds) ≡ ok kinds
unfolding parse_each
parse_each-format [] _ = refl
parse_each-format (kind ∷ kinds) (k, h) =
    rw (parse_uint-format_uint max_u8 kind (omega arith), parse_each-format kinds h)

-- A text that reads as another number than 0 is not "00".
not-zeros :
    (max n : ℕ) (s : Bytes) → n ≢ 0 → parse_uint 10 max s ≡ some n → same s (codes "00") ≡ false
not-zeros max n s ne h = elim (Bool-cases (same s (codes "00"))) [
  | inl e ↦ let e' = (same_iff s (codes "00")).0 e in absurd (unfold parse_uint in ground arith)
  | inr e ↦ e
]

parse_section-print :
    (max n : ℕ) (s : Bytes)
    → parse_uint 10 max s ≡ some n
    → parse_section (if n == 0 then codes "00" else s) max ≡ ok n
unfolding parse_section
parse_section-print max n s h = elim (ℕ_discrete n 0) [
  | yes z ↦ rw z (unfold same in refl)
  | no ne ↦ ground (arith, not-zeros max n s ne h)
]

format_uint-ne-zeros : (n : ℕ) → format_uint n ≢ codes "00"
format_uint-ne-zeros n h =
    let back = parse_uint-format_uint n n (omega arith) in
    absurd (unfold parse_uint format_uint in ground arith)

split-print_kinds :
    (kind : ℕ) (kinds : List ℕ)
    → split b'-' (print_kinds (kind ∷ kinds)) ≡ map format_uint (kind ∷ kinds)
split-print_kinds kind kinds =
    split-join b'-' (map format_uint (kind ∷ kinds)) (cons-ne-nil _ _)
      (formatted-Lacks b'-' (kind ∷ kinds) (inl (omega arith)))

print_kinds-ne-zeros :
    (kind : ℕ) (kinds : List ℕ) → same (print_kinds (kind ∷ kinds)) (codes "00") ≡ false
print_kinds-ne-zeros kind kinds =
    elim (Bool-cases (same (print_kinds (kind ∷ kinds)) (codes "00"))) [
      | inl e ↦
          let e' = (same_iff (print_kinds (kind ∷ kinds)) (codes "00")).0 e in
          absurd (
            format_uint-ne-zeros kind
              (unfold split in ground (arith, split-print_kinds kind kinds)))
      | inr e ↦ e
    ]

print_kinds-ne-nil : (kind : ℕ) (kinds : List ℕ) → same (print_kinds (kind ∷ kinds)) [] ≡ false
print_kinds-ne-nil kind kinds = elim (Bool-cases (same (print_kinds (kind ∷ kinds)) [])) [
  | inl e ↦
      let e' = (same_iff (print_kinds (kind ∷ kinds)) []).0 e in
      absurd
        (format_uint-ne-nil kind (unfold split in ground (arith, split-print_kinds kind kinds)))
  | inr e ↦ e
]

parse_kinds-print :
    (kinds : List ℕ) → All IsSupported kinds → parse_kinds (print_kinds kinds) ≡ ok kinds
unfolding parse_kinds
parse_kinds-print [] _ = unfold same in refl
parse_kinds-print (kind ∷ kinds) h = ground (
  arith,
  print_kinds-ne-zeros kind kinds,
  print_kinds-ne-nil kind kinds,
  split-print_kinds kind kinds,
  parse_each-format (kind ∷ kinds) h,
)

-- The four texts that `String` puts together.
abbrev mss_part : ℕ → Bytes
mss_part mss = if mss == 0 then codes "00" else pad 2 mss

abbrev scale_part : ℕ → Bytes
scale_part scale = if scale == 0 then codes "00" else format_uint scale

mss_part-Lacks : (mss : ℕ) → Lacks b'_' (mss_part mss)
mss_part-Lacks mss = elim (Bool-cases (mss == 0)) [
  | inl e ↦ rw e (omega arith)
  | inr e ↦ rw e (decimal-Lacks b'_' (pad 2 mss) (inr (omega arith)) (pad-All 2 mss))
]

scale_part-Lacks : (scale : ℕ) → Lacks b'_' (scale_part scale)
scale_part-Lacks scale = elim (Bool-cases (scale == 0)) [
  | inl e ↦ rw e (omega arith)
  | inr e ↦
      rw e (decimal-Lacks b'_' (format_uint scale) (inr (omega arith)) (format_uint-All scale))
]

print_kinds-Lacks : (kinds : List ℕ) → Lacks b'_' (print_kinds kinds)
print_kinds-Lacks [] = omega arith
print_kinds-Lacks (kind ∷ kinds) =
    join-Lacks b'_' b'-' (map format_uint (kind ∷ kinds)) (omega arith)
      (formatted-Lacks b'_' (kind ∷ kinds) (inr (omega arith)))

split-print :
    (fp : Fingerprint)
    → split b'_' (print fp)
      ≡ format_uint fp.window ∷ print_kinds fp.kinds ∷ mss_part fp.mss ∷ scale_part fp.scale ∷ []
unfolding print
split-print fp =
    split-append b'_' (format_uint fp.window) _
      (decimal-Lacks b'_' (format_uint fp.window) (inr (omega arith)) (format_uint-All fp.window))
    ∙ ap (◌∷◌ (format_uint fp.window)) (
        split-append b'_' (print_kinds fp.kinds) _ (print_kinds-Lacks fp.kinds)
        ∙ ap (◌∷◌ (print_kinds fp.kinds)) (
            split-append b'_' (mss_part fp.mss) _ (mss_part-Lacks fp.mss)
            ∙ ap (◌∷◌ (mss_part fp.mss))
                (split-Lacks b'_' (scale_part fp.scale) (scale_part-Lacks fp.scale))))

-- A valid fingerprint whose fields fit their words is read back from its print.
pub parse_ja4t-print : (fp : Fingerprint) → IsSized fp → IsValid fp → parse_ja4t (print fp) ≡ ok fp
unfolding parse_ja4t parse_parts
parse_ja4t-print fp z v = rw (
  split-print fp,
  parse_uint-format_uint max_u16 fp.window z.window_fits,
  parse_kinds-print fp.kinds v.supported,
  parse_section-print max_u16 fp.mss (pad 2 fp.mss) (parse_uint-pad max_u16 2 fp.mss z.mss_fits),
  parse_section-print max_u8 fp.scale (format_uint fp.scale)
      (parse_uint-format_uint max_u8 fp.scale z.scale_fits),
  (validate_iff fp).1 v,
)

parse_section-le : (max : ℕ) (s : Bytes) (n : ℕ) → parse_section s max ≡ ok n → n ≤ max
unfolding parse_section
parse_section-le max s n h = ground (arith, parse_uint-le 10 max s {r = n})

checked-ok : (given fp : Fingerprint) → checked given ≡ ok fp → (given ≡ fp) × IsValid fp
unfolding checked
checked-ok given fp h =
    let (_, e, h') = >>=-eq-ok (validate given) (λ _. ok given) h in
    let same_fp : given ≡ fp = cc h' in (same_fp, subst IsValid same_fp ((validate_iff given).0 e))

parse_parts_sound :
    (p0 p1 p2 p3 : Bytes) (fp : Fingerprint)
    → parse_parts p0 p1 p2 p3 ≡ ok fp
    → IsSized fp × IsValid fp
unfolding parse_parts
parse_parts_sound p0 p1 p2 p3 fp h =
    let (window, e0, h1) = >>=-eq-ok (or_err (parse_uint 10 max_u16 p0) (bad_window p0)) _ h in
    let (kinds, e1, h2) = >>=-eq-ok (parse_kinds p1) _ h1 in
    let (mss, e2, h3) = >>=-eq-ok (parse_section p2 max_u16) _ h2 in
    let (scale, e3, h4) = >>=-eq-ok (parse_section p3 max_u8) _ h3 in
    let (e, v) =
      checked-ok (record { window = window; kinds = kinds; mss = mss; scale = scale }) fp h4 in
    (
      subst IsSized e (record {
        window_fits = parse_uint-le 10 max_u16 p0 (or_err-eq-ok _ _ e0);
        mss_fits = parse_section-le max_u16 p2 mss e2;
        scale_fits = parse_section-le max_u8 p3 scale e3;
      }),
      v,
    )

parse_ja4t_sound : (s : Bytes) (fp : Fingerprint) → parse_ja4t s ≡ ok fp → IsSized fp × IsValid fp
unfolding parse_ja4t
parse_ja4t_sound s fp h = go (split b'_' s) h
  where
    go : (ps : List Bytes) → four_parts s ps ≡ ok fp → IsSized fp × IsValid fp
    go (p0 ∷ p1 ∷ p2 ∷ p3 ∷ []) e = parse_parts_sound p0 p1 p2 p3 fp e
    go [] e = absurd (cc e)
    go (_ ∷ []) e = absurd (cc e)
    go (_ ∷ _ ∷ []) e = absurd (cc e)
    go (_ ∷ _ ∷ _ ∷ []) e = absurd (cc e)
    go (_ ∷ _ ∷ _ ∷ _ ∷ _ ∷ _) e = absurd (cc e)

-- What `parseJA4T` accepts is valid and fits its words, and is read back from its print: the print
-- is a normal form of the text.
pub parse_ja4t-normal :
    (s : Bytes) {fp : Fingerprint}
    → parse_ja4t s ≡ ok fp
    → IsSized fp × IsValid fp × (parse_ja4t (print fp) ≡ ok fp)
parse_ja4t-normal s {fp} h = let (z, v) = parse_ja4t_sound s fp h in (z, v, parse_ja4t-print fp z v)
