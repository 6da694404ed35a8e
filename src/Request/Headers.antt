-- ===== src/Request/Headers.antt =====
-- `parseRequestHeader`: what an accepted header is.
use mathlib.Core.Path.{subst}
use curlu.Base.{
  ℕ, zero, suc, true, false, Option, none, some, [], ◌∷◌, ◌++◌, ◌≡◌, ◌≢◌, ◌⊎◌, refl, sym, ap, ◌∙◌,
  arith, Bytes, ok, err, ok_injective, All, All-append, Bool-cases, inl, inr,
}
use curlu.Text.{
  cut, cut_sound, contains_byte, Lacks, cons_unless_end, trim_space, trim_left, trim_right,
  space_size,
}
use curlu.Request.Defs.{
  RequestHeader, invalid_field_name, valid_header_name, has_control, named_header,
  parse_request_header,
}

-- Bytes that may stand in a line of a request.
abbrev pub IsInline : ℕ → Type 0
IsInline c = (c ≢ 13) × (c ≢ 10) × (c ≢ 0)

contains_byte-false : (b : ℕ) (s : Bytes) → contains_byte b s ≡ false → Lacks b s
unfolding contains_byte
contains_byte-false b [] h = tt
contains_byte-false b (c ∷ s) h = ground (arith, contains_byte-false b s)

zip-IsInline : (s : Bytes) → Lacks 13 s → Lacks 10 s → Lacks 0 s → All IsInline s
zip-IsInline [] a b c = tt
zip-IsInline (x ∷ s) (a, h) (b, k) (c, l) = ((a, b, c), zip-IsInline s h k l)

pub has_control-false : (s : Bytes) → has_control s ≡ false → All IsInline s
unfolding has_control
has_control-false s h =
    zip-IsInline s (contains_byte-false 13 s (ground arith))
      (contains_byte-false 10 s (ground arith)) (contains_byte-false 0 s (ground arith))

All-split : (a b : Bytes) → All IsInline (a ++ b) → All IsInline a × All IsInline b
All-split [] b h = (tt, h)
All-split (c ∷ a) b (x, h) = let (p, q) = All-split a b h in ((x, p), q)

size-cases : (n : ℕ) → (n ≡ 0) ⊎ ((k : ℕ) × (n ≡ suc k))
size-cases zero = inl refl
size-cases (suc k) = inr (k, refl)

trim_left-All : (skip : ℕ) (s : Bytes) → All IsInline s → All IsInline (trim_left skip s)
unfolding trim_left
trim_left-All skip [] h = tt
trim_left-All (suc skip) (c ∷ s) (x, h) = trim_left-All skip s h
trim_left-All zero (c ∷ s) (x, h) = elim (size-cases (space_size (c ∷ s))) [
  | inl e ↦ rw (e, trim_left) (x, h)
  | inr (skip, e) ↦ rw (e, trim_left) (trim_left-All skip s h)
]

cons_unless_end-All :
    (c : ℕ) (s : Bytes) → IsInline c → All IsInline s → All IsInline (cons_unless_end c s)
cons_unless_end-All c [] x h = tt
cons_unless_end-All c (d ∷ s) x h = (x, h)

trim_right-All : (skip : ℕ) (s : Bytes) → All IsInline s → All IsInline (trim_right skip s)
unfolding trim_right
trim_right-All skip [] h = tt
trim_right-All (suc skip) (c ∷ s) (x, h) =
    cons_unless_end-All c (trim_right skip s) x (trim_right-All skip s h)
trim_right-All zero (c ∷ s) (x, h) = elim (size-cases (space_size (c ∷ s))) [
  | inl e ↦ rw (e, trim_right) (x, trim_right-All 0 s h)
  | inr (skip, e) ↦
      rw (e, trim_right) (cons_unless_end-All c (trim_right skip s) x (trim_right-All skip s h))
]

trim_space-All : (s : Bytes) → All IsInline s → All IsInline (trim_space s)
unfolding trim_space
trim_space-All s h = trim_right-All 0 (trim_left 0 s) (trim_left-All 0 s h)

-- What stands behind the colon of a header, and what the header does with it.
abbrev pub Takes : RequestHeader → Bytes → Type 0
Takes header rest =
    ((trim_space rest ≡ []) × (header.suppress ≡ true))
    ⊎ ((trim_space rest ≢ [])
        × (header.suppress ≡ false)
        × (header.wire ≡ header.name ++ b':' ∷ rest))

-- A header that was accepted from `value`.
pub record IsAccepted (value : Bytes) (header : RequestHeader) : Type 0 where
  pub before : Bytes
  pub rest : Bytes
  pub colon : value ≡ before ++ b':' ∷ rest
  pub first_colon : Lacks b':' before
  pub inline : All IsInline value
  pub named : header.name ≡ trim_space before
  pub valid : valid_header_name header.name ≡ true
  pub does : Takes header rest

named_header-suppressed :
    (name rest : Bytes)
    → valid_header_name name ≡ true
    → trim_space rest ≡ []
    → named_header name rest ≡ ok (record { name = name; wire = []; value = []; suppress = true })
unfolding named_header
named_header-suppressed name rest v e = rw (v, e, named_header) refl

named_header-sent :
    (name rest : Bytes) {c : ℕ} {s : Bytes}
    → valid_header_name name ≡ true
    → trim_space rest ≡ c ∷ s
    → named_header name rest
      ≡ ok (record { name = name; wire = name ++ b':' ∷ rest; value = rest; suppress = false })
unfolding named_header
named_header-sent name rest v e = rw (v, e, named_header) refl

named_header-invalid :
    (name rest : Bytes)
    → valid_header_name name ≡ false
    → named_header name rest ≡ err invalid_field_name
unfolding named_header
named_header-invalid name rest v = rw (v, named_header) refl

pub List-cases : (s : Bytes) → (s ≡ []) ⊎ ((c : ℕ) × (r : Bytes) × (s ≡ c ∷ r))
List-cases [] = inl refl
List-cases (c ∷ r) = inr (c, r, refl)

named_header_sound :
    (name rest : Bytes) {header : RequestHeader}
    → named_header name rest ≡ ok header
    → (header.name ≡ name) × (valid_header_name name ≡ true) × Takes header rest
named_header_sound name rest {header} h = elim (Bool-cases (valid_header_name name)) [
  | inr v ↦ absurd (cc (h, named_header-invalid name rest v))
  | inl v ↦ elim (List-cases (trim_space rest)) [
    | inl e ↦
        let same_header = sym (ok_injective (sym (named_header-suppressed name rest v e) ∙ h)) in
        (ap (λ x. x.name) same_header, v, inl (e, ap (λ x. x.suppress) same_header))
    | inr (c, s, e) ↦
        let same_header = sym (ok_injective (sym (named_header-sent name rest v e) ∙ h)) in
        (
          ap (λ x. x.name) same_header,
          v,
          inr (
            λ none_left. cc (e, none_left),
            ap (λ x. x.suppress) same_header,
            ap (λ x. x.wire) same_header
                ∙ ap (λ n. n ++ b':' ∷ rest) (sym (ap (λ x. x.name) same_header)),
          ),
        )
  ]
]

parse_request_header_named :
    (value : Bytes) {c : ℕ} {before rest : Bytes}
    → has_control value ≡ false
    → cut b':' value ≡ some (c ∷ before, rest)
    → parse_request_header value ≡ named_header (trim_space (c ∷ before)) rest
unfolding parse_request_header
parse_request_header_named value a b = rw (a, b, parse_request_header) refl

parse_request_header_refused :
    (value : Bytes) (cuts : Option (Bytes × Bytes)) {header : RequestHeader}
    → cut b':' value ≡ cuts
    → parse_request_header value ≡ ok header
    → (has_control value ≡ false)
      × ((c : ℕ) × (before : Bytes) × (rest : Bytes) × (cuts ≡ some (c ∷ before, rest)))
unfolding parse_request_header
parse_request_header_refused value none e h = ground (arith, e)
parse_request_header_refused value (some ([], rest)) e h = ground (arith, e)
parse_request_header_refused value (some (c ∷ before, rest)) e h =
    (ground (arith, e), (c, before, rest, refl))

-- A header is accepted only if it has no CR, LF or NUL, and a colon behind a name which, without the
-- white space around it, is made of token characters. It then has this name; if nothing but white
-- space stands behind the first colon it is suppressed, and else its wire form is the name, a colon
-- and what stands behind the first colon.
pub parse_request_header_sound :
    (value : Bytes) {header : RequestHeader}
    → parse_request_header value ≡ ok header
    → IsAccepted value header
parse_request_header_sound value h =
    let (clean, (c, before, rest, e)) =
      parse_request_header_refused value (cut b':' value) refl h in
    let (colon, first_colon) = cut_sound b':' value e in
    let (named, valid, does) =
      named_header_sound (trim_space (c ∷ before)) rest
        (sym (parse_request_header_named value clean e) ∙ h) in
    record {
      before = c ∷ before;
      rest = rest;
      colon = colon;
      first_colon = first_colon;
      inline = has_control-false value clean;
      named = named;
      valid = ap valid_header_name named ∙ valid;
      does = does;
    }

-- The wire form of an accepted header stays within its line.
pub wire-IsInline :
    (value : Bytes) (header : RequestHeader)
    → IsAccepted value header
    → header.suppress ≡ false
    → All IsInline header.wire
wire-IsInline value header a sent =
    let (left, right) =
      All-split a.before (b':' ∷ a.rest) (subst (All IsInline) a.colon a.inline) in
    elim a.does [
      | inl (_, unsent) ↦ absurd (cc (unsent, sent))
      | inr (_, _, e) ↦ subst (All IsInline) (sym (e ∙ ap (λ n. n ++ b':' ∷ a.rest) a.named)) (
          All-append IsInline (trim_space a.before) (b':' ∷ a.rest) (trim_space-All a.before left)
            right)
    ]
