-- ===== src/Muxed/Key.antt =====
-- internal/curlu/http2.go: header names and their canonical keys.
use curlu.Base.{ℕ, Bool, true, false, [], ◌∷◌, ◌≡◌, ◌↔◌, refl, sym, ap, ◌∙◌, arith, ◌==◌, Bytes}
use curlu.Text.{to_lower, lower_byte}
use curlu.Muxed.Defs.{upper_byte, canonical_from, canonical_key}

lower-upper : (c : ℕ) → lower_byte (upper_byte c) ≡ lower_byte c
unfolding lower_byte
lower-upper c = ground arith

lower-lower : (c : ℕ) → lower_byte (lower_byte c) ≡ lower_byte c
unfolding lower_byte
lower-lower c = ground arith

upper-lower : (c : ℕ) → upper_byte (lower_byte c) ≡ upper_byte c
unfolding lower_byte
upper-lower c = ground arith

dash-lower : (c : ℕ) → (lower_byte c == b'-') ≡ (c == b'-')
unfolding lower_byte
dash-lower c = ground arith

to_lower-canonical_from :
    (upper : Bool) (s : Bytes) → to_lower (canonical_from upper s) ≡ to_lower s
unfolding to_lower canonical_from
to_lower-canonical_from upper [] = refl
to_lower-canonical_from true (c ∷ s) =
    rw (lower-upper c) (ap (◌∷◌ (lower_byte c)) (to_lower-canonical_from (c == b'-') s))
to_lower-canonical_from false (c ∷ s) =
    rw (lower-lower c) (ap (◌∷◌ (lower_byte c)) (to_lower-canonical_from (c == b'-') s))

canonical_from-to_lower :
    (upper : Bool) (s : Bytes) → canonical_from upper (to_lower s) ≡ canonical_from upper s
unfolding to_lower canonical_from
canonical_from-to_lower upper [] = refl
canonical_from-to_lower true (c ∷ s) =
    rw (dash-lower c, upper-lower c)
      (ap (◌∷◌ (upper_byte c)) (canonical_from-to_lower (c == b'-') s))
canonical_from-to_lower false (c ∷ s) =
    rw (dash-lower c, lower-lower c)
      (ap (◌∷◌ (lower_byte c)) (canonical_from-to_lower (c == b'-') s))

-- Two names have the same key if and only if they are the same up to case.
pub canonical_key_iff :
    (a b : Bytes) → (canonical_key a ≡ canonical_key b) ↔ (to_lower a ≡ to_lower b)
unfolding canonical_key
canonical_key_iff a b = (
  λ h. sym (to_lower-canonical_from true a) ∙ ap to_lower h ∙ to_lower-canonical_from true b,
  λ h.
      sym (canonical_from-to_lower true a)
      ∙ ap (canonical_from true) h
      ∙ canonical_from-to_lower true b,
)
