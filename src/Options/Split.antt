-- ===== src/Options/Split.antt =====
-- `expandCombinedFlags`: what it does to an option whose value holds a space.
use curlu.Base.{ℕ, true, List, [], ◌∷◌, ◌++◌, ◌<◌, ◌≡◌, refl, ap, ◌∙◌, arith, Bytes, All}
use curlu.Text.{cons_part, fields, words, non_empty, space_size, has_prefix, contains_byte}
use curlu.Options.Parse.{expand_combined_flags}

abbrev pub IsGraphic : ℕ → Type 0
IsGraphic c = (32 < c) × (c < 128)

space_size-IsGraphic : (c : ℕ) (s : Bytes) → IsGraphic c → space_size (c ∷ s) ≡ 0
unfolding space_size
space_size-IsGraphic c [] h = ground arith
space_size-IsGraphic c (a ∷ []) h = ground arith
space_size-IsGraphic c (a ∷ b ∷ s) h = ground arith

words-graphic : (c : ℕ) (s : Bytes) → IsGraphic c → words 0 (c ∷ s) ≡ cons_part c (words 0 s)
unfolding words
words-graphic c s h = rw (space_size-IsGraphic c s h, words) refl

words-space : (s : Bytes) → words 0 (32 ∷ s) ≡ [] ∷ words 0 s
unfolding words space_size
words-space [] = refl
words-space (a ∷ s) = refl

words-nil : words 0 [] ≡ [] ∷ []
unfolding words
words-nil = refl

words-one : (p : Bytes) → All IsGraphic p → words 0 p ≡ p ∷ []
words-one [] h = words-nil
words-one (c ∷ p) (x, h) = words-graphic c p x ∙ ap (cons_part c) (words-one p h)

words-append : (p s : Bytes) → All IsGraphic p → words 0 (p ++ 32 ∷ s) ≡ p ∷ words 0 s
words-append [] s h = words-space s
words-append (c ∷ p) s (x, h) =
    words-graphic c (p ++ 32 ∷ s) x ∙ ap (cons_part c) (words-append p s h)

fields-two :
    (c : ℕ) (p : Bytes) (d : ℕ) (q : Bytes)
    → All IsGraphic (c ∷ p)
    → All IsGraphic (d ∷ q)
    → fields ((c ∷ p) ++ 32 ∷ d ∷ q) ≡ (c ∷ p) ∷ (d ∷ q) ∷ []
unfolding fields non_empty
fields-two c p d q h k =
    ap non_empty (words-append (c ∷ p) (d ∷ q) h ∙ ap (λ ws. (c ∷ p) ∷ ws) (words-one (d ∷ q) k))

contains_byte-append : (b : ℕ) (p s : Bytes) → contains_byte b (p ++ b ∷ s) ≡ true
unfolding contains_byte
contains_byte-append b [] s = ground arith
contains_byte-append b (c ∷ p) s = ground (arith, contains_byte-append b p s)

-- An argument that begins with a dash and has a space between graphic characters becomes two
-- arguments, also where the space belongs to the value of the option, as in a header.
pub expand_combined_flags-two :
    (p : Bytes) (d : ℕ) (q : Bytes) (args : List Bytes)
    → All IsGraphic p
    → All IsGraphic (d ∷ q)
    → expand_combined_flags ((b'-' ∷ p ++ 32 ∷ d ∷ q) ∷ args)
      ≡ (b'-' ∷ p) ∷ (d ∷ q) ∷ expand_combined_flags args
unfolding expand_combined_flags has_prefix
expand_combined_flags-two p d q args h k =
    rw (contains_byte-append 32 (b'-' ∷ p) (d ∷ q), expand_combined_flags)
      (ap (λ fs. fs ++ expand_combined_flags args)
        (fields-two b'-' p d q ((omega arith, omega arith), h) k))
