-- ===== src/Text/Laws.antt =====
-- The laws of cutting, splitting and joining.
use mathlib.Core.List.{cons-ne-nil}
use curlu.Base.{
  ℕ, none, some, List, [], ◌∷◌, ◌++◌, ◌≡◌, ◌≢◌, refl, ap, ◌∙◌, arith, Option-cases, inl, inr, Bytes,
  All,
}
use curlu.Text.Defs.{cut, cons_part, split, join}

abbrev pub Lacks : ℕ → Bytes → Type 0
Lacks b = All (λ c. c ≢ b)

-- A cut is at the first separator.
pub cut_sound :
    (sep : ℕ) (s : Bytes) {a b : Bytes} → cut sep s ≡ some (a, b) → (s ≡ a ++ sep ∷ b) × Lacks sep a
unfolding cut
cut_sound sep [] h = cc
cut_sound sep (c ∷ s) h = elim (Option-cases (cut sep s)) [
  | inl e ↦ ground (arith)
  | inr ((a', b'), e) ↦ ground (arith, cut_sound sep s e)
]

pub cut-append : (sep : ℕ) (a b : Bytes) → Lacks sep a → cut sep (a ++ sep ∷ b) ≡ some (a, b)
unfolding cut
cut-append sep [] b h = ground arith
cut-append sep (c ∷ a) b (ne, h) = ground (arith, cut-append sep a b h)

pub cut-Lacks : (sep : ℕ) (s : Bytes) → Lacks sep s → cut sep s ≡ none
unfolding cut
cut-Lacks sep [] h = refl
cut-Lacks sep (c ∷ s) (ne, h) = ground (arith, cut-Lacks sep s h)

pub split-ne-nil : (sep : ℕ) (s : Bytes) → split sep s ≢ []
unfolding split
split-ne-nil sep [] = cons-ne-nil _ _
split-ne-nil sep (c ∷ s) = ground (arith, split-ne-nil sep s)

pub split-Lacks : (sep : ℕ) (s : Bytes) → Lacks sep s → split sep s ≡ s ∷ []
unfolding split
split-Lacks sep [] h = refl
split-Lacks sep (c ∷ s) (ne, h) = ground (arith, split-Lacks sep s h)

pub split-append :
    (sep : ℕ) (p s : Bytes) → Lacks sep p → split sep (p ++ sep ∷ s) ≡ p ∷ split sep s
unfolding split
split-append sep [] s h = ground arith
split-append sep (c ∷ p) s (ne, h) = ground (arith, split-append sep p s h)

pub split-join :
    (sep : ℕ) (ps : List Bytes) → ps ≢ [] → All (Lacks sep) ps → split sep (join sep ps) ≡ ps
unfolding join
split-join sep [] h _ = absurd (h refl)
split-join sep (p ∷ []) _ (hp, _) = split-Lacks sep p hp
split-join sep (p ∷ q ∷ ps) _ (hp, hs) =
    split-append sep p (join sep (q ∷ ps)) hp
    ∙ ap (◌∷◌ p) (split-join sep (q ∷ ps) (cons-ne-nil _ _) hs)

cons_part-Lacks :
    (sep c : ℕ) (ps : List Bytes) → c ≢ sep → All (Lacks sep) ps → All (Lacks sep) (cons_part c ps)
cons_part-Lacks sep c [] ne h = ((ne, tt), tt)
cons_part-Lacks sep c (p ∷ ps) ne (hp, h) = ((ne, hp), h)

pub split-All-Lacks : (sep : ℕ) (s : Bytes) → All (Lacks sep) (split sep s)
unfolding split
split-All-Lacks sep [] = (tt, tt)
split-All-Lacks sep (c ∷ s) =
    ground (arith, split-All-Lacks sep s, cons_part-Lacks sep c (split sep s))
