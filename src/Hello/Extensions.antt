-- ===== src/Hello/Extensions.antt =====
-- internal/curlu/utls.go: `appendParrotExtensions` and `appendParrotVersions`, by where things stand.
use curlu.Base.{ℕ, true, false, List, [], ◌∷◌, ◌++◌, map, ◌≡◌, refl, ap, All, Bool-cases, inl, inr}
use curlu.Hello.Defs.{
  Extension, generic, Hello, must_stay_last, split_last, insert_between, append_parrot_extensions,
}

-- Nothing, or an extension that must stay last in front.
abbrev pub BeginsLast : List Extension → Type 0
BeginsLast [] = Unit
BeginsLast (ext ∷ _) = must_stay_last ext ≡ true

-- Where a list is parted: in front of the first extension that must stay last.
pub record Parts (exts front back : List Extension) : Type 0 where
  pub whole : exts ≡ front ++ back
  pub movable : All (λ ext. must_stay_last ext ≡ false) front
  pub begins : BeginsLast back

split_last-Parts : (exts : List Extension) → Parts exts (split_last exts).0 (split_last exts).1
unfolding split_last
split_last-Parts [] = record { whole = refl; movable = tt; begins = tt }
split_last-Parts (ext ∷ exts) = elim (Bool-cases (must_stay_last ext)) [
  | inl e ↦ rw (e, split_last) (record { whole = refl; movable = tt; begins = e })
  | inr e ↦
      let p = split_last-Parts exts in
      rw (e, split_last)
        (record { whole = ap (◌∷◌ ext) p.whole; movable = (e, p.movable); begins = p.begins })
]

append_parrot_extensions-cons :
    (h : Hello) (id : ℕ) (ids : List ℕ)
    → append_parrot_extensions h (id ∷ ids) ≡ insert_between h (id ∷ ids) (split_last h.extensions)
unfolding append_parrot_extensions
append_parrot_extensions-cons h id ids = refl

-- `appendParrotExtensions` puts one empty extension for each number, in order and with repetitions,
-- in front of the first extension that must stay last, or at the end if there is none; all others keep
-- their order, and nothing else of the ClientHello changes.
pub append_parrot_extensions-Parts :
    (h : Hello) (ids : List ℕ)
    → (front : List Extension) × (back : List Extension) × Parts h.extensions front back
      × (append_parrot_extensions h ids
          ≡ record h { extensions = front ++ (map generic ids ++ back) })
unfolding append_parrot_extensions
append_parrot_extensions-Parts h [] =
    let p = split_last-Parts h.extensions in
    (
      (split_last h.extensions).0,
      (split_last h.extensions).1,
      p,
      ap (λ exts. record h { extensions = exts }) p.whole,
    )
append_parrot_extensions-Parts h (id ∷ ids) =
    let p = split_last-Parts h.extensions in
    ((split_last h.extensions).0, (split_last h.extensions).1, p, refl)
