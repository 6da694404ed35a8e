-- ===== src/Muxed/Values.antt =====
-- internal/curlu/http2.go: the values that stand in a header under a name, whatever its case.
use curlu.Base.{
  false, List, [], ◌∷◌, ◌++◌, ◌≡◌, inl, inr, refl, sym, ◌∙◌, if◌then◌else◌, Bytes, same, same_iff,
  same_refl, Bool-cases,
}
use curlu.Text.{to_lower}
use curlu.Muxed.Defs.{canonical_key, Field, values_of, put, set_header, add_header}
use curlu.Muxed.Key.{canonical_key_iff}

values_of-put : (key : Bytes) (vs : List Bytes) (h : List Field) → values_of key (put key vs h) ≡ vs
unfolding values_of put
values_of-put key vs [] = rw (same_refl key) refl
values_of-put key vs (f ∷ h) = elim (Bool-cases (same f.key key)) [
  | inl e ↦ rw (e, put) (rw (same_refl key, values_of) refl)
  | inr e ↦ rw (e, put) (rw (e, values_of) (values_of-put key vs h))
]

values_of-other :
    (j key : Bytes) (vs : List Bytes) (h : List Field)
    → same j key ≡ false
    → values_of key (put j vs h) ≡ values_of key h
unfolding values_of put
values_of-other j key vs [] d = rw d refl
values_of-other j key vs (f ∷ h) d = elim (Bool-cases (same f.key j)) [
  | inl e ↦
      let is_j : f.key ≡ j = (same_iff f.key j).0 e in rw (e, put) (rw (is_j, d, values_of) refl)
  | inr e ↦ elim (Bool-cases (same f.key key)) [
    | inl k ↦ rw (e, put) (rw (k, values_of) refl)
    | inr k ↦ rw (e, put) (rw (k, values_of) (values_of-other j key vs h d))
  ]
]

-- Keys are told apart as lowered names are.
same-canonical :
    (a b : Bytes) → same (canonical_key a) (canonical_key b) ≡ same (to_lower a) (to_lower b)
same-canonical a b =
    let (f, g) = canonical_key_iff a b in
    elim (Bool-cases (same (to_lower a) (to_lower b))) [
      | inl e ↦
          (same_iff (canonical_key a) (canonical_key b)).1
            (g ((same_iff (to_lower a) (to_lower b)).0 e))
          ∙ sym e
      | inr e ↦ elim (Bool-cases (same (canonical_key a) (canonical_key b))) [
        | inl k ↦
            let d =
              (same_iff (to_lower a) (to_lower b)).1
                (f ((same_iff (canonical_key a) (canonical_key b)).0 k)) in
            absurd (cc (d, e))
        | inr k ↦ k ∙ sym e
      ]
    ]

-- The values under a name, whatever its case.
abbrev pub under : Bytes → List Field → List Bytes
under name header = values_of (canonical_key name) header

pub under-set :
    (name n value : Bytes) (h : List Field)
    → under n (set_header name value h)
      ≡ (if same (to_lower name) (to_lower n) then value ∷ [] else under n h)
unfolding set_header
under-set name n value h = elim (Bool-cases (same (to_lower name) (to_lower n))) [
  | inl e ↦
      let k = (canonical_key_iff name n).1 ((same_iff (to_lower name) (to_lower n)).0 e) in
      rw e (rw k (values_of-put (canonical_key n) (value ∷ []) h))
  | inr e ↦ rw e (
      values_of-other (canonical_key name) (canonical_key n) (value ∷ []) h
        (same-canonical name n ∙ e))
]

pub under-add :
    (name n value : Bytes) (h : List Field)
    → under n (add_header name value h)
      ≡ (if same (to_lower name) (to_lower n) then under n h ++ value ∷ [] else under n h)
unfolding add_header
under-add name n value h = elim (Bool-cases (same (to_lower name) (to_lower n))) [
  | inl e ↦
      let k = (canonical_key_iff name n).1 ((same_iff (to_lower name) (to_lower n)).0 e) in
      rw e (rw k (values_of-put (canonical_key n) (values_of (canonical_key n) h ++ value ∷ []) h))
  | inr e ↦
      rw e (values_of-other (canonical_key name) (canonical_key n) _ h (same-canonical name n ∙ e))
]
