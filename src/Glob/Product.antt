-- ===== src/Glob/Product.antt =====
-- Texts combined with texts: the laws of `combine`.
use mathlib.Core.Path.{ap₂}
use mathlib.Core.List.{map-append}
use curlu.Base.{
  List, [], ◌∷◌, ◌++◌, map, append-nil, append_assoc, ◌*◌, ◌≡◌, refl, ap, sym, ◌∙◌, arith, Bytes,
  length, length-append, length-map,
}
use curlu.Glob.Defs.{flush, combine}

map-map_prefix :
    (p y : Bytes) (zs : List Bytes)
    → map (λ z. p ++ z) (map (λ z. y ++ z) zs) ≡ map (λ z. (p ++ y) ++ z) zs
map-map_prefix p y [] = refl
map-map_prefix p y (z ∷ zs) = ap₂ ◌∷◌ (sym (append_assoc p y z)) (map-map_prefix p y zs)

map-combine :
    (p : Bytes) (ys zs : List Bytes)
    → map (λ z. p ++ z) (combine ys zs) ≡ combine (map (λ y. p ++ y) ys) zs
unfolding combine
map-combine p [] zs = refl
map-combine p (y ∷ ys) zs = simp (map-append, map-map_prefix, map-combine p ys)

combine-append : (xs ys zs : List Bytes) → combine (xs ++ ys) zs ≡ combine xs zs ++ combine ys zs
unfolding combine
combine-append [] ys zs = refl
combine-append (x ∷ xs) ys zs = simp (combine-append xs, append_assoc)

pub combine_assoc :
    (xs ys zs : List Bytes) → combine (combine xs ys) zs ≡ combine xs (combine ys zs)
unfolding combine
combine_assoc [] ys zs = refl
combine_assoc (x ∷ xs) ys zs = simp (combine-append, map-combine, combine_assoc xs)

pub combine-unit : (xs : List Bytes) → combine xs ([] ∷ []) ≡ xs
unfolding combine
combine-unit [] = refl
combine-unit (x ∷ xs) = simp (append-nil, combine-unit xs)

map_id : (xs : List Bytes) → map (λ x. [] ++ x) xs ≡ xs
map_id [] = refl
map_id (x ∷ xs) = ap (◌∷◌ x) (map_id xs)

pub unit-combine : (xs : List Bytes) → combine ([] ∷ []) xs ≡ xs
unfolding combine
unit-combine xs = append-nil _ ∙ map_id xs

pub flush-combine :
    (out : List Bytes) (literal : Bytes) → flush out literal ≡ combine out (literal ∷ [])
unfolding combine
flush-combine [] literal = refl
flush-combine (o ∷ out) literal = ap (◌∷◌ (o ++ literal)) (flush-combine out literal)

pub length-combine : (xs ys : List Bytes) → length (combine xs ys) ≡ length xs * length ys
unfolding combine
length-combine [] ys = omega arith
length-combine (x ∷ xs) ys = grind (
  arith,
  length-combine xs ys,
  length-append (map (λ y. x ++ y) ys) (combine xs ys),
  length-map (λ y. x ++ y) ys,
)
