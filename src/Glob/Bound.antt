-- ===== src/Glob/Bound.antt =====
-- The number of texts in the loop of `expandGlob`, and its fuel.
use curlu.Base.{
  ℕ, zero, suc, ◌≤◌, ◌<◌, List, [], ◌∷◌, ◌++◌, ◌≡◌, ◌≢◌, ap, arith, Bytes, ok, err, length,
  length-append, some, none, Option, Option-cases, inl, inr, >>=-eq-ok, >>=-eq-err, length-map,
}
use curlu.Text.{cut, cut_sound}
use curlu.Glob.Defs.{
  backslash, combine, flush, expand_range, split_url, max_glob_urls, out_of_fuel, Round,
  group_items, group, escape, step, loop, expand_glob,
}
use curlu.Glob.Product.{length-combine}

length-flush : (out : List Bytes) (lit : Bytes) → length (flush out lit) ≡ length out
length-flush out lit = length-map (λ o. o ++ lit) out

-- The bound of the source's test: `out` never holds more than 1000 texts.
abbrev Bounds : List Bytes → Round → Type 0
Bounds urls next =
    (s : Bytes) (o : List Bytes) (l : Bytes)
    → length o ≤ max_glob_urls
    → next s o l ≡ ok urls
    → length urls ≤ max_glob_urls

module _ (next : Round) {urls : List Bytes} where
  group_bound :
      Bounds urls next
      → (c : ℕ) (parts : Option (Bytes × Bytes)) (out : List Bytes) (lit : Bytes)
      → length out ≤ max_glob_urls
      → group next c parts out lit ≡ ok urls
      → length urls ≤ max_glob_urls
  unfolding group
  group_bound ih c none out lit b h = absurd (cc h)
  group_bound ih c (some (body, s)) out lit b h =
      let (items, got, h') = >>=-eq-ok (group_items c body) _ h in
      ground (
        arith,
        ih s (combine (flush out lit) items) [],
        length-combine (flush out lit) items,
        length-flush out lit,
      )

  step_bound :
      Bounds urls next
      → (c : ℕ) (rest : Bytes) (out : List Bytes) (lit : Bytes) → length out ≤ max_glob_urls
      → step next c rest out lit ≡ ok urls
      → length urls ≤ max_glob_urls
  unfolding step escape
  step_bound ih c [] out lit b h = ground (
    arith,
    ih [] out (lit ++ c ∷ []),
    ih [] out (lit ++ backslash ∷ []),
    group_bound ih b'{' (cut b'}' []) out lit b,
    group_bound ih b'[' (cut b']' []) out lit b,
  )
  step_bound ih c (e ∷ rest) out lit b h = ground (
    arith,
    ih (e ∷ rest) out (lit ++ c ∷ []),
    ih rest out (lit ++ e ∷ []),
    ih (e ∷ rest) out (lit ++ backslash ∷ []),
    group_bound ih b'{' (cut b'}' (e ∷ rest)) out lit b,
    group_bound ih b'[' (cut b']' (e ∷ rest)) out lit b,
  )

pub loop_bound :
    (f : ℕ) {urls : List Bytes} (src : Bytes) (out : List Bytes) (lit : Bytes)
    → length out ≤ max_glob_urls
    → loop f src out lit ≡ ok urls
    → length urls ≤ max_glob_urls
unfolding loop
loop_bound f [] out lit b h = ground (arith, length-flush out lit)
loop_bound zero (c ∷ src) out lit b h = absurd (cc h)
loop_bound (suc f) (c ∷ src) out lit b h =
    step_bound (loop f) (λ s o l. loop_bound f s o l) c src out lit b h

-- No error of the model's own: the fuel is one unit for each byte, and a round drops one or more.
abbrev Ends : ℕ → Round → Type 0
Ends f next = (s : Bytes) (o : List Bytes) (l : Bytes) → length s ≤ f → next s o l ≢ err out_of_fuel

expand_range-ne-fuel : (spec : Bytes) → expand_range spec ≢ err out_of_fuel
unfolding expand_range
expand_range-ne-fuel spec = ground arith

group_items-ne-fuel : (c : ℕ) (body : Bytes) → group_items c body ≢ err out_of_fuel
unfolding group_items
group_items-ne-fuel c body = ground (arith, expand_range-ne-fuel body)

cut_shorter : (sep : ℕ) (s : Bytes) {a b : Bytes} → cut sep s ≡ some (a, b) → length b < length s
cut_shorter sep s {a} {b} h =
    omega (arith, ap length (cut_sound sep s h).0, length-append a (sep ∷ b))

module _ (next : Round) (f : ℕ) (ih : Ends f next) where
  group_ends :
      (c closer : ℕ) (rest : Bytes) (out : List Bytes) (lit : Bytes)
      → length rest ≤ f
      → group next c (cut closer rest) out lit ≢ err out_of_fuel
  unfolding group
  group_ends c closer rest out lit b h = elim (Option-cases (cut closer rest)) [
    | inl e ↦ absurd (cc (rw e at h))
    | inr ((body, s), e) ↦ elim (>>=-eq-err (group_items c body) _ (rw e at h)) [
      | inl bad ↦ group_items-ne-fuel c body bad
      | inr (items, got, h') ↦
          ground (arith, cut_shorter closer rest e, ih s (combine (flush out lit) items) [])
    ]
  ]

  step_ends :
      (c : ℕ) (rest : Bytes) (out : List Bytes) (lit : Bytes)
      → length rest ≤ f
      → step next c rest out lit ≢ err out_of_fuel
  unfolding step escape
  step_ends c [] out lit b = ground (
    arith,
    ih [] out (lit ++ c ∷ []),
    ih [] out (lit ++ backslash ∷ []),
    group_ends b'{' b'}' [] out lit b,
    group_ends b'[' b']' [] out lit b,
  )
  step_ends c (e ∷ rest) out lit b = ground (
    arith,
    ih (e ∷ rest) out (lit ++ c ∷ []),
    ih rest out (lit ++ e ∷ []),
    ih (e ∷ rest) out (lit ++ backslash ∷ []),
    group_ends b'{' b'}' (e ∷ rest) out lit b,
    group_ends b'[' b']' (e ∷ rest) out lit b,
  )

loop_ends :
    (f : ℕ) (src : Bytes) (out : List Bytes) (lit : Bytes)
    → length src ≤ f
    → loop f src out lit ≢ err out_of_fuel
unfolding loop
loop_ends f [] out lit b = cc
loop_ends zero (c ∷ src) out lit b = absurd (omega arith)
loop_ends (suc f) (c ∷ src) out lit b =
    step_ends (loop f) f (λ s o l. loop_ends f s o l) c src out lit (omega arith)

-- `expandGlob` returns URLs or one of the source's errors: the model's fuel never runs out.
pub expand_glob-ne-fuel : (raw : Bytes) → expand_glob raw ≢ err out_of_fuel
unfolding expand_glob
expand_glob-ne-fuel raw =
    let (prefix, path) = split_url raw in
    loop_ends (length path) path (prefix ∷ []) [] (omega arith)
