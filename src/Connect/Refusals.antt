-- ===== src/Connect/Refusals.antt =====
-- internal/curlu/client.go: the errors of `parseTargets`.
use curlu.Base.{
  ℕ, suc, Bool, true, false, Option, List, [], ◌∷◌, ◌≡◌, ◌≢◌, ◌<◌, ◌⊎◌, inl, inr, refl, ap, arith,
  Bytes, length, length-map, length-append, Result, ok, err, >>=-eq-err, Result-cases, Option-cases,
}
use curlu.Glob.{expand_glob, split_url}
use curlu.Glob.Complete.{denote_pos}
use curlu.Options.{Options, Outside}
use curlu.Request.{Url}
use curlu.Connect.Defs.{
  Parsed, checked_url, parse_url, TargetError, exit, exiting, parse_each, expanded_of, targets_of,
  one_origin, check_targets, parse_targets,
}
use curlu.Connect.Targets.{Texts, AllTexts, no_urls, with_url, AllMean, targets_of_sound}

-- Exit codes 1, 2 and 3: an unsupported scheme, several origins, a malformed URL.
abbrev pub IsRefusal : TargetError → Type 0
IsRefusal e = (e ≡ exit 1) ⊎ (e ≡ exit 2) ⊎ (e ≡ exit 3)

checked_url-code : (x : Outside) (p : Parsed) {n : ℕ} → checked_url x p ≡ err n → (n ≡ 1) ⊎ (n ≡ 3)
unfolding checked_url
checked_url-code x p {n} h = ground (arith, h)

parse_url-code :
    (x : Outside) (parse : Bytes → Option Parsed) (one : Bytes) {n : ℕ}
    → parse_url x parse one ≡ err n
    → (n ≡ 1) ⊎ (n ≡ 3)
unfolding parse_url
parse_url-code x parse one {n} h = elim (Option-cases (parse one)) [
  | inl e ↦ let h' = rw (e, parse_url) at h in ground (arith, h')
  | inr (p, e) ↦ checked_url-code x p (rw (e, parse_url) at h)
]

exiting-IsRefusal :
    {A : Type 0} (r : Result ℕ A) {e : TargetError}
    → ((n : ℕ) → r ≡ err n → (n ≡ 1) ⊎ (n ≡ 3))
    → exiting r ≡ err e
    → IsRefusal e
exiting-IsRefusal (ok a) codes_of h = absurd (cc h)
exiting-IsRefusal (err n) codes_of h = elim (codes_of n refl) [
  | inl k ↦ inl cc
  | inr k ↦ inr (inr cc)
]

parse_each-IsRefusal :
    (x : Outside) (parse : Bytes → Option Parsed) (texts : List Bytes) {e : TargetError}
    → parse_each x parse texts ≡ err e
    → IsRefusal e
unfolding parse_each
parse_each-IsRefusal x parse [] h = absurd (cc h)
parse_each-IsRefusal x parse (one ∷ texts) {e} h =
    elim (>>=-eq-err (exiting (parse_url x parse one)) _ h) [
      | inl first ↦
          exiting-IsRefusal (parse_url x parse one) (λ n k. parse_url-code x parse one k) first
      | inr (t, _, later) ↦ elim (>>=-eq-err (parse_each x parse texts) _ later) [
        | inl rest ↦ parse_each-IsRefusal x parse texts rest
        | inr (ts, _, never) ↦ absurd (cc never)
      ]
    ]

expanded_of-IsRefusal :
    (globoff : Bool) (raw : Bytes) {e : TargetError} → expanded_of globoff raw ≡ err e → IsRefusal e
unfolding expanded_of
expanded_of-IsRefusal true raw h = absurd (cc h)
expanded_of-IsRefusal false raw h = elim (Result-cases (expand_glob raw)) [
  | inl (_, k) ↦ absurd (let h' = rw k at h in cc h')
  | inr (_, k) ↦ let h' = rw k at h in inr (inr cc)
]

targets_of-IsRefusal :
    (x : Outside) (parse : Bytes → Option Parsed) (globoff : Bool) (urls : List Bytes)
    {e : TargetError}
    → targets_of x parse globoff urls ≡ err e
    → IsRefusal e
unfolding targets_of
targets_of-IsRefusal x parse globoff [] h = absurd (cc h)
targets_of-IsRefusal x parse globoff (raw ∷ urls) {e} h =
    elim (>>=-eq-err (expanded_of globoff raw) _ h) [
      | inl first ↦ expanded_of-IsRefusal globoff raw first
      | inr (texts, _, later) ↦ elim (>>=-eq-err (parse_each x parse texts) _ later) [
        | inl each ↦ parse_each-IsRefusal x parse texts each
        | inr (ts, _, rest) ↦ elim (>>=-eq-err (targets_of x parse globoff urls) _ rest) [
          | inl others ↦ targets_of-IsRefusal x parse globoff urls others
          | inr (us, _, never) ↦ absurd (cc never)
        ]
      ]
    ]

Texts-pos :
    (globoff : Bool) (raw : Bytes) (texts : List Bytes) → Texts globoff raw texts → 0 < length texts
Texts-pos true raw texts e = rw e (omega arith)
Texts-pos false raw texts r =
    let (prefix, path) = split_url raw in rw (r.denotes, length-map) (denote_pos r.reads)

AllTexts-pos :
    {globoff : Bool} {urls texts : List Bytes}
    → AllTexts globoff urls texts
    → urls ≢ []
    → 0 < length texts
AllTexts-pos no_urls some_url = absurd (some_url refl)
AllTexts-pos (with_url raw urls texts more first rest) some_url =
    omega (arith, Texts-pos _ raw texts first, length-append texts more)

AllMean-length :
    (x : Outside) (parse : Bytes → Option Parsed) (texts : List Bytes) (ts : List Url)
    → AllMean x parse texts ts
    → length texts ≡ length ts
AllMean-length x parse [] [] m = refl
AllMean-length x parse [] (t ∷ ts) m = absurd m
AllMean-length x parse (one ∷ texts) [] m = absurd m
AllMean-length x parse (one ∷ texts) (t ∷ ts) (_, ms) = ap suc (AllMean-length x parse texts ts ms)

check_targets-IsRefusal :
    (x : Outside) (ts : List Url) {e : TargetError}
    → 0 < length ts
    → check_targets x ts ≡ err e
    → IsRefusal e
unfolding check_targets one_origin
check_targets-IsRefusal x [] some_target h = absurd (omega (arith, some_target))
check_targets-IsRefusal x (first ∷ ts) some_target h = ground (arith, h)

-- `parseTargets`, with one URL at least, never reads the first of no targets: what it does not accept
-- it refuses with the exit code 1, 2 or 3.
pub parse_targets-IsRefusal :
    (x : Outside) (parse : Bytes → Option Parsed) (o : Options) (e : TargetError)
    → o.urls ≢ []
    → parse_targets x parse o ≡ err e
    → IsRefusal e
unfolding parse_targets
parse_targets-IsRefusal x parse o e some_url h =
    elim (>>=-eq-err (targets_of x parse o.globoff o.urls) (check_targets x) h) [
      | inl before ↦ targets_of-IsRefusal x parse o.globoff o.urls before
      | inr (ts, k, checked) ↦
          let (texts, from, means) = targets_of_sound x parse o.globoff o.urls k in
          check_targets-IsRefusal x ts
            (omega (arith, AllTexts-pos from some_url, AllMean-length x parse texts ts means))
            checked
    ]
