-- ===== src/Connect/Targets.antt =====
-- internal/curlu/client.go: `parseTargets`, by the URLs that the arguments stand for.
use mathlib.Core.Path.{subst}
use curlu.Base.{
  ℕ, Bool, true, false, Option, List, [], ◌∷◌, ◌++◌, ◌≡◌, ◌≤◌, inl, inr, ◌↔◌, refl, sym, ap, ◌∙◌,
  arith, Bytes, length, All, Result, ok, err, >>=-eq-ok, ok_injective, same_iff, Result-cases,
}
use curlu.Glob.{expand_glob, max_glob_urls}
use curlu.Glob.Grammar.{Expands}
use curlu.Glob.Complete.{expand_glob_iff}
use curlu.Options.{Options, Outside}
use curlu.Request.{Url}
use curlu.Connect.Defs.{
  Parsed, parse_url, target_port, exiting, parse_each, expanded_of, targets_of, same_origin,
  all_same_origin, one_origin, check_targets, parse_targets,
}
use curlu.Connect.Url.{Means, parse_url_iff}

abbrev pub AllMean : Outside → (Bytes → Option Parsed) → List Bytes → List Url → Type 0
AllMean x parse [] [] = Unit
AllMean x parse [] (_ ∷ _) = ⊥
AllMean x parse (_ ∷ _) [] = ⊥
AllMean x parse (one ∷ texts) (t ∷ targets) = Means x parse one t × AllMean x parse texts targets

exiting-ok : {A : Type 0} (r : Result ℕ A) {a : A} → exiting r ≡ ok a → r ≡ ok a
exiting-ok (ok b) h = ap ok (ok_injective h)
exiting-ok (err n) h = absurd (cc h)

parse_each_sound :
    (x : Outside) (parse : Bytes → Option Parsed) (texts : List Bytes) {ts : List Url}
    → parse_each x parse texts ≡ ok ts
    → AllMean x parse texts ts
unfolding parse_each
parse_each_sound x parse [] {ts} h = subst (AllMean x parse []) (ok_injective h) tt
parse_each_sound x parse (one ∷ texts) {ts} h =
    let (t, h1, h2) = >>=-eq-ok (exiting (parse_url x parse one)) _ h in
    let (more, h3, h4) = >>=-eq-ok (parse_each x parse texts) _ h2 in
    subst (AllMean x parse (one ∷ texts)) (ok_injective h4) (
      (parse_url_iff x parse one).0 (exiting-ok (parse_url x parse one) h1),
      parse_each_sound x parse texts h3,
    )

parse_each_complete :
    (x : Outside) (parse : Bytes → Option Parsed) (texts : List Bytes) (ts : List Url)
    → AllMean x parse texts ts
    → parse_each x parse texts ≡ ok ts
unfolding parse_each
parse_each_complete x parse [] [] m = refl
parse_each_complete x parse [] (t ∷ ts) m = absurd m
parse_each_complete x parse (one ∷ texts) [] m = absurd m
parse_each_complete x parse (one ∷ texts) (t ∷ ts) (m, ms) =
    rw ((parse_url_iff x parse one).1 m, parse_each_complete x parse texts ts ms) refl

-- The texts that the arguments stand for, in order: each itself, or what its globs denote.
abbrev pub Texts : Bool → Bytes → List Bytes → Type 0
Texts true raw texts = texts ≡ raw ∷ []
Texts false raw texts = Expands raw texts

pub data AllTexts (globoff : Bool) : List Bytes → List Bytes → Type 0 where
  no_urls : AllTexts globoff [] []
  with_url :
      (raw : Bytes) (urls texts more : List Bytes)
      → Texts globoff raw texts
      → AllTexts globoff urls more
      → AllTexts globoff (raw ∷ urls) (texts ++ more)

expanded_of_iff :
    (globoff : Bool) (raw : Bytes) (texts : List Bytes)
    → (expanded_of globoff raw ≡ ok texts) ↔ Texts globoff raw texts
unfolding expanded_of
expanded_of_iff true raw texts = (λ h. sym (ok_injective h), λ h. ap ok (sym h))
expanded_of_iff false raw texts = (
  λ h. (expand_glob_iff raw texts).0 (elim (Result-cases (expand_glob raw)) [
    | inl (urls, e) ↦ e ∙ ap ok (ok_injective (rw e at h))
    | inr (bad, e) ↦ absurd (let h' = rw e at h in cc h')
  ]),
  λ t. rw ((expand_glob_iff raw texts).1 t) refl,
)

AllMean-append :
    (x : Outside) (parse : Bytes → Option Parsed) (texts more : List Bytes) (ts us : List Url)
    → AllMean x parse texts ts
    → AllMean x parse more us
    → AllMean x parse (texts ++ more) (ts ++ us)
AllMean-append x parse [] more [] us _ ms = ms
AllMean-append x parse [] more (t ∷ ts) us m _ = absurd m
AllMean-append x parse (one ∷ texts) more [] us m _ = absurd m
AllMean-append x parse (one ∷ texts) more (t ∷ ts) us (m, ms) ns =
    (m, AllMean-append x parse texts more ts us ms ns)

-- The targets of two lists of texts, apart.
AllMean-parts :
    (x : Outside) (parse : Bytes → Option Parsed) (texts more : List Bytes) (all : List Url)
    → AllMean x parse (texts ++ more) all
    → (ts : List Url) × (us : List Url) × (all ≡ ts ++ us)
      × AllMean x parse texts ts
      × AllMean x parse more us
AllMean-parts x parse [] more all m = ([], all, refl, tt, m)
AllMean-parts x parse (one ∷ texts) more [] m = absurd m
AllMean-parts x parse (one ∷ texts) more (t ∷ all) (m, ms) =
    let (ts, us, e, a, b) = AllMean-parts x parse texts more all ms in
    (t ∷ ts, us, ap (◌∷◌ t) e, (m, a), b)

pub targets_of_sound :
    (x : Outside) (parse : Bytes → Option Parsed) (globoff : Bool) (urls : List Bytes)
    {ts : List Url}
    → targets_of x parse globoff urls ≡ ok ts
    → (texts : List Bytes) × AllTexts globoff urls texts × AllMean x parse texts ts
unfolding targets_of
targets_of_sound x parse globoff [] {ts} h =
    ([], no_urls, subst (AllMean x parse []) (ok_injective h) tt)
targets_of_sound x parse globoff (raw ∷ urls) {ts} h =
    let (texts, h1, h2) = >>=-eq-ok (expanded_of globoff raw) _ h in
    let (targets, h3, h4) = >>=-eq-ok (parse_each x parse texts) _ h2 in
    let (others, h5, h6) = >>=-eq-ok (targets_of x parse globoff urls) _ h4 in
    let (more, from, means) = targets_of_sound x parse globoff urls h5 in
    (
      texts ++ more,
      with_url raw urls texts more ((expanded_of_iff globoff raw texts).0 h1) from,
      subst (AllMean x parse (texts ++ more)) (ok_injective h6) (
          AllMean-append x parse texts more targets others (parse_each_sound x parse texts h3)
            means),
    )

targets_of_complete :
    (x : Outside) (parse : Bytes → Option Parsed) (globoff : Bool) {urls texts : List Bytes}
    (ts : List Url)
    → AllTexts globoff urls texts
    → AllMean x parse texts ts
    → targets_of x parse globoff urls ≡ ok ts
unfolding targets_of
targets_of_complete x parse globoff [] no_urls m = refl
targets_of_complete x parse globoff (t ∷ ts) no_urls m = absurd m
targets_of_complete x parse globoff all (with_url raw urls texts more from rest) m =
    let (ts, us, e, a, b) = AllMean-parts x parse texts more all m in
    rw
      (
        (expanded_of_iff globoff raw texts).1 from,
        parse_each_complete x parse texts ts a,
        targets_of_complete x parse globoff us rest b,
        e,
      )
      refl

-- Two targets for which one connection serves.
pub record SameOrigin (x : Outside) (first t : Url) : Type 0 where
  pub scheme : t.scheme ≡ first.scheme
  pub hostname : x.equal_fold t.hostname first.hostname ≡ true
  pub port : target_port t ≡ target_port first

same_origin_iff :
    (x : Outside) (first t : Url) → (same_origin x first t ≡ true) ↔ SameOrigin x first t
unfolding same_origin
same_origin_iff x first t = (
  λ h. record {
    scheme = (same_iff t.scheme first.scheme).0 (ground (arith, h));
    hostname = ground (arith, h);
    port = (same_iff (target_port t) (target_port first)).0 (ground (arith, h));
  },
  λ r. ground (
    arith,
    (same_iff t.scheme first.scheme).1 r.scheme,
    r.hostname,
    (same_iff (target_port t) (target_port first)).1 r.port,
  ),
)

all_same_origin_iff :
    (x : Outside) (first : Url) (ts : List Url)
    → (all_same_origin x first ts ≡ true) ↔ All (SameOrigin x first) ts
unfolding all_same_origin
all_same_origin_iff x first [] = (λ _. tt, λ _. refl)
all_same_origin_iff x first (t ∷ ts) =
    let (a, b) = same_origin_iff x first t in
    let (c, d) = all_same_origin_iff x first ts in
    (λ h. (a (ground (arith, h)), c (ground (arith, h))), λ (p, ps). ground (arith, b p, d ps))

abbrev pub OneOrigin : Outside → List Url → Type 0
OneOrigin x [] = ⊥
OneOrigin x (first ∷ ts) = All (SameOrigin x first) ts

check_targets_sound :
    (x : Outside) (found ts : List Url)
    → check_targets x found ≡ ok ts
    → (found ≡ ts) × (length ts ≤ max_glob_urls) × OneOrigin x ts
unfolding check_targets one_origin
check_targets_sound x [] ts h = ground (arith, h)
check_targets_sound x (first ∷ found) ts h =
    let same_list : first ∷ found ≡ ts = ground (arith, h) in
    let few : length (first ∷ found) ≤ max_glob_urls = ground (arith, h) in
    let origin : all_same_origin x first found ≡ true = ground (arith, h) in
    (
      same_list,
      subst (λ us. length us ≤ max_glob_urls) same_list few,
      subst (OneOrigin x) same_list ((all_same_origin_iff x first found).0 origin),
    )

check_targets_complete :
    (x : Outside) (ts : List Url)
    → length ts ≤ max_glob_urls
    → OneOrigin x ts
    → check_targets x ts ≡ ok ts
unfolding check_targets one_origin
check_targets_complete x [] few o = absurd o
check_targets_complete x (first ∷ ts) few o =
    ground (arith, few, (all_same_origin_iff x first ts).1 o)

-- The targets that the arguments stand for, all of one origin.
pub record Accepts (x : Outside) (parse : Bytes → Option Parsed) (o : Options) (ts : List Url)
    : Type 0 where
  pub texts : List Bytes
  pub from : AllTexts o.globoff o.urls texts
  pub means : AllMean x parse texts ts
  pub few : length ts ≤ max_glob_urls
  pub origin : OneOrigin x ts

-- `parseTargets` accepts the URL arguments with some targets if and only if these are, one for one and
-- in order, the targets of the texts that the arguments stand for (each argument itself with
-- --globoff, and else what its globs denote), and they are at least one, at most 1000 and have one
-- scheme, host name and port. A text has a target if it parses with a scheme that is http or https
-- when lowered, a host and a host name, without user, and with no port or a number up to 65535.
pub parse_targets_iff :
    (x : Outside) (parse : Bytes → Option Parsed) (o : Options) (ts : List Url)
    → (parse_targets x parse o ≡ ok ts) ↔ Accepts x parse o ts
unfolding parse_targets
parse_targets_iff x parse o ts = (
  λ h.
      let (found, h1, h2) = >>=-eq-ok (targets_of x parse o.globoff o.urls) _ h in
      let (same_list, few, origin) = check_targets_sound x found ts h2 in
      let (texts, from, means) = targets_of_sound x parse o.globoff o.urls h1 in
      record {
        texts = texts;
        from = from;
        means = subst (AllMean x parse texts) same_list means;
        few = few;
        origin = origin;
      },
  λ r.
      rw (targets_of_complete x parse o.globoff ts r.from r.means)
        (check_targets_complete x ts r.few r.origin),
)
