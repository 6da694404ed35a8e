-- ===== src/Connect/Defs.antt =====
-- internal/curlu/client.go: `parseURL`, `targetPort` and `parseTargets`. An exit error is its code.
use curlu.Base.{
  ℕ, Bool, true, false, not, ◌&&◌, ◌||◌, Option, none, some, List, [], ◌∷◌, ◌++◌, if◌then◌else◌,
  Bytes, codes, length, ltb, Result, ok, err, ◌>>=◌, same,
}
use curlu.Number.{parse_uint, max_u16}
use curlu.Glob.{GlobError, expand_glob, max_glob_urls}
use curlu.Options.{Options, Outside}
use curlu.Request.{Url}
use curlu.Resolve.{canonical_port}

-- A `url.URL` of `url.Parse`, by its fields and methods that the source asks for.
pub record Parsed : Type 0 where
  pub scheme : Bytes
  pub host : Bytes
  pub has_user : Bool
  pub hostname : Bytes
  pub port : Bytes
  pub request_uri : Bytes

abbrev pub is_empty : {A : Type 0} → List A → Bool
is_empty [] = true
is_empty (_ ∷ _) = false

abbrev pub is_some : {A : Type 0} → Option A → Bool
is_some none = false
is_some (some _) = true

abbrev pub http : Bytes
http = codes "http"

abbrev pub https : Bytes
https = codes "https"

unfoldable pub url_of : Bytes → Parsed → Url
url_of scheme p = record {
  scheme = scheme;
  hostname = p.hostname;
  port = p.port;
  request_uri = p.request_uri;
}

unfoldable pub checked_url : Outside → Parsed → Result ℕ Url
unfolding url_of
checked_url x p =
    let scheme = x.lower p.scheme in
    if is_empty p.scheme || is_empty p.host
    then err 3
    else if not (same scheme http || same scheme https)
    then err 1
    else if p.has_user || is_empty p.hostname
    then err 3
    else if not (is_empty p.port) && not (is_some (parse_uint 10 max_u16 p.port))
    then err 3
    else ok (url_of scheme p)

unfoldable pub parse_url : Outside → (Bytes → Option Parsed) → Bytes → Result ℕ Url
parse_url x parse raw = elim (parse raw) [ none ↦ err 3 | some p ↦ checked_url x p ]

unfoldable pub target_port : Url → Bytes
target_port t =
    if not (is_empty t.port)
    then canonical_port t.port
    else if same t.scheme https
    then codes "443"
    else codes "80"

-- How `parseTargets` fails: with an exit code, or at `targets[0]` of no targets.
pub data TargetError : Type 0 where
  exit : ℕ → TargetError
  index_out_of_range : TargetError

abbrev pub exiting : {A : Type 0} → Result ℕ A → Result TargetError A
exiting (err n) = err (exit n)
exiting (ok a) = ok a

abbrev pub malformed : {A : Type 0} → Result GlobError A → Result TargetError A
malformed (err _) = err (exit 3)
malformed (ok a) = ok a

unfoldable pub parse_each :
    Outside → (Bytes → Option Parsed) → List Bytes → Result TargetError (List Url)
parse_each x parse [] = ok []
parse_each x parse (one ∷ expanded) = exiting (parse_url x parse one) >>= λ target.
    parse_each x parse expanded >>= λ targets. ok (target ∷ targets)

unfoldable pub expanded_of : Bool → Bytes → Result TargetError (List Bytes)
expanded_of true raw = ok (raw ∷ [])
expanded_of false raw = malformed (expand_glob raw)

unfoldable pub targets_of :
    Outside → (Bytes → Option Parsed) → Bool → List Bytes → Result TargetError (List Url)
targets_of x parse globoff [] = ok []
targets_of x parse globoff (raw ∷ urls) = expanded_of globoff raw >>= λ expanded.
    parse_each x parse expanded >>= λ targets.
    targets_of x parse globoff urls >>= λ more. ok (targets ++ more)

unfoldable pub same_origin : Outside → Url → Url → Bool
same_origin x first target =
    same target.scheme first.scheme
    && x.equal_fold target.hostname first.hostname
    && same (target_port target) (target_port first)

unfoldable pub all_same_origin : Outside → Url → List Url → Bool
all_same_origin x first [] = true
all_same_origin x first (target ∷ targets) =
    same_origin x first target && all_same_origin x first targets

unfoldable pub one_origin : Outside → List Url → Result TargetError (List Url)
one_origin x [] = err index_out_of_range
one_origin x (first ∷ targets) =
    if all_same_origin x first targets then ok (first ∷ targets) else err (exit 2)

unfoldable pub check_targets : Outside → List Url → Result TargetError (List Url)
check_targets x targets =
    if ltb max_glob_urls (length targets) then err (exit 3) else one_origin x targets

unfoldable pub parse_targets :
    Outside → (Bytes → Option Parsed) → Options → Result TargetError (List Url)
parse_targets x parse o = targets_of x parse o.globoff o.urls >>= check_targets x
