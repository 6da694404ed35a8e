-- ===== src/Glob/Defs.antt =====
-- internal/curlu/glob.go: the expansion of `{a,b}` sets and `[N-M]` ranges, as the source runs it.
-- The loop drops a varying number of bytes each round, so it runs on fuel: one unit a byte.
use curlu.Base.{
  ℕ, zero, suc, Bool, ◌||◌, Option, none, some, List, [], ◌∷◌, ◌++◌, map, ◌+◌, ◌-◌, ◌*◌, ltb, leb,
  ◌==◌, if◌then◌else◌, Bytes, codes, length, Result, ok, err, ◌>>=◌, or_err,
}
use curlu.Text.{find, cut, split}
use curlu.Number.{parse_uint, max_u32, pad}

-- The `fmt.Errorf` calls. `out_of_fuel` belongs to the model only.
pub data GlobError : Type 0 where
  unmatched : ℕ → GlobError
  too_many : GlobError
  bad_range : Bytes → GlobError
  out_of_fuel : GlobError

abbrev pub max_glob_urls : ℕ
max_glob_urls = 1000

abbrev pub backslash : ℕ
backslash = b'\\'

-- `for n := first; n <= last; n++`, by the number of rounds.
unfoldable pub range_items : ℕ → ℕ → ℕ → List Bytes
range_items width n zero = []
range_items width n (suc k) = pad width n ∷ range_items width (n + 1) k

unfoldable pub range_width : Bytes → ℕ
range_width [] = 0
range_width (c ∷ []) = 0
range_width (c ∷ d ∷ lo) = if c == b'0' then length (c ∷ d ∷ lo) else 0

unfoldable pub expand_range : Bytes → Result GlobError (List Bytes)
unfolding range_items range_width pad
expand_range spec = do
  (lo, hi) ← or_err (cut b'-' spec) (bad_range spec)
  first ← or_err (parse_uint 10 max_u32 lo) (bad_range spec)
  last ← or_err (parse_uint 10 max_u32 hi) (bad_range spec)
  if ltb last first
      then err (bad_range spec)
      else if leb max_glob_urls (last - first)
      then err too_many
      else ok (range_items (range_width lo) first (last - first + 1))

-- `strings.IndexAny(s, "/?")`, as the slices before and from the index.
unfoldable pub break_path : Bytes → Bytes × Bytes
break_path [] = ([], [])
break_path (c ∷ s) =
    let (a, b) = break_path s in if c == b'/' || c == b'?' then ([], c ∷ s) else (c ∷ a, b)

abbrev with_scheme : Bytes → Bytes × Bytes → Bytes × Bytes
with_scheme scheme (authority, path) = (scheme ++ (codes "://" ++ authority), path)

-- `raw[:pathStart]` and `raw[pathStart:]`.
unfoldable pub split_url : Bytes → Bytes × Bytes
unfolding break_path
split_url raw = elim (find (codes "://") raw) [
  | none ↦ (raw, [])
  | some (scheme, behind) ↦ with_scheme scheme (break_path behind)
]

-- The closure `flush`.
abbrev pub flush : List Bytes → Bytes → List Bytes
flush out literal = map (λ o. o ++ literal) out

-- The two nested loops over prefixes and items.
unfoldable pub combine : List Bytes → List Bytes → List Bytes
combine [] items = []
combine (prefix ∷ out) items = map (λ item. prefix ++ item) items ++ combine out items

-- `strings.IndexByte("{}[],", c) >= 0`.
unfoldable pub is_special : ℕ → Bool
is_special c = c == b'{' || c == b'}' || c == b'[' || c == b']' || c == b','

abbrev pub Round : Type 0
Round = Bytes → List Bytes → Bytes → Result GlobError (List Bytes)

unfoldable pub group_items : ℕ → Bytes → Result GlobError (List Bytes)
group_items c body = if c == b'{' then ok (split b',' body) else expand_range body

-- `case '{', '['` behind the search for the closer.
unfoldable pub group :
    Round → ℕ → Option (Bytes × Bytes) → List Bytes → Bytes → Result GlobError (List Bytes)
group next c none out literal = err (unmatched c)
group next c (some (body, rest)) out literal = do
  items ← group_items c body
  if ltb max_glob_urls (length out * length items)
      then err too_many
      else next rest (combine (flush out literal) items) []

-- `case '\\'`, which falls out of the switch unless a special byte follows.
unfoldable pub escape : Round → Bytes → List Bytes → Bytes → Result GlobError (List Bytes)
escape next [] out literal = next [] out (literal ++ backslash ∷ [])
escape next (e ∷ rest) out literal =
    if is_special e
    then next rest out (literal ++ e ∷ [])
    else next (e ∷ rest) out (literal ++ backslash ∷ [])

unfoldable pub step : Round → ℕ → Bytes → List Bytes → Bytes → Result GlobError (List Bytes)
step next c rest out literal =
    if c == backslash
    then escape next rest out literal
    else if c == b'{'
    then group next c (cut b'}' rest) out literal
    else if c == b'['
    then group next c (cut b']' rest) out literal
    else if c == b'}' || c == b']'
    then err (unmatched c)
    else next rest out (literal ++ c ∷ [])

unfoldable pub loop : ℕ → Round
unfolding step escape group
loop f [] out literal = ok (flush out literal)
loop zero (c ∷ rest) out literal = err out_of_fuel
loop (suc f) (c ∷ rest) out literal = step (loop f) c rest out literal

unfoldable pub expand_path : Bytes → Bytes → Result GlobError (List Bytes)
unfolding loop group_items is_special combine
expand_path prefix path = loop (length path) path (prefix ∷ []) []

unfoldable pub expand_glob : Bytes → Result GlobError (List Bytes)
unfolding expand_path
expand_glob raw = let (prefix, path) = split_url raw in expand_path prefix path
