-- ===== src/Glob/Range.antt =====
-- `[N-M]` ranges.
use curlu.Base.{
  ℕ, zero, suc, ◌+◌, ◌-◌, ◌≤◌, ◌<◌, List, [], ◌∷◌, ◌++◌, max, ◌≡◌, ◌≢◌, ◌↔◌, refl, arith, Bytes, ok,
  length, or_err, or_err-eq-ok, >>=-eq-ok, some, sym, ap, ◌∙◌, map, All, replicate, length-append,
  length-replicate,
}
use mathlib.Core.Path.{ap₂, subst}
use native.Mathlib.Decide.{ℕ_discrete}
use curlu.Number.Decimal.{parse_uint-pad, parse_uint-le}
use curlu.Text.{cut, cut_sound, Lacks, cut-append}
use curlu.Number.{pad, parse_uint, max_u32, format_uint}
use curlu.Glob.Defs.{range_items, range_width, expand_range, max_glob_urls, bad_range}

pub length-range_items : (width n k : ℕ) → length (range_items width n k) ≡ k
unfolding range_items
length-range_items width n zero = refl
length-range_items width n (suc k) = omega (arith, length-range_items width (n + 1) k)

-- The decimal spelling of a number, with zeros in front if it is shorter than the width.
pub record Spells (width n : ℕ) (item : Bytes) : Type 0 where
  pub zeros : ℕ
  pub spelled : item ≡ replicate zeros b'0' ++ format_uint n
  pub wide : length item ≡ max width (length (format_uint n))

-- The spellings of consecutive numbers.
abbrev pub Spellings : ℕ → ℕ → List Bytes → Type 0
Spellings width n [] = Unit
Spellings width n (item ∷ items) = Spells width n item × Spellings width (n + 1) items

-- The width that a lower bound asks for: its own if it begins with a zero and goes on, and else none.
pub data AsksFor : Bytes → ℕ → Type 0 where
  padded : (d : ℕ) (s : Bytes) → AsksFor (b'0' ∷ d ∷ s) (suc (suc (length s)))
  unpadded : (lo : Bytes) → ((d : ℕ) (s : Bytes) → lo ≢ b'0' ∷ d ∷ s) → AsksFor lo 0

-- A range: two numbers on the sides of its first dash, and one item for each number from the one to
-- the other.
pub record IsRange (spec : Bytes) (items : List Bytes) : Type 0 where
  pub lo : Bytes
  pub hi : Bytes
  pub first : ℕ
  pub last : ℕ
  pub width : ℕ
  pub spells : spec ≡ lo ++ b'-' ∷ hi
  pub first_dash : Lacks b'-' lo
  pub reads_lo : parse_uint 10 max_u32 lo ≡ some first
  pub reads_hi : parse_uint 10 max_u32 hi ≡ some last
  pub ordered : first ≤ last
  pub bounded : last - first < max_glob_urls
  pub asks : AsksFor lo width
  pub counts : length items ≡ last - first + 1
  pub numbers : Spellings width first items

pad-Spells : (width n : ℕ) → Spells width n (pad width n)
unfolding pad
pad-Spells width n = record {
  zeros = width - length (format_uint n);
  spelled = refl;
  wide = omega (
    arith,
    length-append (replicate (width - length (format_uint n)) b'0') (format_uint n),
    length-replicate {A = ℕ} (width - length (format_uint n)) b'0',
  );
}

Spells-pad : (width n : ℕ) (item : Bytes) → Spells width n item → item ≡ pad width n
unfolding pad
Spells-pad width n item s =
    let together = length-append (replicate s.zeros b'0') (format_uint n) in
    let many : s.zeros ≡ width - length (format_uint n) =
      omega (arith, s.wide, ap length s.spelled, together, length-replicate {A = ℕ} s.zeros b'0') in
    s.spelled ∙ ap (λ k. replicate k b'0' ++ format_uint n) many

range_items-Spellings : (width n k : ℕ) → Spellings width n (range_items width n k)
unfolding range_items
range_items-Spellings width n zero = tt
range_items-Spellings width n (suc k) = (pad-Spells width n, range_items-Spellings width (n + 1) k)

Spellings-range_items :
    (width n : ℕ) (items : List Bytes)
    → Spellings width n items
    → items ≡ range_items width n (length items)
unfolding range_items
Spellings-range_items width n [] _ = refl
Spellings-range_items width n (item ∷ items) (s, more) =
    ap₂ ◌∷◌ (Spells-pad width n item s) (Spellings-range_items width (n + 1) items more)

range_width-AsksFor : (lo : Bytes) → AsksFor lo (range_width lo)
unfolding range_width
range_width-AsksFor [] = unpadded [] (λ d s e. cc e)
range_width-AsksFor (c ∷ []) = unpadded (c ∷ []) (λ d s e. cc e)
range_width-AsksFor (c ∷ d ∷ lo) = elim (ℕ_discrete c b'0') [
  | yes e ↦ subst (λ z. AsksFor (z ∷ d ∷ lo) (range_width (z ∷ d ∷ lo))) (sym e) (padded d lo)
  | no other ↦
      let none_asked : range_width (c ∷ d ∷ lo) ≡ 0 = ground (arith, other) in
      subst (AsksFor (c ∷ d ∷ lo)) (sym none_asked) (unpadded (c ∷ d ∷ lo) (λ d' s e. other (cc e)))
]

AsksFor-range_width : {lo : Bytes} {width : ℕ} → AsksFor lo width → width ≡ range_width lo
unfolding range_width
AsksFor-range_width (padded d s) = omega arith
AsksFor-range_width (unpadded [] other) = refl
AsksFor-range_width (unpadded (c ∷ []) other) = refl
AsksFor-range_width (unpadded (c ∷ d ∷ lo) other) = elim (ℕ_discrete c b'0') [
  | yes e ↦ absurd (other d lo (ap (λ z. z ∷ d ∷ lo) e))
  | no different ↦ ground (arith, different)
]

-- The items as the code makes them.
pub IsRange-range_items :
    {spec : Bytes} {items : List Bytes} (r : IsRange spec items)
    → items ≡ range_items (range_width r.lo) r.first (r.last - r.first + 1)
IsRange-range_items {items} r =
    Spellings-range_items r.width r.first items r.numbers
    ∙ ap (range_items r.width r.first) r.counts
    ∙ ap (λ w. range_items w r.first (r.last - r.first + 1)) (AsksFor-range_width r.asks)

pub expand_range_sound :
    (spec : Bytes) {items : List Bytes} → expand_range spec ≡ ok items → IsRange spec items
unfolding expand_range
expand_range_sound spec {items} h =
    let (parts, e, h1) = >>=-eq-ok (or_err (cut b'-' spec) (bad_range spec)) _ h in
    let (first, e1, h2) =
      >>=-eq-ok (or_err (parse_uint 10 max_u32 parts.0) (bad_range spec)) _ h1 in
    let (last, e2, h3) = >>=-eq-ok (or_err (parse_uint 10 max_u32 parts.1) (bad_range spec)) _ h2 in
    let c = cut_sound b'-' spec (or_err-eq-ok _ _ e) in
    let made : items ≡ range_items (range_width parts.0) first (last - first + 1) =
      ground (arith, h3) in
    record {
      lo = parts.0;
      hi = parts.1;
      first = first;
      last = last;
      width = range_width parts.0;
      spells = c.0;
      first_dash = c.1;
      reads_lo = or_err-eq-ok _ _ e1;
      reads_hi = or_err-eq-ok _ _ e2;
      ordered = ground (arith, h3);
      bounded = ground (arith, h3);
      asks = range_width-AsksFor parts.0;
      counts = ap length made ∙ length-range_items (range_width parts.0) first (last - first + 1);
      numbers =
          subst (Spellings (range_width parts.0) first) (sym made)
            (range_items-Spellings (range_width parts.0) first (last - first + 1));
    }

pub expand_range_complete :
    {spec : Bytes} {items : List Bytes} → IsRange spec items → expand_range spec ≡ ok items
unfolding expand_range
expand_range_complete r =
    rw
      (
        r.spells,
        cut-append b'-' r.lo r.hi r.first_dash,
        r.reads_lo,
        r.reads_hi,
        IsRange-range_items r,
      )
      (ground (arith, r.ordered, r.bounded))

abbrev pub from : ℕ → ℕ → List ℕ
from n zero = []
from n (suc k) = n ∷ from (n + 1) k

range_items-from :
    (width n k : ℕ)
    → n + k ≤ max_u32 + 1
    → map (parse_uint 10 max_u32) (range_items width n k) ≡ map some (from n k)
unfolding range_items
range_items-from width n zero h = refl
range_items-from width n (suc k) h =
    ap₂ ◌∷◌ (parse_uint-pad max_u32 width n (omega arith))
      (range_items-from width (n + 1) k (omega arith))

range_items-width : (width n k : ℕ) → All (λ item. width ≤ length item) (range_items width n k)
unfolding range_items pad
range_items-width width n zero = tt
range_items-width width n (suc k) = (
  omega (
    arith,
    length-append (replicate (width - length (format_uint n)) b'0') (format_uint n),
    length-replicate {A = ℕ} (width - length (format_uint n)) b'0',
  ),
  range_items-width width (n + 1) k,
)

-- The items of an accepted range read back as the consecutive numbers from its lower to its upper
-- bound, and each is at least as wide as the width that a zero-padded lower bound asks for.
pub expand_range_items :
    (spec : Bytes) {items : List Bytes}
    → expand_range spec ≡ ok items
    → (r : IsRange spec items) × (map (parse_uint 10 max_u32) items
        ≡ map some (from r.first (r.last - r.first + 1)))
      × All (λ item. range_width r.lo ≤ length item) items
expand_range_items spec h =
    let r = expand_range_sound spec h in
    let high = parse_uint-le 10 max_u32 r.hi r.reads_hi in
    let order = r.ordered in
    let n = r.last - r.first + 1 in
    (
      r,
      ap (map (parse_uint 10 max_u32)) (IsRange-range_items r)
          ∙ range_items-from (range_width r.lo) r.first n (omega arith),
      subst (All (λ item. range_width r.lo ≤ length item)) (sym (IsRange-range_items r))
          (range_items-width (range_width r.lo) r.first n),
    )

-- `expandRange` accepts exactly the texts N-M, cut at the first dash, whose two parts are decimal
-- numbers below 2^32 with N at most M and fewer than 1000 apart, and returns one item for each number,
-- in order: its decimal spelling, with zeros in front up to the width of N if N begins with a zero and
-- goes on.
pub expand_range_iff :
    (spec : Bytes) (items : List Bytes) → (expand_range spec ≡ ok items) ↔ IsRange spec items
expand_range_iff spec items = (expand_range_sound spec, expand_range_complete)
