-- ===== src/Text/Defs.antt =====
-- `strings.HasPrefix`, `Cut`, `Index`, `Split`, `Join`, `Contains`, `TrimSpace`, `Fields`.
-- White space is Unicode's: a character of it is recognised by its UTF-8 bytes, and as its lead
-- byte never stands inside another character, the bytes may be searched in order.
use curlu.Base.{
  ℕ, zero, suc, Bool, true, false, ◌&&◌, ◌||◌, Option, none, some, List, [], ◌∷◌, ◌++◌, ◌+◌, leb,
  ◌==◌, if◌then◌else◌, Bytes,
}

-- The rest behind a prefix.
unfoldable pub strip_prefix : Bytes → Bytes → Option Bytes
strip_prefix [] s = some s
strip_prefix (p ∷ ps) [] = none
strip_prefix (p ∷ ps) (c ∷ s) = let rest = strip_prefix ps s in if p == c then rest else none

unfoldable pub has_prefix : Bytes → Bytes → Bool
has_prefix s [] = true
has_prefix [] (p ∷ ps) = false
has_prefix (c ∷ s) (p ∷ ps) = p == c && has_prefix s ps

unfoldable pub contains_byte : ℕ → Bytes → Bool
contains_byte b [] = false
contains_byte b (c ∷ s) = c == b || contains_byte b s

abbrev pub cons_first : ℕ → Option (Bytes × Bytes) → Option (Bytes × Bytes)
cons_first c none = none
cons_first c (some (a, b)) = some (c ∷ a, b)

-- `strings.Cut` at a byte, and `IndexByte` with the slices before and behind the index.
unfoldable pub cut : ℕ → Bytes → Option (Bytes × Bytes)
cut sep [] = none
cut sep (c ∷ s) = let later = cut sep s in if c == sep then some ([], s) else cons_first c later

-- `strings.Index` with the slices before the match and behind it.
unfoldable pub find : Bytes → Bytes → Option (Bytes × Bytes)
find pat [] = none
find pat (c ∷ s) =
    let later = find pat s in
    elim (strip_prefix pat (c ∷ s)) [ some rest ↦ some ([], rest) | none ↦ cons_first c later ]

abbrev pub cons_part : ℕ → List Bytes → List Bytes
cons_part c [] = (c ∷ []) ∷ []
cons_part c (p ∷ ps) = (c ∷ p) ∷ ps

unfoldable pub split : ℕ → Bytes → List Bytes
split sep [] = [] ∷ []
split sep (c ∷ s) = let rest = split sep s in if c == sep then [] ∷ rest else cons_part c rest

unfoldable pub join : ℕ → List Bytes → Bytes
join sep [] = []
join sep (p ∷ []) = p
join sep (p ∷ q ∷ ps) = p ++ sep ∷ join sep (q ∷ ps)

-- The ASCII part of `strings.ToLower`, for texts that were checked to be ASCII.
unfoldable pub lower_byte : ℕ → ℕ
lower_byte c = if leb b'A' c && leb c b'Z' then c + 32 else c

unfoldable pub to_lower : Bytes → Bytes
unfolding lower_byte
to_lower [] = []
to_lower (c ∷ s) = lower_byte c ∷ to_lower s

abbrev ascii_space : ℕ → Bool
ascii_space c = leb 9 c && leb c 13 || c == 32

-- The three-byte characters of `unicode.IsSpace`.
abbrev wide_space : ℕ → ℕ → ℕ → Bool
wide_space a b c =
    a == 0xe1 && b == 0x9a && c == 0x80
    || a == 0xe2 && b == 0x80 && (leb 0x80 c && leb c 0x8a || c == 0xa8 || c == 0xa9 || c == 0xaf)
    || a == 0xe2 && b == 0x81 && c == 0x9f
    || a == 0xe3 && b == 0x80 && c == 0x80

-- The number of bytes of the white space character in front, or 0.
unfoldable pub space_size : Bytes → ℕ
space_size [] = 0
space_size (a ∷ []) = if ascii_space a then 1 else 0
space_size (a ∷ b ∷ s) =
    if ascii_space a
    then 1
    else if a == 0xc2 && (b == 0x85 || b == 0xa0)
    then 2
    else elim s [ [] ↦ 0 | c ∷ _ ↦ if wide_space a b c then 3 else 0 ]

-- `strings.Fields`: cut at every white space, of which `skip` bytes are still to be passed over.
unfoldable pub words : ℕ → Bytes → List Bytes
unfolding space_size
words skip [] = [] ∷ []
words (suc skip) (c ∷ s) = words skip s
words zero (c ∷ s) = elim (space_size (c ∷ s)) [
  | zero ↦ cons_part c (words 0 s)
  | suc skip ↦ [] ∷ words skip s
]

unfoldable pub non_empty : List Bytes → List Bytes
non_empty [] = []
non_empty ([] ∷ ps) = non_empty ps
non_empty ((c ∷ p) ∷ ps) = (c ∷ p) ∷ non_empty ps

unfoldable pub fields : Bytes → List Bytes
unfolding words non_empty
fields s = non_empty (words 0 s)

-- `strings.TrimSpace`.
unfoldable pub trim_left : ℕ → Bytes → Bytes
unfolding space_size
trim_left skip [] = []
trim_left (suc skip) (c ∷ s) = trim_left skip s
trim_left zero (c ∷ s) = elim (space_size (c ∷ s)) [ zero ↦ c ∷ s | suc skip ↦ trim_left skip s ]

abbrev pub cons_unless_end : ℕ → Bytes → Bytes
cons_unless_end c [] = []
cons_unless_end c (d ∷ s) = c ∷ d ∷ s

unfoldable pub trim_right : ℕ → Bytes → Bytes
unfolding space_size
trim_right skip [] = []
trim_right (suc skip) (c ∷ s) = cons_unless_end c (trim_right skip s)
trim_right zero (c ∷ s) = elim (space_size (c ∷ s)) [
  | zero ↦ c ∷ trim_right 0 s
  | suc skip ↦ cons_unless_end c (trim_right skip s)
]

unfoldable pub trim_space : Bytes → Bytes
unfolding trim_left trim_right
trim_space s = trim_right 0 (trim_left 0 s)
