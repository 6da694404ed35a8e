-- ===== src/Number/Defs.antt =====
-- `ParseUint(s, base, bits)` for a base up to 36, given by its largest value `2^bits - 1`, and
-- `FormatUint(n, 10)`. Every error of `ParseUint` is `none`. The running value stays below
-- `max * 36 + 36`, so that the 64-bit word of the source never wraps for the widths in use.
use curlu.Base.{
  replicate, length, ◌++◌, ℕ, zero, suc, true, false, ◌&&◌, Option, none, some, [], ◌∷◌, ◌+◌, ◌-◌,
  ◌*◌, ◌/◌, ◌%◌, ltb, leb, ◌==◌, if◌then◌else◌, Bytes,
}

-- The value of a digit; 36 for a byte that is none.
unfoldable pub digit_value : ℕ → ℕ
digit_value c =
    if leb b'0' c && leb c b'9'
    then c - b'0'
    else if leb b'a' c && leb c b'z'
    then c - b'a' + 10
    else if leb b'A' c && leb c b'Z'
    then c - b'A' + 10
    else 36

unfoldable pub scan : ℕ → ℕ → Bytes → ℕ → Option ℕ
scan base max [] n = some n
scan base max (c ∷ s) n =
    let m = n * base + digit_value c in
    let rest = scan base max s m in
    if leb base (digit_value c) then none else if ltb max m then none else rest

unfoldable pub parse_uint : ℕ → ℕ → Bytes → Option ℕ
unfolding scan digit_value
parse_uint base max [] = none
parse_uint base max (c ∷ s) = scan base max (c ∷ s) 0

abbrev pub max_u8 : ℕ
max_u8 = 255

abbrev pub max_u16 : ℕ
max_u16 = 65535

abbrev pub max_u32 : ℕ
max_u32 = 4294967295

-- The decimal digits of a positive number, in front of `out`. The number itself is enough fuel.
unfoldable pub digits : ℕ → ℕ → Bytes → Bytes
digits zero n out = out
digits (suc f) n out = elim (n == 0) [
  | true ↦ out
  | false ↦ digits f (n / 10) ((b'0' + n % 10) ∷ out)
]

unfoldable pub format_uint : ℕ → Bytes
unfolding digits
format_uint n = if n == 0 then b'0' ∷ [] else digits n n []

-- `fmt.Sprintf("%0*d", width, n)`.
unfoldable pub pad : ℕ → ℕ → Bytes
pad width n = replicate (width - length (format_uint n)) b'0' ++ format_uint n
