-- ===== src/Options/Value.antt =====
-- internal/curlu/options.go: the values of options. `resolveUTLSHello` stands in utls.go.
use curlu.Base.{
  ℕ, Bool, true, false, not, ◌&&◌, ◌||◌, Option, none, some, List, [], ◌∷◌, ◌+◌, ◌-◌, ◌*◌, ◌%◌, leb,
  ltb, ◌==◌, if◌then◌else◌, Bytes, length, take, drop, Result, ok, err, or_err, same,
}
use curlu.Text.{strip_prefix, contains_byte, cut, split}
use curlu.Number.{digit_value, parse_uint, format_uint, max_u16}
use curlu.Options.Defs.{
  ResolveEntry, ClientHelloId, ValueError, invalid_timeout, negative_timeout, invalid_resolve,
  invalid_hex_id, odd_alpn_hex, invalid_alpn_hex, not_a_number, infinite, below_zero, too_many,
  nanoseconds, Outside,
}

unfoldable pub parse_seconds : Outside → Bytes → Result ValueError ℕ
parse_seconds x value = elim (x.parse_float value) [
  | none ↦ err invalid_timeout
  | some not_a_number ↦ err invalid_timeout
  | some infinite ↦ err invalid_timeout
  | some below_zero ↦ err negative_timeout
  | some too_many ↦ err invalid_timeout
  | some (nanoseconds n) ↦ ok n
]

unfoldable pub parse_hex_id : Bytes → Result ValueError ℕ
unfolding parse_uint strip_prefix
parse_hex_id value =
    if not (length value == 6)
    then err invalid_hex_id
    else elim (strip_prefix (b'0' ∷ b'x' ∷ []) value) [
      | none ↦ err invalid_hex_id
      | some s ↦ or_err (parse_uint 16 max_u16 s) invalid_hex_id
    ]

-- `hex.DecodeString` of a text of even length.
unfoldable pub decode_hex : Bytes → Option Bytes
unfolding digit_value
decode_hex [] = some []
decode_hex (a ∷ []) = none
decode_hex (a ∷ b ∷ s) =
    let rest = decode_hex s in
    if leb 16 (digit_value a) || leb 16 (digit_value b)
    then none
    else elim rest [ none ↦ none | some raw ↦ some ((digit_value a * 16 + digit_value b) ∷ raw) ]

unfoldable pub parse_alpn_hex : Bytes → Result ValueError Bytes
unfolding decode_hex
parse_alpn_hex [] = err odd_alpn_hex
parse_alpn_hex (c ∷ value) =
    if not (length (c ∷ value) % 2 == 0)
    then err odd_alpn_hex
    else or_err (decode_hex (c ∷ value)) invalid_alpn_hex

-- The table's exact name, or else the first name that agrees up to case.
unfoldable pub exact_hello : Bytes → List (Bytes × ClientHelloId) → Option (ClientHelloId × Bytes)
exact_hello name [] = none
exact_hello name ((n, id) ∷ ids) =
    let later = exact_hello name ids in if same n name then some (id, name) else later

unfoldable pub folded_hello :
    (Bytes → Bytes → Bool) → Bytes → List (Bytes × ClientHelloId) → Option (ClientHelloId × Bytes)
folded_hello equal_fold name [] = none
folded_hello equal_fold name ((n, id) ∷ ids) =
    let later = folded_hello equal_fold name ids in
    if equal_fold name n then some (id, n) else later

unfoldable pub resolve_utls_hello : Outside → Bytes → Option (ClientHelloId × Bytes)
unfolding exact_hello folded_hello
resolve_utls_hello x name = elim (exact_hello name x.hello_by_name) [
  | some found ↦ some found
  | none ↦ folded_hello x.equal_fold name x.hello_by_name
]

-- `splitResolveHost`; both its errors become `invalid` in `parseResolve`.
abbrev bracketed : Option (Bytes × Bytes) → Option (Bytes × Bytes)
bracketed none = none
bracketed (some ([], rest)) = none
bracketed (some (c ∷ host, rest)) = elim rest [
  | [] ↦ none
  | b ∷ port ↦ if b == b':' then some (c ∷ host, port) else none
]

unfoldable pub split_resolve_host : Bytes → Option (Bytes × Bytes)
unfolding cut
split_resolve_host [] = none
split_resolve_host (c ∷ s) = if c == b'[' then bracketed (cut b']' s) else cut b':' (c ∷ s)

unfoldable pub parse_resolve_port : Bytes → Option Bytes
unfolding parse_uint format_uint
parse_resolve_port value = elim (parse_uint 10 max_u16 value) [
  | none ↦ none
  | some n ↦ some (format_uint n)
]

-- The text between brackets, where they stand around it and it is not empty.
unfoldable pub unbracket : Bytes → Bytes
unbracket [] = []
unbracket (c ∷ part) =
    let size = length part in
    if c == b'[' && same (drop (size - 1) part) (b']' ∷ []) && ltb 1 size
    then take (size - 1) part
    else c ∷ part

unfoldable pub parse_each_addr : Outside → List Bytes → Option (List Bytes)
unfolding unbracket
parse_each_addr x [] = some []
parse_each_addr x ([] ∷ parts) = none
parse_each_addr x ((c ∷ part) ∷ parts) =
    let rest = parse_each_addr x parts in
    elim (x.parse_ip (unbracket (c ∷ part))) [
      | none ↦ none
      | some ip ↦ elim rest [ none ↦ none | some ips ↦ some (ip ∷ ips) ]
    ]

unfoldable pub parse_resolve_addrs : Outside → Bytes → Option (List Bytes)
unfolding parse_each_addr split
parse_resolve_addrs x value = parse_each_addr x (split b',' value)

unfoldable pub canonical_resolve_host : Outside → Bytes → Bytes
canonical_resolve_host x host =
    if same host (b'*' ∷ [])
    then host
    else elim (x.parse_ip host) [ some ip ↦ ip | none ↦ x.lower host ]

-- The sign in front: whether the entry is removed, and the text behind it.
abbrev pub resolve_sign : Bytes → Bool × Bytes
resolve_sign [] = (false, [])
resolve_sign (c ∷ s) =
    if c == b'-' then (true, s) else if c == b'+' then (false, s) else (false, c ∷ s)

abbrev pub resolve_removal : Bytes → Bytes → Option ResolveEntry
resolve_removal host rest = elim (parse_resolve_port rest) [
  | none ↦ none
  | some port ↦ some (record { host = host; port = port; addrs = []; remove = true })
]

abbrev pub resolve_addition : Outside → Bytes → Bytes → Bytes → Option ResolveEntry
resolve_addition x host port_text addrs_text = elim (parse_resolve_port port_text) [
  | none ↦ none
  | some port ↦ elim (parse_resolve_addrs x addrs_text) [
    | none ↦ none
    | some addrs ↦ some (record { host = host; port = port; addrs = addrs; remove = false })
  ]
]

abbrev pub resolve_rest : Outside → Bool → Bytes → Bytes → Option ResolveEntry
resolve_rest x true host rest = if contains_byte b':' rest then none else resolve_removal host rest
resolve_rest x false host rest = elim (cut b':' rest) [
  | none ↦ none
  | some (port_text, addrs_text) ↦ resolve_addition x host port_text addrs_text
]

unfoldable pub parse_resolve : Outside → Bytes → Result ValueError ResolveEntry
parse_resolve x value =
    let (remove, s) = resolve_sign value in
    elim (split_resolve_host s) [
      | none ↦ err invalid_resolve
      | some ([], rest) ↦ err invalid_resolve
      | some (c ∷ host, rest) ↦
          or_err (resolve_rest x remove (canonical_resolve_host x (c ∷ host)) rest) invalid_resolve
    ]
