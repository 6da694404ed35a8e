-- ===== src/Request/Defs.antt =====
-- internal/curlu/client.go: request headers and `serializeHTTP1`. An error is the exit code; its text
-- is left out. A URL is what the source asks of the `url.URL`.
use curlu.Base.{
  ℕ, zero, suc, Bool, true, false, not, ◌&&◌, ◌||◌, none, some, List, [], ◌∷◌, ◌++◌, leb, ltb,
  if◌then◌else◌, Bytes, codes, Result, ok, err, same,
}
use curlu.Text.{contains_byte, cut, trim_space, to_lower}

-- `Scheme`, `Hostname()`, `Port()` and `RequestURI()`.
pub record Url : Type 0 where
  pub scheme : Bytes
  pub hostname : Bytes
  pub port : Bytes
  pub request_uri : Bytes

pub record RequestHeader : Type 0 where
  pub name : Bytes
  pub wire : Bytes
  pub value : Bytes
  pub suppress : Bool

pub data HeaderError : Type 0 where
  control_characters expected_name_value invalid_field_name : HeaderError

unfoldable pub name_byte : ℕ → Bool
name_byte c =
    leb b'a' c && leb c b'z'
    || leb b'A' c && leb c b'Z'
    || leb b'0' c && leb c b'9'
    || contains_byte c (codes "!#$%&'*+-.^_`|~")

unfoldable pub name_bytes : Bytes → Bool
unfolding name_byte
name_bytes [] = true
name_bytes (c ∷ s) = name_byte c && name_bytes s

unfoldable pub valid_header_name : Bytes → Bool
valid_header_name [] = false
valid_header_name (c ∷ s) = name_bytes (c ∷ s)

unfoldable pub has_control : Bytes → Bool
has_control s = contains_byte 13 s || contains_byte 10 s || contains_byte 0 s

-- The header with this name and this text behind the colon.
unfoldable pub named_header : Bytes → Bytes → Result HeaderError RequestHeader
named_header name rest =
    if not (valid_header_name name) then err invalid_field_name else elim (trim_space rest) [
      | [] ↦ ok (record { name = name; wire = []; value = []; suppress = true })
      | _ ∷ _ ↦
          ok (record { name = name; wire = name ++ b':' ∷ rest; value = rest; suppress = false })
    ]

unfoldable pub parse_request_header : Bytes → Result HeaderError RequestHeader
parse_request_header value =
    if has_control value then err control_characters else elim (cut b':' value) [
      | none ↦ err expected_name_value
      | some ([], rest) ↦ err expected_name_value
      | some (c ∷ before, rest) ↦ named_header (trim_space (c ∷ before)) rest
    ]

-- The names that `suppressedDefaults` maps to true.
unfoldable pub is_default : Bytes → Bool
is_default name =
    same name (codes "host") || same name (codes "user-agent") || same name (codes "accept")

unfoldable pub suppressed : Bytes → List Bytes → Bool
suppressed name [] = false
suppressed name (n ∷ names) = same name n || suppressed name names

abbrev pub with_header :
    RequestHeader
    → Result ℕ (List RequestHeader × List Bytes)
    → Result ℕ (List RequestHeader × List Bytes)
with_header header (err code) = err code
with_header header (ok (headers, names)) =
    let lower_name = to_lower header.name in
    ok (header ∷ headers, if is_default lower_name then lower_name ∷ names else names)

unfoldable pub parse_request_headers : List Bytes → Result ℕ (List RequestHeader × List Bytes)
parse_request_headers [] = ok ([], [])
parse_request_headers (value ∷ values) =
    let rest = parse_request_headers values in
    elim (parse_request_header value) [ err e ↦ err 2 | ok header ↦ with_header header rest ]

-- `strings.Map`, a character at a time: `tail s` is the number of bytes of the character in front
-- of `s` behind its first, as `utf8.DecodeRuneInString` finds it. A character that begins with a
-- byte above 0x7e is above 0x7e itself.
unfoldable pub safe_runes : (Bytes → ℕ) → ℕ → Bytes → Bytes
safe_runes tail skip [] = []
safe_runes tail (suc skip) (c ∷ s) = safe_runes tail skip s
safe_runes tail zero (c ∷ s) =
    let one = safe_runes tail 0 s in
    let several = safe_runes tail (tail (c ∷ s)) s in
    if ltb c 0x21 then b'-' ∷ one else if ltb 0x7e c then b'-' ∷ several else c ∷ one

unfoldable pub safe_version : (Bytes → ℕ) → Bytes → Bytes
unfolding safe_runes
safe_version tail version = elim (safe_runes tail 0 version) [ [] ↦ codes "dev" | c ∷ s ↦ c ∷ s ]

-- `net.JoinHostPort`.
abbrev pub bracket_host : Bytes → Bytes
bracket_host host = if contains_byte b':' host then b'[' ∷ host ++ b']' ∷ [] else host

unfoldable pub request_host : Url → Bytes
request_host target =
    if same target.port []
      || same target.scheme (codes "http") && same target.port (codes "80")
      || same target.scheme (codes "https") && same target.port (codes "443")
    then bracket_host target.hostname
    else bracket_host target.hostname ++ b':' ∷ target.port

abbrev pub crlf : Bytes
crlf = 13 ∷ 10 ∷ []

unfoldable pub wires : List RequestHeader → Bytes
wires [] = []
wires (header ∷ headers) =
    let rest = wires headers in if header.suppress then rest else header.wire ++ crlf ++ rest

unfoldable pub serialize_http1 : (Bytes → ℕ) → Url → List RequestHeader → List Bytes → Bytes → Bytes
serialize_http1 tail target headers names version =
    codes "GET "
    ++ target.request_uri
    ++ codes " HTTP/1.1"
    ++ crlf
    ++ (if suppressed (codes "host") names
        then []
        else codes "Host: " ++ request_host target ++ crlf)
    ++ (if suppressed (codes "user-agent") names
        then []
        else codes "User-Agent: curlu/" ++ safe_version tail version ++ crlf)
    ++ (if suppressed (codes "accept") names then [] else codes "Accept: */*" ++ crlf)
    ++ wires headers
    ++ crlf

unfoldable pub build_request : (Bytes → ℕ) → Url → List Bytes → Bytes → Result ℕ Bytes
build_request tail target values version = elim (parse_request_headers values) [
  | err code ↦ err code
  | ok (headers, names) ↦ ok (serialize_http1 tail target headers names version)
]
