-- ===== src/Request/Tests.antt =====
-- A request with a suppressed and two given headers, and the theorems there.
use curlu.Base.{ℕ, false, List, [], ◌∷◌, ◌++◌, map, ◌≡◌, refl, Bytes, codes, ok, err, same, All}
use curlu.Text.{split, cut, trim_space, contains_byte}
use curlu.Request.Defs.{
  Url, RequestHeader, control_characters, parse_request_header, parse_request_headers,
  build_request, has_control, expected_name_value, invalid_field_name,
}
use curlu.Request.Headers.{IsInline, IsAccepted, has_control-false, parse_request_header_sound}
use curlu.Request.Written.{request_lines}
use curlu.Request.Inline.{IsClean}
use curlu.Request.Lines.{build_request-lines}

abbrev ascii : Bytes → ℕ
ascii s = 0

abbrev target : Url
target = record {
  scheme = codes "http";
  hostname = codes "a.test";
  port = codes "80";
  request_uri = codes "/x";
}

abbrev given : List Bytes
given = codes "accept:" ∷ codes "X-A: b" ∷ []

refusals :
    (parse_request_header (codes "A: b" ++ 13 ∷ 10 ∷ codes "C: d") ≡ err control_characters)
    × (parse_request_header (codes ": b") ≡ err expected_name_value)
    × (parse_request_header (codes "A b: c") ≡ err invalid_field_name)
unfolding parse_request_header has_control contains_byte cut curlu.Request.Defs.named_header
    curlu.Request.Defs.valid_header_name trim_space curlu.Request.Defs.name_bytes
refusals = (refl, refl, refl)

sent :
    parse_request_header (codes "X-A: b")
    ≡ ok
        (record { name = codes "X-A"; wire = codes "X-A: b"; value = codes " b"; suppress = false })
unfolding parse_request_header has_control contains_byte cut curlu.Request.Defs.named_header
    curlu.Request.Defs.valid_header_name trim_space curlu.Request.Defs.name_bytes
sent = refl

parse_request_header_sound_example :
    IsAccepted
      (codes "X-A: b")
      (record { name = codes "X-A"; wire = codes "X-A: b"; value = codes " b"; suppress = false })
parse_request_header_sound_example = parse_request_header_sound (codes "X-A: b") sent

abbrev request : Bytes
request =
    codes "GET /x HTTP/1.1"
    ++ 13 ∷ 10 ∷ codes "Host: a.test"
    ++ 13 ∷ 10 ∷ codes "User-Agent: curlu/1.0"
    ++ 13 ∷ 10 ∷ codes "X-A: b"
    ++ 13 ∷ 10 ∷ 13 ∷ 10 ∷ []

target-IsClean : IsClean target
unfolding has_control contains_byte
target-IsClean = record {
  hostname = has_control-false (codes "a.test") refl;
  port = has_control-false (codes "80") refl;
  request_uri = has_control-false (codes "/x") refl;
}

request_built : build_request ascii target given (codes "1.0") ≡ ok request
unfolding build_request parse_request_headers parse_request_header has_control contains_byte cut
    curlu.Request.Defs.named_header curlu.Request.Defs.valid_header_name trim_space
    curlu.Request.Defs.name_bytes curlu.Request.Defs.serialize_http1 curlu.Request.Defs.suppressed
    curlu.Request.Defs.is_default same curlu.Text.to_lower curlu.Request.Defs.request_host
    curlu.Request.Defs.safe_version curlu.Request.Defs.wires
request_built = refl

build_request-lines_example :
    (headers : List RequestHeader) × (names : List Bytes) × (parse_request_headers given
      ≡ ok (headers, names))
    × All (All IsInline) (request_lines ascii target headers names (codes "1.0"))
    × (split 10 request
        ≡ map (λ line. line ++ 13 ∷ []) (request_lines ascii target headers names (codes "1.0"))
          ++ [] ∷ [])
build_request-lines_example =
    build_request-lines ascii target given (codes "1.0") target-IsClean request_built
