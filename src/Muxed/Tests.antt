-- ===== src/Muxed/Tests.antt =====
-- Two requests with a header that is added, one that is hop-by-hop and a User-Agent of its own.
use curlu.Fault.{is_timeout, other_fault}
use curlu.Response.{tracking_write, copy, write_block, Writer}
use curlu.Muxed.Stream.{
  stream, comes_before, MuxedResponse, format_muxed_headers, http2_receive_error, http2_send_error,
  http3_receive_error, Muxed, run,
}
use curlu.Number.{format_uint}
use curlu.Text.{trim_space, to_lower}
use curlu.Request.{suppressed, Url, RequestHeader, crlf}
use curlu.Muxed.Defs.{
  put, apply_header, apply_headers, MuxedRequest, canonical_key, values_of, build_muxed_request,
}
use curlu.Base.{same, ℕ, true, false, none, List, [], ◌∷◌, ◌++◌, ◌≡◌, refl, Bytes, codes, ok}
use curlu.Muxed.Fields.{Carries, build_muxed_request-Carries}
use curlu.Muxed.Output.{Answers, run-Answers}

abbrev given_header : Bytes → Bytes → RequestHeader
given_header name value = record { name = name; wire = []; value = value; suppress = false }

abbrev headers : List RequestHeader
headers =
    given_header (codes "x-a") (codes " 1")
    ∷ given_header (codes "Connection") (codes "close")
    ∷ given_header (codes "X-A") (codes "2")
    ∷ given_header (codes "user-agent") (codes "me")
    ∷ []

abbrev target : Bytes → Url
target path = record { scheme = codes "https"; hostname = codes "a"; port = []; request_uri = path }

-- No character has a second byte.
abbrev tail : Bytes → ℕ
tail s = 0

abbrev request : MuxedRequest
request =
    build_muxed_request tail (target (codes "/")) 2 headers (codes "user-agent" ∷ []) (codes "1")

build_muxed_request-Carries_example :
    Carries tail (target (codes "/")) headers (codes "user-agent" ∷ []) (codes "1") request
build_muxed_request-Carries_example =
    build_muxed_request-Carries tail (target (codes "/")) 2 headers (codes "user-agent" ∷ [])
      (codes "1")

both_sent : values_of (canonical_key (codes "X-a")) request.header ≡ codes "1" ∷ codes "2" ∷ []
unfolding values_of build_muxed_request apply_headers apply_header same to_lower put suppressed
    canonical_key trim_space
both_sent = refl

not_sent : values_of (codes "Connection") request.header ≡ []
unfolding values_of build_muxed_request apply_headers apply_header same to_lower put suppressed
    canonical_key
not_sent = refl

abbrev response : MuxedResponse
response = record {
  status_code = 200;
  header =
      record { key = codes "B"; values = codes "1" ∷ [] }
      ∷ record { key = codes "A"; values = codes "2" ∷ codes "3" ∷ [] }
      ∷ [];
  body = codes "x" ∷ codes "y" ∷ [];
  body_end = none;
}

names_sorted :
    format_muxed_headers response 2
    ≡ codes "HTTP/2 200"
      ++ crlf
      ++ codes "a: 2"
      ++ crlf
      ++ codes "a: 3"
      ++ crlf
      ++ codes "b: 1"
      ++ crlf
      ++ crlf
unfolding format_muxed_headers format_uint comes_before values_of same to_lower
names_sorted = refl

abbrev muxed : Muxed
muxed = record {
  major = 2;
  round_trip = λ i req. ok response;
  receive_error = http2_receive_error;
  headers = headers;
  suppressed_names = codes "user-agent" ∷ [];
  include = false;
  version = codes "1";
  expired = false;
}

abbrev output : Writer
output = record { out = []; answers = [] }

abbrev two : List Url
two = target (codes "/1") ∷ target (codes "/2") ∷ []

run_fine : (run tail muxed 0 output two).1 ≡ none
unfolding run stream write_block copy tracking_write
run_fine = refl

run-Answers_example :
    (text : Bytes) × Answers tail muxed 0 two text
    × ((run tail muxed 0 output two).0.out ≡ output.out ++ text)
run-Answers_example = run-Answers tail muxed 0 output two run_fine

bodies_put_out : (run tail muxed 0 output two).0.out ≡ codes "xyxy"
unfolding run stream write_block copy tracking_write
bodies_put_out = refl

send_failed : http2_send_error other_fault false ≡ 55
unfolding http2_send_error is_timeout
send_failed = refl

http3_failed : http3_receive_error other_fault true ≡ 28
unfolding http3_receive_error is_timeout
http3_failed = refl
