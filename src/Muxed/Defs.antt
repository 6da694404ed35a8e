-- ===== src/Muxed/Defs.antt =====
-- internal/curlu/http2.go: `buildMuxedRequest`.
use curlu.Base.{
  ℕ, Bool, true, ◌&&◌, ◌||◌, List, [], ◌∷◌, ◌++◌, ◌-◌, leb, ◌==◌, if◌then◌else◌, Bytes, codes, same,
}
use curlu.Text.{to_lower, lower_byte, trim_space}
use curlu.Request.{Url, RequestHeader, suppressed, safe_version, request_host}

-- `CanonicalMIMEHeaderKey` of a text of token bytes; `upper` says whether a word begins.
abbrev pub upper_byte : ℕ → ℕ
upper_byte c = if leb b'a' c && leb c b'z' then c - 32 else c

unfoldable pub canonical_from : Bool → Bytes → Bytes
unfolding lower_byte
canonical_from upper [] = []
canonical_from upper (c ∷ s) =
    (if upper then upper_byte c else lower_byte c) ∷ canonical_from (c == b'-') s

unfoldable pub canonical_key : Bytes → Bytes
unfolding canonical_from
canonical_key name = canonical_from true name

-- An `http.Header`: a key with its values. A key stands in it once.
pub record Field : Type 0 where
  pub key : Bytes
  pub values : List Bytes

unfoldable pub values_of : Bytes → List Field → List Bytes
values_of key [] = []
values_of key (f ∷ fields) =
    let later = values_of key fields in if same f.key key then f.values else later

-- `header[key] = values`.
unfoldable pub put : Bytes → List Bytes → List Field → List Field
put key values [] = record { key = key; values = values } ∷ []
put key values (f ∷ fields) =
    let later = put key values fields in
    if same f.key key then record { key = key; values = values } ∷ fields else f ∷ later

-- `Header.Set` and `Header.Add`.
unfoldable pub set_header : Bytes → Bytes → List Field → List Field
set_header name value header = put (canonical_key name) (value ∷ []) header

unfoldable pub add_header : Bytes → Bytes → List Field → List Field
add_header name value header =
    put (canonical_key name) (values_of (canonical_key name) header ++ value ∷ []) header

unfoldable pub hop_by_hop_header : Bytes → Bool
hop_by_hop_header name =
    same name (codes "connection")
    || same name (codes "keep-alive")
    || same name (codes "proxy-connection")
    || same name (codes "transfer-encoding")
    || same name (codes "upgrade")
    || same name (codes "http2-settings")

-- The `http.Request`, whose method is GET.
pub record MuxedRequest : Type 0 where
  pub url : Url
  pub major : ℕ
  pub header : List Field
  pub host : Bytes

abbrev pub user_agent : Bytes
user_agent = codes "User-Agent"

abbrev pub accept : Bytes
accept = codes "Accept"

-- The round of the loop for one header.
unfoldable pub apply_header : Url → MuxedRequest → RequestHeader → MuxedRequest
unfolding hop_by_hop_header set_header add_header
apply_header target req header =
    let lower = to_lower header.name in
    if same lower (codes "host")
    then record req {
      host = if header.suppress then request_host target else trim_space header.value;
    }
    else if header.suppress || hop_by_hop_header lower
    then req
    else if same lower (codes "user-agent")
    then record req { header = set_header user_agent (trim_space header.value) req.header }
    else record req { header = add_header header.name (trim_space header.value) req.header }

unfoldable pub apply_headers : Url → MuxedRequest → List RequestHeader → MuxedRequest
apply_headers target req [] = req
apply_headers target req (header ∷ headers) =
    apply_headers target (apply_header target req header) headers

unfoldable pub default_header : (Bytes → ℕ) → List Bytes → Bytes → List Field
unfolding set_header
default_header tail names version =
    let agent =
      if suppressed (codes "user-agent") names
      then put user_agent [] []
      else set_header user_agent (codes "curlu/" ++ safe_version tail version) [] in
    if suppressed (codes "accept") names then agent else set_header accept (codes "*/*") agent

unfoldable pub build_muxed_request :
    (Bytes → ℕ) → Url → ℕ → List RequestHeader → List Bytes → Bytes → MuxedRequest
unfolding default_header
build_muxed_request tail target major headers names version =
    apply_headers target
      (record {
        url = target;
        major = major;
        header = default_header tail names version;
        host = request_host target;
      })
      headers
