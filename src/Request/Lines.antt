-- ===== src/Request/Lines.antt =====
-- `buildRequest`: the lines of a request.
use curlu.Base.{
  ℕ, false, List, [], ◌∷◌, ◌++◌, map, ◌≡◌, refl, sym, ap, ◌∙◌, Bytes, Result, ok, err, ok_injective,
  All, All-append, codes,
}
use curlu.Text.{split, contains_byte}
use curlu.Request.Defs.{
  has_control, Url, RequestHeader, parse_request_headers, suppressed, safe_version, request_host,
  serialize_http1, build_request,
}
use curlu.Request.Headers.{IsInline, has_control-false}
use curlu.Request.Written.{
  line_unless, header_lines, request_lines, serialize_http1-Ends, split-end_lines,
}
use curlu.Request.Inline.{
  IsClean, line_unless-IsInline, safe_version-IsInline, request_host-IsInline,
  header_lines-IsInline, parse_request_headers-IsInline,
}

request_lines-IsInline :
    (tail : Bytes → ℕ) (target : Url) (headers : List RequestHeader) (names : List Bytes)
    (version : Bytes)
    → IsClean target
    → All (λ h. h.suppress ≡ false → All IsInline h.wire) headers
    → All (All IsInline) (request_lines tail target headers names version)
unfolding has_control contains_byte
request_lines-IsInline tail target headers names version clean inline =
    let more = All-append (All IsInline) in
    let text = All-append IsInline in
    let line = codes "GET " ++ target.request_uri ++ codes " HTTP/1.1" in
    let line_inline : All IsInline line =
      text (codes "GET " ++ target.request_uri) (codes " HTTP/1.1")
        (text (codes "GET ") target.request_uri (has_control-false (codes "GET ") refl)
          clean.request_uri)
        (has_control-false (codes " HTTP/1.1") refl) in
    let host =
      line_unless (suppressed (codes "host") names) (codes "Host: " ++ request_host target) in
    let host_inline : All (All IsInline) host =
      line_unless-IsInline (suppressed (codes "host") names) (codes "Host: " ++ request_host target)
        (text (codes "Host: ") (request_host target) (has_control-false (codes "Host: ") refl)
          (request_host-IsInline target clean)) in
    let agent_line = codes "User-Agent: curlu/" ++ safe_version tail version in
    let agent = line_unless (suppressed (codes "user-agent") names) agent_line in
    let agent_inline : All (All IsInline) agent =
      line_unless-IsInline (suppressed (codes "user-agent") names) agent_line (
        text (codes "User-Agent: curlu/") (safe_version tail version)
          (has_control-false (codes "User-Agent: curlu/") refl)
          (safe_version-IsInline tail version)) in
    let accept = line_unless (suppressed (codes "accept") names) (codes "Accept: */*") in
    let accept_inline : All (All IsInline) accept =
      line_unless-IsInline (suppressed (codes "accept") names) (codes "Accept: */*")
        (has_control-false (codes "Accept: */*") refl) in
    let given = header_lines-IsInline headers inline in
    more ((line ∷ []) ++ host ++ agent ++ accept ++ header_lines headers) ([] ∷ [])
      (more ((line ∷ []) ++ host ++ agent ++ accept) (header_lines headers)
        (more ((line ∷ []) ++ host ++ agent) accept
          (more ((line ∷ []) ++ host) agent (more (line ∷ []) host (line_inline, tt) host_inline)
            agent_inline)
          accept_inline)
        given)
      (tt, tt)

build_request_cases :
    (tail : Bytes → ℕ) (target : Url) (values : List Bytes) (version : Bytes)
    {r : Result ℕ (List RequestHeader × List Bytes)} {request : Bytes}
    → parse_request_headers values ≡ r
    → build_request tail target values version ≡ ok request
    → (headers : List RequestHeader) × (names : List Bytes) × (r ≡ ok (headers, names))
      × (request ≡ serialize_http1 tail target headers names version)
unfolding build_request
build_request_cases tail target values version {r = ok (headers, names)} e h =
    (headers, names, refl, ok_injective (sym h ∙ rw (e, build_request) refl))
build_request_cases tail target values version {r = err code} e h =
    let failed : build_request tail target values version ≡ err code = rw (e, build_request) refl in
    absurd (cc (h, failed))

-- A request for a URL without CR, LF and NUL in its parts that was built is read back by a reader
-- that splits it at line feeds as exactly its lines, each ended by CR LF and free of these bytes
-- within: the request line, the defaults that are not suppressed, the given headers that are not
-- suppressed, in order, and the empty line. So no header value adds a line of its own.
pub build_request-lines :
    (tail : Bytes → ℕ) (target : Url) (values : List Bytes) (version : Bytes) {request : Bytes}
    → IsClean target
    → build_request tail target values version ≡ ok request
    → (headers : List RequestHeader) × (names : List Bytes) × (parse_request_headers values
        ≡ ok (headers, names))
      × All (All IsInline) (request_lines tail target headers names version)
      × (split 10 request
          ≡ map (λ line. line ++ 13 ∷ []) (request_lines tail target headers names version)
            ++ [] ∷ [])
build_request-lines tail target values version clean h =
    let (headers, names, e, whole) = build_request_cases tail target values version refl h in
    let inline =
      request_lines-IsInline tail target headers names version clean
        (parse_request_headers-IsInline values headers names e) in
    (
      headers,
      names,
      e,
      inline,
      ap (split 10) (whole ∙ (serialize_http1-Ends tail target headers names version).whole)
          ∙ split-end_lines (request_lines tail target headers names version) inline,
    )
