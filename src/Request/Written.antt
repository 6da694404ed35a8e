-- ===== src/Request/Written.antt =====
-- `serializeHTTP1`: its text as a list of lines.
use mathlib.Core.Path.{ap₂}
use curlu.Base.{
  ℕ, Bool, true, false, List, [], ◌∷◌, ◌++◌, append_assoc, append-nil, map, ◌≡◌, ◌≢◌, refl, sym, ap,
  ◌∙◌, arith, Bytes, All, All-append, All-of_imp, Bool-cases, inl, inr, if◌then◌else◌, codes,
}
use curlu.Text.{Lacks, split, split-append}
use curlu.Request.Defs.{
  Url, RequestHeader, suppressed, safe_version, request_host, crlf, wires, serialize_http1,
}
use curlu.Request.Headers.{IsInline}

-- A line of text, if it is wanted.
abbrev pub line_unless : Bool → Bytes → List Bytes
line_unless true line = []
line_unless false line = line ∷ []

abbrev pub header_lines : List RequestHeader → List Bytes
header_lines [] = []
header_lines (header ∷ headers) = line_unless header.suppress header.wire ++ header_lines headers

-- The lines of a request, as HTTP/1.1 wants them: the request line, the default headers that are not
-- suppressed, the given headers that are not suppressed, and the empty line.
abbrev pub request_lines : (Bytes → ℕ) → Url → List RequestHeader → List Bytes → Bytes → List Bytes
request_lines tail target headers names version =
    ((codes "GET " ++ target.request_uri ++ codes " HTTP/1.1") ∷ [])
    ++ line_unless (suppressed (codes "host") names) (codes "Host: " ++ request_host target)
    ++ line_unless (suppressed (codes "user-agent") names)
        (codes "User-Agent: curlu/" ++ safe_version tail version)
    ++ line_unless (suppressed (codes "accept") names) (codes "Accept: */*")
    ++ header_lines headers
    ++ ([] ∷ [])

abbrev pub end_lines : List Bytes → Bytes
end_lines [] = []
end_lines (line ∷ lines) = line ++ crlf ++ end_lines lines

end_lines-append : (a b : List Bytes) → end_lines (a ++ b) ≡ end_lines a ++ end_lines b
end_lines-append [] b = refl
end_lines-append (line ∷ a) b =
    ap (λ s. line ++ crlf ++ s) (end_lines-append a b)
    ∙ sym (append_assoc (line ++ crlf) (end_lines a) (end_lines b))

wires-end_lines : (headers : List RequestHeader) → wires headers ≡ end_lines (header_lines headers)
unfolding wires
wires-end_lines [] = refl
wires-end_lines (header ∷ headers) = elim (Bool-cases header.suppress) [
  | inl e ↦ rw (e, wires) (wires-end_lines headers)
  | inr e ↦ rw (e, wires) (ap (λ s. header.wire ++ crlf ++ s) (wires-end_lines headers))
]

-- A text that is these lines, each ended.
pub record Ends (s : Bytes) (lines : List Bytes) : Type 0 where
  pub whole : s ≡ end_lines lines

add_lines :
    {s t : Bytes} {lines more : List Bytes}
    → Ends s lines
    → Ends t more
    → Ends (s ++ t) (lines ++ more)
add_lines {lines} {more} a b = record {
  whole = ap₂ ◌++◌ a.whole b.whole ∙ sym (end_lines-append lines more);
}

Ends-line : (line : Bytes) → Ends (line ++ crlf) (line ∷ [])
Ends-line line = record { whole = sym (append-nil (line ++ crlf)) }

Ends-unless : (b : Bool) (line : Bytes) → Ends (if b then [] else line ++ crlf) (line_unless b line)
Ends-unless true line = record { whole = refl }
Ends-unless false line = record { whole = sym (append-nil (line ++ crlf)) }

Ends-wires : (headers : List RequestHeader) → Ends (wires headers) (header_lines headers)
Ends-wires headers = record { whole = wires-end_lines headers }

pub serialize_http1-Ends :
    (tail : Bytes → ℕ) (target : Url) (headers : List RequestHeader) (names : List Bytes)
    (version : Bytes)
    → Ends
        (serialize_http1 tail target headers names version)
        (request_lines tail target headers names version)
unfolding serialize_http1
serialize_http1-Ends tail target headers names version =
    let first = Ends-line (codes "GET " ++ target.request_uri ++ codes " HTTP/1.1") in
    let host =
      Ends-unless (suppressed (codes "host") names) (codes "Host: " ++ request_host target) in
    let agent =
      Ends-unless (suppressed (codes "user-agent") names)
        (codes "User-Agent: curlu/" ++ safe_version tail version) in
    let accept = Ends-unless (suppressed (codes "accept") names) (codes "Accept: */*") in
    add_lines
      (add_lines (add_lines (add_lines (add_lines first host) agent) accept) (Ends-wires headers))
      (record { whole = refl })

-- Every line stays a line.
IsInline-Lacks : (s : Bytes) → All IsInline s → Lacks 10 s
IsInline-Lacks = All-of_imp IsInline (λ c. c ≢ 10) (λ c h. h.1)

pub split-end_lines :
    (lines : List Bytes)
    → All (All IsInline) lines
    → split 10 (end_lines lines) ≡ map (λ line. line ++ 13 ∷ []) lines ++ [] ∷ []
unfolding split
split-end_lines [] h = refl
split-end_lines (line ∷ lines) (x, h) =
    let lacks : Lacks 10 (line ++ 13 ∷ []) =
      All-append (λ c. c ≢ 10) line (13 ∷ []) (IsInline-Lacks line x)
        (λ e. absurd (omega (arith, e)), tt) in
    ap (λ s. split 10 (s ++ end_lines lines)) (sym (append_assoc line (13 ∷ []) (10 ∷ [])))
    ∙ ap (split 10) (append_assoc (line ++ 13 ∷ []) (10 ∷ []) (end_lines lines))
    ∙ split-append 10 (line ++ 13 ∷ []) (end_lines lines) lacks
    ∙ ap (λ ls. (line ++ 13 ∷ []) ∷ ls) (split-end_lines lines h)
