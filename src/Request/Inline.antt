-- ===== src/Request/Inline.antt =====
-- What goes into the lines of a request.
use mathlib.Core.Path.{subst}
use curlu.Base.{
  ℕ, zero, suc, Bool, true, false, List, [], ◌∷◌, ◌≡◌, refl, sym, ap, ◌∙◌, arith, Bytes, ok, err,
  Result-cases, ok_injective, All, All-append, Bool-cases, inl, inr, codes,
}
use curlu.Text.{contains_byte}
use curlu.Request.Defs.{
  has_control, bracket_host, Url, RequestHeader, HeaderError, parse_request_header,
  parse_request_headers, with_header, safe_runes, safe_version, request_host,
}
use curlu.Request.Headers.{
  IsInline, has_control-false, List-cases, parse_request_header_sound, wire-IsInline,
}
use curlu.Request.Written.{line_unless, header_lines}

pub line_unless-IsInline :
    (b : Bool) (line : Bytes) → All IsInline line → All (All IsInline) (line_unless b line)
line_unless-IsInline true line h = tt
line_unless-IsInline false line h = (h, tt)

safe_runes-IsInline :
    (tail : Bytes → ℕ) (skip : ℕ) (s : Bytes) → All IsInline (safe_runes tail skip s)
unfolding safe_runes
safe_runes-IsInline tail skip [] = tt
safe_runes-IsInline tail (suc skip) (c ∷ s) = safe_runes-IsInline tail skip s
safe_runes-IsInline tail zero (c ∷ s) =
    ground (arith, safe_runes-IsInline tail 0 s, safe_runes-IsInline tail (tail (c ∷ s)) s)

pub safe_version-IsInline :
    (tail : Bytes → ℕ) (version : Bytes) → All IsInline (safe_version tail version)
unfolding safe_version has_control contains_byte
safe_version-IsInline tail version = elim (List-cases (safe_runes tail 0 version)) [
  | inl e ↦ rw (e, safe_version) (has_control-false (codes "dev") refl)
  | inr (c, r, e) ↦
      rw (e, safe_version) (subst (All IsInline) e (safe_runes-IsInline tail 0 version))
]

bracket_host-IsInline : (host : Bytes) → All IsInline host → All IsInline (bracket_host host)
unfolding has_control contains_byte
bracket_host-IsInline host h = elim (Bool-cases (contains_byte b':' host)) [
  | inl e ↦
      rw (e, bracket_host)
        (
          (has_control-false (b'[' ∷ []) refl).0,
          All-append IsInline host (b']' ∷ []) h (has_control-false (b']' ∷ []) refl),
        )
  | inr e ↦ rw (e, bracket_host) h
]

-- What the source takes from a URL stays within a line.
pub record IsClean (target : Url) : Type 0 where
  pub hostname : All IsInline target.hostname
  pub port : All IsInline target.port
  pub request_uri : All IsInline target.request_uri

pub request_host-IsInline : (target : Url) → IsClean target → All IsInline (request_host target)
unfolding request_host has_control contains_byte
request_host-IsInline target clean =
    let host = bracket_host-IsInline target.hostname clean.hostname in
    let with_port =
      All-append IsInline (bracket_host target.hostname) (b':' ∷ target.port) host
        ((has_control-false (b':' ∷ []) refl).0, clean.port) in
    ground (arith, host, with_port)

pub header_lines-IsInline :
    (headers : List RequestHeader)
    → All (λ h. h.suppress ≡ false → All IsInline h.wire) headers
    → All (All IsInline) (header_lines headers)
header_lines-IsInline [] h = tt
header_lines-IsInline (header ∷ headers) (x, h) = elim (Bool-cases header.suppress) [
  | inl e ↦ rw e (header_lines-IsInline headers h)
  | inr e ↦ rw e (x e, header_lines-IsInline headers h)
]

parse_request_headers-nil : parse_request_headers [] ≡ ok ([], [])
unfolding parse_request_headers
parse_request_headers-nil = refl

-- What the first header of a list leads to.
header_fails :
    (value : Bytes) (values : List Bytes) {e : HeaderError}
    → parse_request_header value ≡ err e
    → parse_request_headers (value ∷ values) ≡ err 2
unfolding parse_request_headers
header_fails value values h = rw (h, parse_request_headers) refl

header_works :
    (value : Bytes) (values : List Bytes) {header : RequestHeader}
    → parse_request_header value ≡ ok header
    → parse_request_headers (value ∷ values) ≡ with_header header (parse_request_headers values)
unfolding parse_request_headers
header_works value values h = rw (h, parse_request_headers) refl

pub parse_request_headers-IsInline :
    (values : List Bytes) (headers : List RequestHeader) (names : List Bytes)
    → parse_request_headers values ≡ ok (headers, names)
    → All (λ h. h.suppress ≡ false → All IsInline h.wire) headers
parse_request_headers-IsInline [] headers names h =
    subst (All (λ h. h.suppress ≡ false → All IsInline h.wire))
      (ap (λ r. r.0) (ok_injective (sym parse_request_headers-nil ∙ h))) tt
parse_request_headers-IsInline (value ∷ values) headers names h =
    elim (Result-cases (parse_request_header value)) [
      | inr (_, e) ↦ absurd (cc (header_fails value values e, h))
      | inl (header, e) ↦
          let stepped = header_works value values e in
          elim (Result-cases (parse_request_headers values)) [
            | inr (_, e') ↦ absurd (cc (sym h ∙ stepped ∙ ap (with_header header) e'))
            | inl ((rest, more), e') ↦
                subst (All (λ h. h.suppress ≡ false → All IsInline h.wire))
                  (ap (λ r. r.0) (ok_injective (sym (stepped ∙ ap (with_header header) e') ∙ h)))
                  (
                    wire-IsInline value header (parse_request_header_sound value e),
                    parse_request_headers-IsInline values rest more e',
                  )
          ]
    ]
