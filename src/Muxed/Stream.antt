-- ===== src/Muxed/Stream.antt =====
-- internal/curlu/http2.go: `stream` and `run` of `muxedRequests`, `formatMuxedHeaders` and the exit
-- codes of errors; internal/curlu/http3.go: `http3ReceiveError`. The trace is left out.
use curlu.Base.{
  ℕ, suc, Bool, true, false, ◌&&◌, ◌||◌, Option, none, some, List, [], ◌∷◌, ◌++◌, map, ltb, ◌==◌,
  if◌then◌else◌, Bytes, codes, Result, ok, err,
}
use curlu.Text.{to_lower}
use curlu.Number.{format_uint}
use curlu.Fault.{Fault, is_timeout}
use curlu.Request.{Url, RequestHeader, crlf}
use curlu.Response.{Writer, copy, write_block, body_failed}
use curlu.Muxed.Defs.{Field, values_of, MuxedRequest, build_muxed_request}

-- What the connection answers: the `http.Response`, its header in the order of a `range` over it.
pub record MuxedResponse : Type 0 where
  pub status_code : ℕ
  pub header : List Field
  pub body : List Bytes
  pub body_end : Option Fault

-- `sort.Strings`.
unfoldable pub comes_before : Bytes → Bytes → Bool
comes_before [] [] = false
comes_before [] (_ ∷ _) = true
comes_before (_ ∷ _) [] = false
comes_before (a ∷ s) (b ∷ t) = ltb a b || a == b && comes_before s t

unfoldable pub insert_name : Bytes → List Bytes → List Bytes
insert_name name [] = name ∷ []
insert_name name (n ∷ names) =
    let later = insert_name name names in
    if comes_before n name then n ∷ later else name ∷ n ∷ names

unfoldable pub sort_names : List Bytes → List Bytes
unfolding insert_name
sort_names [] = []
sort_names (name ∷ names) = insert_name name (sort_names names)

unfoldable pub value_lines : Bytes → List Bytes → Bytes
value_lines name [] = []
value_lines name (value ∷ values) =
    to_lower name ++ codes ": " ++ value ++ crlf ++ value_lines name values

unfoldable pub field_lines : List Field → List Bytes → Bytes
unfolding value_lines
field_lines header [] = []
field_lines header (name ∷ names) =
    value_lines name (values_of name header) ++ field_lines header names

unfoldable pub format_muxed_headers : MuxedResponse → ℕ → Bytes
unfolding field_lines sort_names
format_muxed_headers response major =
    codes "HTTP/"
    ++ format_uint major
    ++ codes " "
    ++ format_uint response.status_code
    ++ crlf
    ++ field_lines response.header (sort_names (map (λ (f : Field). f.key) response.header))
    ++ crlf

unfoldable pub http2_send_error : Fault → Bool → ℕ
http2_send_error e expired = if is_timeout e || expired then 28 else 55

unfoldable pub http2_receive_error : Fault → Bool → ℕ
http2_receive_error e expired =
    if is_timeout e || expired then 28 else if e.list_too_large then 8 else 56

abbrev pub is_transport : Fault → Bool
is_transport e = elim e.transport [ none ↦ false | some _ ↦ true ]

unfoldable pub http3_receive_error : Fault → Bool → ℕ
http3_receive_error e expired =
    if is_timeout e || expired
    then 28
    else if e.list_too_large
    then 8
    else if e.http3
    then 95
    else if is_transport e || e.application
    then 96
    else 56

-- `muxedRequests`. `round_trip` is told the number of the request; `expired` is `ctx.Err() != nil`
-- when a request has failed.
pub record Muxed : Type 0 where
  pub major : ℕ
  pub round_trip : ℕ → MuxedRequest → Result Fault MuxedResponse
  pub receive_error : Fault → Bool → ℕ
  pub headers : List RequestHeader
  pub suppressed_names : List Bytes
  pub include : Bool
  pub version : Bytes
  pub expired : Bool

-- The body behind the header block: the exit code of an error.
unfoldable pub stream_body : Muxed → MuxedResponse → Writer → Writer × Option ℕ
stream_body m response w =
    let c = copy w response.body response.body_end in
    elim c.tracker_error [
      | some _ ↦ (c.writer, some 23)
      | none ↦ elim c.copy_error [
        | some e ↦ (c.writer, some (body_failed e m.expired))
        | none ↦ (c.writer, none)
      ]
    ]

abbrev pub behind_headers : Muxed → MuxedResponse → Writer × Option Fault → Writer × Option ℕ
behind_headers m response (w, some _) = (w, some 23)
behind_headers m response (w, none) = stream_body m response w

unfoldable pub answered : Muxed → Writer → Result Fault MuxedResponse → Writer × Option ℕ
unfolding stream_body
answered m w (err e) = (w, some (m.receive_error e m.expired))
answered m w (ok response) =
    behind_headers m response (write_block m.include w (format_muxed_headers response m.major))

unfoldable pub stream : (Bytes → ℕ) → Muxed → ℕ → Writer → Url → Writer × Option ℕ
unfolding answered
stream tail m i w target = answered m w (
    m.round_trip i (build_muxed_request tail target m.major m.headers m.suppressed_names m.version))

unfoldable pub run : (Bytes → ℕ) → Muxed → ℕ → Writer → List Url → Writer × Option ℕ
run tail m i w [] = (w, none)
run tail m i w (target ∷ targets) =
    let (w', e) = stream tail m i w target in
    let onward = run tail m (suc i) w' targets in
    elim e [ some code ↦ (w', some code) | none ↦ onward ]
