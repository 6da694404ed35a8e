-- ===== src/Muxed/Fields.antt =====
-- internal/curlu/http2.go: what `buildMuxedRequest` sends, by header names.
use curlu.Base.{
  ℕ, List, [], ◌∷◌, ◌++◌, append-nil, append_assoc, ◌≡◌, refl, sym, ap, ◌∙◌, if◌then◌else◌, Bytes,
  codes, same,
}
use curlu.Text.{to_lower, trim_space}
use curlu.Request.{Url, RequestHeader, request_host}
use curlu.Muxed.Defs.{MuxedRequest, user_agent, apply_header, apply_headers, build_muxed_request}
use curlu.Muxed.Values.{under}
use curlu.Muxed.Loop.{
  Applied, to_host, dropped, to_agent, added, apply_header-Applied, given_one, given, IsOrdinary,
  IsWithheld, last_of, last_of-append, Applied-ordinary, Applied-withheld, Applied-agent,
}
use curlu.Muxed.Defaults.{default_of, default_header-under, default_of_withheld}

loop_ordinary :
    (target : Url) (req : MuxedRequest) (hs : List RequestHeader) (n : Bytes)
    → IsOrdinary n
    → under n (apply_headers target req hs).header ≡ under n req.header ++ given n hs
unfolding apply_headers given
loop_ordinary target req [] n o = sym (append-nil (under n req.header))
loop_ordinary target req (h ∷ hs) n o =
    loop_ordinary target (apply_header target req h) hs n o
    ∙ ap (λ vs. vs ++ given n hs)
        (Applied-ordinary n (apply_header target req h) o (apply_header-Applied target req h))
    ∙ append_assoc (under n req.header) (given_one n h) (given n hs)

loop_withheld :
    (target : Url) (req : MuxedRequest) (hs : List RequestHeader) (n : Bytes)
    → IsWithheld n
    → under n (apply_headers target req hs).header ≡ under n req.header
unfolding apply_headers
loop_withheld target req [] n w = refl
loop_withheld target req (h ∷ hs) n w =
    loop_withheld target (apply_header target req h) hs n w
    ∙ Applied-withheld n (apply_header target req h) w (apply_header-Applied target req h)

loop_agent :
    (target : Url) (req : MuxedRequest) (hs : List RequestHeader)
    → under user_agent (apply_headers target req hs).header
      ≡ last_of (under user_agent req.header) (given user_agent hs)
unfolding apply_headers given
loop_agent target req [] = refl
loop_agent target req (h ∷ hs) =
    loop_agent target (apply_header target req h) hs
    ∙ ap (λ vs. last_of vs (given user_agent hs))
        (Applied-agent (apply_header target req h) (apply_header-Applied target req h))
    ∙ sym (
        last_of-append (under user_agent req.header) (given_one user_agent h) (given user_agent hs))

-- The hosts that the headers give, in order; an empty one asks for the URL's.
unfoldable pub hosts : Url → List RequestHeader → List Bytes
hosts target [] = []
hosts target (h ∷ headers) =
    let others = hosts target headers in
    if same (to_lower h.name) (codes "host")
    then (if h.suppress then request_host target else trim_space h.value) ∷ others
    else others

loop_host :
    (target : Url) (req : MuxedRequest) (hs : List RequestHeader)
    → (apply_headers target req hs).host ∷ [] ≡ last_of (req.host ∷ []) (hosts target hs)
unfolding apply_headers hosts
loop_host target req [] = refl
loop_host target req (h ∷ hs) =
    loop_host target (apply_header target req h) hs
    ∙ one_host (apply_header target req h) (apply_header-Applied target req h)
  where
    one_host :
        (r : MuxedRequest)
        → Applied target req h r
        → last_of (r.host ∷ []) (hosts target hs) ≡ last_of (req.host ∷ []) (hosts target (h ∷ hs))
    one_host r (to_host e) = rw (e, hosts) refl
    one_host r (dropped e d) = rw (e, hosts) refl
    one_host r (to_agent s e a) = rw (e, hosts) refl
    one_host r (added s e a k) = rw (e, hosts) refl

loop_url :
    (target : Url) (req : MuxedRequest) (hs : List RequestHeader)
    → (apply_headers target req hs).url ≡ req.url
unfolding apply_headers
loop_url target req [] = refl
loop_url target req (h ∷ hs) =
    loop_url target (apply_header target req h) hs
    ∙ one_url (apply_header target req h) (apply_header-Applied target req h)
  where
    one_url : (r : MuxedRequest) → Applied target req h r → r.url ≡ req.url
    one_url r (to_host e) = refl
    one_url r (dropped e d) = refl
    one_url r (to_agent s e a) = refl
    one_url r (added s e a k) = refl

-- What a request carries for the headers and the defaults of the command line.
pub record Carries (tail : Bytes → ℕ) (target : Url) (headers : List RequestHeader)
    (names : List Bytes) (version : Bytes) (req : MuxedRequest) : Type 0 where
  pub ordinary :
      (n : Bytes)
      → IsOrdinary n
      → under n req.header ≡ default_of tail names version n ++ given n headers
  pub withheld : (n : Bytes) → IsWithheld n → under n req.header ≡ []
  pub agent :
      under user_agent req.header
      ≡ last_of (default_of tail names version user_agent) (given user_agent headers)
  pub host : req.host ∷ [] ≡ last_of (request_host target ∷ []) (hosts target headers)
  pub url : req.url ≡ target

-- A request on an HTTP/2 or HTTP/3 connection carries, under a name in whatever case, its default and
-- behind it the trimmed values of the headers given with that name that are not suppressed, in order;
-- but under User-Agent only the last of these, under Host and the hop-by-hop names nothing, and the
-- host that it names apart is that of the last Host header, or of the URL if there is none or the last
-- one is empty.
pub build_muxed_request-Carries :
    (tail : Bytes → ℕ) (target : Url) (major : ℕ) (headers : List RequestHeader)
    (names : List Bytes) (version : Bytes)
    → Carries tail target headers names version
        (build_muxed_request tail target major headers names version)
unfolding build_muxed_request
build_muxed_request-Carries tail target major headers names version = record {
  ordinary = λ n o.
      loop_ordinary target _ headers n o
      ∙ ap (λ vs. vs ++ given n headers) (default_header-under tail names version n);
  withheld = λ n w.
      loop_withheld target _ headers n w
      ∙ default_header-under tail names version n
      ∙ default_of_withheld tail names version n w;
  agent =
      loop_agent target _ headers
      ∙ ap (λ vs. last_of vs (given user_agent headers))
          (default_header-under tail names version user_agent);
  host = loop_host target _ headers;
  url = loop_url target _ headers;
}
