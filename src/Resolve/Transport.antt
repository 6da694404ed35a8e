-- ===== src/Resolve/Transport.antt =====
-- `checkTransportOptions`: the options that go together.
use curlu.Base.{true, false, none, [], ◌∷◌, ◌≡◌, ◌≢◌, ◌↔◌, arith, Bytes, codes, same_iff}
use curlu.Options.{Options}
use curlu.Resolve.Defs.{ja4t_enabled, utls_options_set, check_transport_options}

-- The options as the documentation has them: a crafted SYN is for HTTP over IPv4, uTLS for HTTPS over
-- TCP, and HTTP/3 for HTTPS without the promise of HTTP/2.
pub record GoTogether (o : Options) (scheme : Bytes) : Type 0 where
  pub ja4t_http : ja4t_enabled o ≡ true → scheme ≡ codes "http"
  pub ja4t_family : ja4t_enabled o ≡ true → o.ip_family ≢ b'6' ∷ []
  pub utls_https : utls_options_set o ≡ true → scheme ≡ codes "https"
  pub utls_tcp : utls_options_set o ≡ true → o.http3 ≡ false
  pub http3_https : o.http3 ≡ true → scheme ≡ codes "https"
  pub http3_alone : o.http3 ≡ true → o.http2_prior_knowledge ≡ false

other_scheme : codes "http" ≢ codes "https"
other_scheme e = cc e

check_transport_options_sound :
    (o : Options) (scheme : Bytes) → check_transport_options o scheme ≡ none → GoTogether o scheme
unfolding check_transport_options
check_transport_options_sound o scheme h = record {
  ja4t_http = ground (arith, same_iff scheme (codes "http"));
  ja4t_family = ground (arith, same_iff o.ip_family (b'6' ∷ []));
  utls_https = ground (arith, same_iff scheme (codes "https"));
  utls_tcp = ground arith;
  http3_https = ground (arith, same_iff scheme (codes "https"));
  http3_alone = ground arith;
}

check_transport_options_complete :
    (o : Options) (scheme : Bytes) → GoTogether o scheme → check_transport_options o scheme ≡ none
unfolding check_transport_options
check_transport_options_complete o scheme g = ground (
  arith,
  g.ja4t_http,
  g.ja4t_family,
  g.utls_https,
  g.utls_tcp,
  g.http3_https,
  g.http3_alone,
  other_scheme,
  same_iff scheme (codes "http"),
  same_iff scheme (codes "https"),
  same_iff o.ip_family (b'6' ∷ []),
)

-- The options are accepted for a URL of this scheme if and only if a fingerprint comes only with
-- the scheme http and without -6, uTLS options only with https and without HTTP/3, and HTTP/3 only
-- with https and without --http2-prior-knowledge.
pub check_transport_options_iff :
    (o : Options) (scheme : Bytes) → (check_transport_options o scheme ≡ none) ↔ GoTogether o scheme
check_transport_options_iff o scheme =
    (check_transport_options_sound o scheme, check_transport_options_complete o scheme)
