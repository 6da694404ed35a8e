-- ===== src/Resolve/Defs.antt =====
-- internal/curlu/client.go: `lookupResolve`, `canonicalPort` and `checkTransportOptions`, with the tests
-- of options in ja4t.go and utls.go. An error of `checkTransportOptions` is its message; the exit code
-- is 2 throughout.
use curlu.Base.{
  Bool, true, false, not, ◌&&◌, ◌||◌, Option, none, some, List, [], ◌∷◌, if◌then◌else◌, Bytes,
  codes, same,
}
use curlu.Number.{parse_uint, format_uint, max_u16}
use curlu.Options.{ResolveEntry, Options, Outside, canonical_resolve_host}

-- `map[key][]string`; the latest entry stands in front.
pub record Mapping : Type 0 where
  pub host : Bytes
  pub port : Bytes
  pub addrs : List Bytes

abbrev pub same_key : Bytes → Bytes → Bytes → Bytes → Bool
same_key host port h p = same host h && same port p

unfoldable pub mapped_at : Bytes → Bytes → List Mapping → Option (List Bytes)
mapped_at host port [] = none
mapped_at host port (m ∷ ms) =
    let later = mapped_at host port ms in
    if same_key m.host m.port host port then some m.addrs else later

unfoldable pub delete : Bytes → Bytes → List Mapping → List Mapping
delete host port [] = []
delete host port (m ∷ ms) =
    let rest = delete host port ms in if same_key m.host m.port host port then rest else m ∷ rest

-- The body of the loop over the rules.
unfoldable pub apply_rule : List Mapping → ResolveEntry → List Mapping
apply_rule mapped rule =
    if rule.remove
    then delete rule.host rule.port mapped
    else record { host = rule.host; port = rule.port; addrs = rule.addrs }
      ∷ delete rule.host rule.port mapped

unfoldable pub apply_rules : List Mapping → List ResolveEntry → List Mapping
apply_rules mapped [] = mapped
apply_rules mapped (rule ∷ rules) = apply_rules (apply_rule mapped rule) rules

unfoldable pub canonical_port : Bytes → Bytes
canonical_port port = elim (parse_uint 10 max_u16 port) [ none ↦ port | some n ↦ format_uint n ]

abbrev pub or_nil : Option (List Bytes) → List Bytes
or_nil none = []
or_nil (some addrs) = addrs

unfoldable pub lookup_resolve : Outside → List ResolveEntry → Bytes → Bytes → List Bytes
lookup_resolve x rules hostname port =
    let host = canonical_resolve_host x hostname in
    let p = canonical_port port in
    let mapped = apply_rules [] rules in
    elim (mapped_at host p mapped) [
      | some addrs ↦ addrs
      | none ↦ or_nil (mapped_at (b'*' ∷ []) p mapped)
    ]

abbrev is_empty : {A : Type 0} → List A → Bool
is_empty [] = true
is_empty (_ ∷ _) = false

unfoldable pub ja4t_enabled : Options → Bool
ja4t_enabled o = elim o.ja4t [ none ↦ false | some _ ↦ true ]

unfoldable pub utls_options_set : Options → Bool
utls_options_set o =
    not (is_empty o.utls_hello.client)
    || not (is_empty o.utls_ciphers)
    || not (is_empty o.utls_versions)
    || not (is_empty o.utls_extensions)
    || o.utls_info
    || o.utls_alpn_none
    || not (is_empty o.utls_alpn)
    || o.utls_ext_none

-- `checkTransportOptions` for a target of this scheme. Every error has the exit code 2.
unfoldable pub check_transport_options : Options → Bytes → Option Bytes
check_transport_options o scheme =
    let ja4t = ja4t_enabled o in
    let utls = utls_options_set o in
    if ja4t && utls
    then some (codes "JA4T options cannot be combined with uTLS options")
    else if ja4t && not (same scheme (codes "http"))
    then some (codes "JA4T options require an HTTP URL")
    else if utls && not (same scheme (codes "https"))
    then some (codes "uTLS options require an HTTPS URL")
    else if ja4t && same o.ip_family (b'6' ∷ [])
    then some (codes "JA4T options cannot be combined with --ipv6")
    else if not o.http3
    then none
    else if ja4t
    then some (codes "JA4T options cannot be combined with HTTP/3")
    else if utls
    then some (codes "uTLS options cannot be combined with HTTP/3")
    else if o.http2_prior_knowledge
    then some (codes "--http2-prior-knowledge cannot be combined with HTTP/3")
    else if not (same scheme (codes "https"))
    then some (codes "HTTP/3 requires an HTTPS URL")
    else none
