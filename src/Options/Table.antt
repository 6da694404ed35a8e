-- ===== src/Options/Table.antt =====
-- internal/curlu/options.go: the long options of `ParseArgs`, by name.
use curlu.Base.{
  true, Option, none, some, List, [], ◌∷◌, ◌++◌, if◌then◌else◌, Bytes, codes, Result, ok, err, same,
}
use curlu.Fingerprint.{parse_ja4t}
use curlu.Options.Defs.{Options, ValueError, unknown_hello, invalid_ja4t, Outside}
use curlu.Options.Value.{
  parse_seconds, parse_hex_id, parse_alpn_hex, resolve_utls_hello, parse_resolve,
}

-- A case of the `switch` on the name: one that refuses a value, or one that takes an argument.
pub data LongOption : Type 0 where
  sets : (Options → Options) → LongOption
  takes : (Bytes → Options → Result ValueError Options) → LongOption

abbrev then_set : {A : Type 0} → (A → Options) → Result ValueError A → Result ValueError Options
then_set set (ok a) = ok (set a)
then_set set (err e) = err e

abbrev set_hello : Outside → Bytes → Options → Result ValueError Options
set_hello x value o = elim (resolve_utls_hello x value) [
  | none ↦ err unknown_hello
  | some (id, _) ↦ ok (record o { utls_hello = id })
]

abbrev set_ja4t : Bytes → Options → Result ValueError Options
set_ja4t value o = elim (parse_ja4t value) [
  | ok fp ↦ ok (record o { ja4t = some fp })
  | err e ↦ err (invalid_ja4t e)
]

unfoldable pub long_options : Outside → List (Bytes × LongOption)
long_options x =
    (codes "include", sets (λ o. record o { include = true }))
    ∷ (codes "header", takes (λ v o. ok (record o { headers = o.headers ++ v ∷ [] })))
    ∷ (codes "silent", sets (λ o. record o { silent = true }))
    ∷ (codes "show-error", sets (λ o. record o { show_error = true }))
    ∷ (codes "verbose", sets (λ o. record o { verbose = true }))
    ∷ (
      codes "connect-timeout",
      takes (λ v o. then_set (λ d. record o { connect_timeout = d }) (parse_seconds x v)),
    )
    ∷ (
      codes "max-time",
      takes (λ v o. then_set (λ d. record o { max_time = d }) (parse_seconds x v)),
    )
    ∷ (
      codes "resolve",
      takes (λ v o. then_set (λ r. record o { resolve = o.resolve ++ r ∷ [] }) (parse_resolve x v)),
    )
    ∷ (codes "utls-hello", takes (set_hello x))
    ∷ (
      codes "utls-cipher-append",
      takes (λ v o.
          then_set (λ c. record o { utls_ciphers = o.utls_ciphers ++ c ∷ [] }) (parse_hex_id v)),
    )
    ∷ (
      codes "utls-version-append",
      takes (λ v o.
          then_set (λ c. record o { utls_versions = o.utls_versions ++ c ∷ [] }) (parse_hex_id v)),
    )
    ∷ (
      codes "utls-ext-append",
      takes (λ v o.
          then_set (λ c. record o { utls_extensions = o.utls_extensions ++ c ∷ [] })
            (parse_hex_id v)),
    )
    ∷ (codes "utls-hello-list", sets (λ o. record o { utls_hello_list = true }))
    ∷ (codes "utls-info", sets (λ o. record o { utls_info = true }))
    ∷ (codes "utls-alpn-none", sets (λ o. record o { utls_alpn_none = true }))
    ∷ (codes "utls-ext-none", sets (λ o. record o { utls_ext_none = true }))
    ∷ (
      codes "utls-alpn-hex",
      takes (λ v o. then_set (λ p. record o { utls_alpn = p }) (parse_alpn_hex v)),
    )
    ∷ (codes "ja4t", takes set_ja4t)
    ∷ (codes "http2-prior-knowledge", sets (λ o. record o { http2_prior_knowledge = true }))
    ∷ (codes "http3", sets (λ o. record o { http3 = true }))
    ∷ (codes "http3-only", sets (λ o. record o { http3 = true }))
    ∷ (codes "ipv4", sets (λ o. record o { ip_family = b'4' ∷ [] }))
    ∷ (codes "ipv6", sets (λ o. record o { ip_family = b'6' ∷ [] }))
    ∷ (codes "globoff", sets (λ o. record o { globoff = true }))
    ∷ (codes "insecure", sets (λ o. record o { insecure = true }))
    ∷ (codes "help", sets (λ o. record o { help = true }))
    ∷ (codes "version", sets (λ o. record o { version = true }))
    ∷ []

unfoldable pub long_option : Bytes → List (Bytes × LongOption) → Option LongOption
long_option name [] = none
long_option name ((n, option) ∷ options) =
    let later = long_option name options in if same n name then some option else later
