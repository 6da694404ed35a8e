-- ===== src/Resolve/Tests.antt =====
-- Rules that replace and remove one another, and the theorems there.
use curlu.Base.{
  ℕ, Bool, true, false, Option, none, some, List, [], ◌∷◌, ◌≡◌, ◌⊎◌, ◌↔◌, refl, Bytes, codes, same,
}
use curlu.Number.{parse_uint, format_uint, max_u16}
use curlu.Options.{no_options, Options, Outside, ResolveEntry, nanoseconds, canonical_resolve_host}
use curlu.Resolve.Defs.{
  canonical_port, lookup_resolve, apply_rules, mapped_at, or_nil, check_transport_options, delete,
  apply_rule,
}
use curlu.Resolve.Rules.{Decides, lookup_resolve-Decides, canonical_port_iff}
use curlu.Resolve.Transport.{GoTogether, check_transport_options_iff}

-- No text is an address, and letters keep their case.
abbrev world : Outside
world = record {
  parse_float = λ s. some (nanoseconds 0);
  parse_ip = λ s. none;
  lower = λ s. s;
  equal_fold = λ a b. same a b;
  hello_by_name = [];
}

abbrev rule : Bytes → Bytes → Bool → ResolveEntry
rule host addr remove = record {
  host = host;
  port = codes "80";
  addrs = addr ∷ [];
  remove = remove;
}

abbrev rules : List ResolveEntry
rules =
    rule (codes "*") (codes "9.9.9.9") false
    ∷ rule (codes "a") (codes "1.1.1.1") false
    ∷ rule (codes "a") (codes "2.2.2.2") false
    ∷ rule (codes "b") (codes "3.3.3.3") false
    ∷ rule (codes "b") [] true
    ∷ []

lookups :
    (lookup_resolve world rules (codes "a") (codes "080") ≡ codes "2.2.2.2" ∷ [])
    × (lookup_resolve world rules (codes "b") (codes "80") ≡ codes "9.9.9.9" ∷ [])
    × (lookup_resolve world rules (codes "a") (codes "81") ≡ [])
unfolding lookup_resolve apply_rules apply_rule delete mapped_at canonical_port parse_uint
    format_uint canonical_resolve_host same
lookups = (refl, refl, refl)

lookup_resolve-Decides_example :
    (exact wild : Option (List Bytes)) × Decides
      (canonical_resolve_host world (codes "a"))
      (canonical_port (codes "080"))
      rules
      exact
    × Decides (b'*' ∷ []) (canonical_port (codes "080")) rules wild
    × (lookup_resolve world rules (codes "a") (codes "080")
        ≡ (elim exact [ some addrs ↦ addrs | none ↦ or_nil wild ]))
lookup_resolve-Decides_example = lookup_resolve-Decides world rules (codes "a") (codes "080")

canonical_port_iff_example : (canonical_port (codes "080") ≡ canonical_port (codes "80")) ↔ (
    (codes "080" ≡ codes "80")
    ⊎ ((n : ℕ) × (parse_uint 10 max_u16 (codes "080") ≡ some n)
        × (parse_uint 10 max_u16 (codes "80") ≡ some n)))
canonical_port_iff_example = canonical_port_iff (codes "080") (codes "80")

abbrev quic : Options
quic = record no_options { http3 = true }

check_transport_options_iff_example :
    (check_transport_options quic (codes "https") ≡ none) ↔ GoTogether quic (codes "https")
check_transport_options_iff_example = check_transport_options_iff quic (codes "https")
