-- ===== src/Options/Rule.antt =====
-- `parseResolve`: the rules that are accepted.
use mathlib.Core.Path.{subst}
use curlu.Base.{
  ℕ, Bool, true, false, Option, none, some, List, [], ◌∷◌, ◌≤◌, ◌≡◌, ◌≢◌, refl, sym, ap, ◌∙◌, arith,
  Bytes, Option-cases, Bool-cases, inl, inr, ok, or_err-eq-ok,
}
use curlu.Text.{cut, contains_byte, split, split-ne-nil}
use curlu.Number.{parse_uint, format_uint, max_u16}
use curlu.Number.Decimal.{parse_uint-le}
use curlu.Options.Defs.{Outside, ResolveEntry, invalid_resolve}
use curlu.Options.Value.{
  resolve_sign, resolve_rest, resolve_removal, resolve_addition, split_resolve_host,
  parse_resolve_port, parse_each_addr, parse_resolve_addrs, canonical_resolve_host, parse_resolve,
}

-- The port of a rule.
parse_resolve_port-some :
    (s : Bytes) {p : Bytes}
    → parse_resolve_port s ≡ some p
    → (n : ℕ) × (n ≤ max_u16) × (p ≡ format_uint n)
unfolding parse_resolve_port
parse_resolve_port-some s h = elim (Option-cases (parse_uint 10 max_u16 s)) [
  | inl e ↦ ground (arith, e)
  | inr (n, e) ↦ (n, parse_uint-le 10 max_u16 s e, ground (arith, e))
]

parse_each_addr-ne-nil :
    (x : Outside) (parts : List Bytes) {ips : List Bytes}
    → parts ≢ []
    → parse_each_addr x parts ≡ some ips
    → ips ≢ []
unfolding parse_each_addr
parse_each_addr-ne-nil x [] ne h = absurd (ne refl)
parse_each_addr-ne-nil x ([] ∷ parts) ne h = ground arith
parse_each_addr-ne-nil x ((c ∷ part) ∷ parts) ne h = ground arith

parse_resolve_addrs-ne-nil :
    (x : Outside) (s : Bytes) {ips : List Bytes} → parse_resolve_addrs x s ≡ some ips → ips ≢ []
unfolding parse_resolve_addrs
parse_resolve_addrs-ne-nil x s h = parse_each_addr-ne-nil x (split b',' s) (split-ne-nil b',' s) h

some_injective : {A : Type 0} {a b : A} → ◌≡◌ {A = Option A} (some a) (some b) → a ≡ b
some_injective {a} h = ap (λ o. elim o [ some v ↦ v | none ↦ a ]) h

-- The ways to make a rule.
module _ (host rest : Bytes) where
  removal_none : parse_resolve_port rest ≡ none → resolve_removal host rest ≡ none
  removal_none e = rw (e, resolve_removal) refl

  removal_some :
      {port : Bytes}
      → parse_resolve_port rest ≡ some port
      → resolve_removal host rest
        ≡ some (record { host = host; port = port; addrs = []; remove = true })
  removal_some e = rw (e, resolve_removal) refl

module _ (x : Outside) (host port_text addrs_text : Bytes) where
  addition_none :
      parse_resolve_port port_text ≡ none → resolve_addition x host port_text addrs_text ≡ none
  addition_none e = rw (e, resolve_addition) refl

  addition_no_addrs :
      {port : Bytes}
      → parse_resolve_port port_text ≡ some port
      → parse_resolve_addrs x addrs_text ≡ none
      → resolve_addition x host port_text addrs_text ≡ none
  addition_no_addrs e e' = rw (e, e', resolve_addition) refl

  addition_some :
      {port : Bytes} {addrs : List Bytes}
      → parse_resolve_port port_text ≡ some port
      → parse_resolve_addrs x addrs_text ≡ some addrs
      → resolve_addition x host port_text addrs_text
        ≡ some (record { host = host; port = port; addrs = addrs; remove = false })
  addition_some e e' = rw (e, e', resolve_addition) refl

-- A rule whose port is in canonical form, with addresses if and only if it adds.
pub record IsRule (rule : ResolveEntry) : Type 0 where
  pub number : ℕ
  pub in_range : number ≤ max_u16
  pub port : rule.port ≡ format_uint number
  pub removes : rule.remove ≡ true → rule.addrs ≡ []
  pub adds : rule.remove ≡ false → rule.addrs ≢ []

resolve_removal-IsRule :
    (host rest : Bytes) (rule : ResolveEntry) → resolve_removal host rest ≡ some rule → IsRule rule
resolve_removal-IsRule host rest rule h = elim (Option-cases (parse_resolve_port rest)) [
  | inl e ↦ absurd (cc (h, removal_none host rest e))
  | inr (port, e) ↦
      let (n, small, written) = parse_resolve_port-some rest e in
      let made = some_injective (sym (removal_some host rest e) ∙ h) in
      subst IsRule made (record {
        number = n;
        in_range = small;
        port = written;
        removes = λ _. refl;
        adds = λ bad. absurd (cc bad);
      })
]

resolve_addition-IsRule :
    (x : Outside) (host port_text addrs_text : Bytes) (rule : ResolveEntry)
    → resolve_addition x host port_text addrs_text ≡ some rule
    → IsRule rule
resolve_addition-IsRule x host port_text addrs_text rule h =
    elim (Option-cases (parse_resolve_port port_text)) [
      | inl e ↦ absurd (cc (h, addition_none x host port_text addrs_text e))
      | inr (port, e) ↦ elim (Option-cases (parse_resolve_addrs x addrs_text)) [
        | inl e' ↦ absurd (cc (h, addition_no_addrs x host port_text addrs_text e e'))
        | inr (addrs, e') ↦
            let (n, small, written) = parse_resolve_port-some port_text e in
            let made = some_injective (sym (addition_some x host port_text addrs_text e e') ∙ h) in
            subst IsRule made (record {
              number = n;
              in_range = small;
              port = written;
              removes = λ bad. absurd (cc bad);
              adds = λ _. parse_resolve_addrs-ne-nil x addrs_text e';
            })
      ]
    ]

resolve_rest-IsRule :
    (x : Outside) (remove : Bool) (host rest : Bytes) (rule : ResolveEntry)
    → resolve_rest x remove host rest ≡ some rule
    → IsRule rule
resolve_rest-IsRule x true host rest rule h = elim (Bool-cases (contains_byte b':' rest)) [
  | inl e ↦ ground (arith, e)
  | inr e ↦ resolve_removal-IsRule host rest rule (rw (e, resolve_rest) at h)
]
resolve_rest-IsRule x false host rest rule h = elim (Option-cases (cut b':' rest)) [
  | inl e ↦ ground (arith, e)
  | inr ((port_text, addrs_text), e) ↦
      resolve_addition-IsRule x host port_text addrs_text rule (rw (e, resolve_rest) at h)
]

parse_resolve_cases :
    (x : Outside) (value : Bytes) (cuts : Option (Bytes × Bytes)) {rule : ResolveEntry}
    → split_resolve_host (resolve_sign value).1 ≡ cuts
    → parse_resolve x value ≡ ok rule
    → (host : Bytes) × (rest : Bytes) × (resolve_rest x (resolve_sign value).0 host rest
        ≡ some rule)
unfolding parse_resolve
parse_resolve_cases x value none e h = ground (arith, e)
parse_resolve_cases x value (some ([], rest)) e h = ground (arith, e)
parse_resolve_cases x value (some (c ∷ host, rest)) e h = (
  canonical_resolve_host x (c ∷ host),
  rest,
  or_err-eq-ok (resolve_rest x (resolve_sign value).0 (canonical_resolve_host x (c ∷ host)) rest)
      invalid_resolve (rw (e, parse_resolve) at h),
)

-- A rule that `parseResolve` accepts has as its port a number up to 65535 in canonical form, as
-- `canonicalPort` makes it of the ports of URLs; it has no addresses if it removes, and at least one
-- if it does not.
pub parse_resolve-IsRule :
    (x : Outside) (value : Bytes) (rule : ResolveEntry)
    → parse_resolve x value ≡ ok rule
    → IsRule rule
parse_resolve-IsRule x value rule h =
    let (host, rest, made) =
      parse_resolve_cases x value (split_resolve_host (resolve_sign value).1) refl h in
    resolve_rest-IsRule x (resolve_sign value).0 host rest rule made
