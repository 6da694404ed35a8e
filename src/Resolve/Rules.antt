-- ===== src/Resolve/Rules.antt =====
-- internal/curlu/client.go: `lookupResolve` and `canonicalPort`.
use mathlib.Core.Path.{subst}
use curlu.Base.{
  ℕ, true, Option, none, some, List, [], ◌∷◌, ◌++◌, ◌≡◌, ◌⊎◌, ◌↔◌, refl, sym, ap, ◌∙◌, arith, Bytes,
  same_iff, All, Option-cases, Bool-cases, inl, inr, if◌then◌else◌,
}
use curlu.Number.{parse_uint, format_uint, max_u16}
use curlu.Number.Decimal.{parse_uint-format_uint, parse_uint-le}
use curlu.Options.{ResolveEntry, Outside, canonical_resolve_host}
use curlu.Resolve.Defs.{
  Mapping, same_key, mapped_at, delete, apply_rule, apply_rules, canonical_port, or_nil,
  lookup_resolve,
}

-- What a list of rules, the last one first, says of a host and port: nothing, if the first rule for
-- them removes it or there is none, and else the addresses of that rule.
abbrev pub last_rule : Bytes → Bytes → List ResolveEntry → Option (List Bytes) → Option (List Bytes)
last_rule host port [] before = before
last_rule host port (rule ∷ rules) before = last_rule host port rules (
    if same_key rule.host rule.port host port
    then if rule.remove then none else some rule.addrs
    else before)

mapped_at-delete :
    (host port h p : Bytes) (ms : List Mapping)
    → mapped_at host port (delete h p ms)
      ≡ (if same_key h p host port then none else mapped_at host port ms)
unfolding mapped_at delete
mapped_at-delete host port h p [] = ground arith
mapped_at-delete host port h p (m ∷ ms) = ground (
  arith,
  same_iff m.host h,
  same_iff m.port p,
  same_iff m.host host,
  same_iff m.port port,
  same_iff h host,
  same_iff p port,
  mapped_at-delete host port h p ms,
)

mapped_at-nil : (host port : Bytes) → mapped_at host port [] ≡ none
unfolding mapped_at
mapped_at-nil host port = refl

mapped_at-apply_rule :
    (host port : Bytes) (mapped : List Mapping) (rule : ResolveEntry)
    → mapped_at host port (apply_rule mapped rule) ≡ (
        if same_key rule.host rule.port host port
        then if rule.remove then none else some rule.addrs
        else mapped_at host port mapped)
unfolding apply_rule mapped_at
mapped_at-apply_rule host port mapped rule =
    ground (arith, mapped_at-delete host port rule.host rule.port mapped)

mapped_at-apply_rules :
    (host port : Bytes) (rules : List ResolveEntry) (mapped : List Mapping)
    → mapped_at host port (apply_rules mapped rules)
      ≡ last_rule host port rules (mapped_at host port mapped)
unfolding apply_rules
mapped_at-apply_rules host port [] mapped = refl
mapped_at-apply_rules host port (rule ∷ rules) mapped =
    mapped_at-apply_rules host port rules (apply_rule mapped rule)
    ∙ ap (last_rule host port rules) (mapped_at-apply_rule host port mapped rule)

-- A rule for this host and port.
abbrev pub IsFor : Bytes → Bytes → ResolveEntry → Type 0
IsFor host port rule = (rule.host ≡ host) × (rule.port ≡ port)

abbrev pub rule_addrs : ResolveEntry → Option (List Bytes)
rule_addrs rule = if rule.remove then none else some rule.addrs

-- A rule for this host and port that none follows.
pub record IsLast (host port : Bytes) (rules : List ResolveEntry) (rule : ResolveEntry)
    : Type 0 where
  pub before : List ResolveEntry
  pub after : List ResolveEntry
  pub place : rules ≡ before ++ rule ∷ after
  pub is_for : IsFor host port rule
  pub none_after : All (λ r. ¬ (IsFor host port r)) after

-- The last rule for this host and port decides; without one there is nothing.
abbrev pub Decides : Bytes → Bytes → List ResolveEntry → Option (List Bytes) → Type 0
Decides host port rules r =
    ((rule : ResolveEntry) × IsLast host port rules rule × (r ≡ rule_addrs rule))
    ⊎ (All (λ rule. ¬ (IsFor host port rule)) rules × (r ≡ none))

IsLast-cons :
    {host port : Bytes} {rules : List ResolveEntry} {rule : ResolveEntry} (first : ResolveEntry)
    → IsLast host port rules rule
    → IsLast host port (first ∷ rules) rule
IsLast-cons first l = record {
  before = first ∷ l.before;
  after = l.after;
  place = ap (λ rs. first ∷ rs) l.place;
  is_for = l.is_for;
  none_after = l.none_after;
}

same_key-IsFor :
    (host port : Bytes) (rule : ResolveEntry)
    → (same_key rule.host rule.port host port ≡ true) ↔ IsFor host port rule
same_key-IsFor host port rule = ground (arith, same_iff rule.host host, same_iff rule.port port)

last_rule-cases :
    (host port : Bytes) (rules : List ResolveEntry) (before : Option (List Bytes))
    → ((rule : ResolveEntry) × IsLast host port rules rule
        × (last_rule host port rules before ≡ rule_addrs rule))
      ⊎ (All (λ rule. ¬ (IsFor host port rule)) rules × (last_rule host port rules before ≡ before))
last_rule-cases host port [] before = inr (tt, refl)
last_rule-cases host port (rule ∷ rules) before =
    elim (Bool-cases (same_key rule.host rule.port host port)) [
      | inl e ↦ elim (last_rule-cases host port rules (rule_addrs rule)) [
        | inl (last, l, h) ↦ inl (last, IsLast-cons rule l, rw e h)
        | inr (others, h) ↦ inl (
          rule,
          record {
            before = [];
            after = rules;
            place = refl;
            is_for = (same_key-IsFor host port rule).0 e;
            none_after = others;
          },
          rw e h,
        )
      ]
      | inr e ↦ elim (last_rule-cases host port rules before) [
        | inl (last, l, h) ↦ inl (last, IsLast-cons rule l, rw e h)
        | inr (others, h) ↦ inr ((λ k. cc (e, (same_key-IsFor host port rule).1 k), others), rw e h)
      ]
    ]

mapped_at-Decides :
    (host port : Bytes) (rules : List ResolveEntry)
    → Decides host port rules (mapped_at host port (apply_rules [] rules))
mapped_at-Decides host port rules =
    subst (Decides host port rules)
      (sym (
        mapped_at-apply_rules host port rules []
        ∙ ap (last_rule host port rules) (mapped_at-nil host port)))
      (last_rule-cases host port rules none)

-- `lookupResolve` answers with what the last rule for the canonical host and port says, and, when
-- that is nothing, with what the last rule for the wildcard and this port says. A rule that removes
-- an entry says nothing.
pub lookup_resolve-Decides :
    (x : Outside) (rules : List ResolveEntry) (hostname port : Bytes)
    → (exact wild : Option (List Bytes)) × Decides
        (canonical_resolve_host x hostname)
        (canonical_port port)
        rules
        exact
      × Decides (b'*' ∷ []) (canonical_port port) rules wild
      × (lookup_resolve x rules hostname port
          ≡ (elim exact [ some addrs ↦ addrs | none ↦ or_nil wild ]))
unfolding lookup_resolve
lookup_resolve-Decides x rules hostname port = (
  mapped_at (canonical_resolve_host x hostname) (canonical_port port) (apply_rules [] rules),
  mapped_at (b'*' ∷ []) (canonical_port port) (apply_rules [] rules),
  mapped_at-Decides (canonical_resolve_host x hostname) (canonical_port port) rules,
  mapped_at-Decides (b'*' ∷ []) (canonical_port port) rules,
  refl,
)

canonical_port-some :
    (port : Bytes) {n : ℕ}
    → parse_uint 10 max_u16 port ≡ some n
    → canonical_port port ≡ format_uint n
unfolding canonical_port
canonical_port-some port e = rw (e, canonical_port) refl

canonical_port-none :
    (port : Bytes) → parse_uint 10 max_u16 port ≡ none → canonical_port port ≡ port
unfolding canonical_port
canonical_port-none port e = rw (e, canonical_port) refl

reads_canonical :
    (port : Bytes) {n : ℕ}
    → parse_uint 10 max_u16 port ≡ some n
    → parse_uint 10 max_u16 (canonical_port port) ≡ some n
reads_canonical port {n} e =
    ap (parse_uint 10 max_u16) (canonical_port-some port e)
    ∙ parse_uint-format_uint max_u16 n (parse_uint-le 10 max_u16 port e)

abbrev SamePort : Bytes → Bytes → Type 0
SamePort p q =
    (p ≡ q) ⊎ ((n : ℕ) × (parse_uint 10 max_u16 p ≡ some n) × (parse_uint 10 max_u16 q ≡ some n))

SamePort-canonical_port : (p q : Bytes) → canonical_port p ≡ canonical_port q → SamePort p q
SamePort-canonical_port p q e =
    let moved = ap (parse_uint 10 max_u16) e in
    elim (Option-cases (parse_uint 10 max_u16 p)) [
      | inl a ↦ elim (Option-cases (parse_uint 10 max_u16 q)) [
        | inl b ↦ inl (sym (canonical_port-none p a) ∙ e ∙ canonical_port-none q b)
        | inr (m, b) ↦
            let back = ap (parse_uint 10 max_u16) (canonical_port-none p a) in
            absurd (cc (a, back, moved, reads_canonical q b))
      ]
      | inr (n, a) ↦ elim (Option-cases (parse_uint 10 max_u16 q)) [
        | inl b ↦
            let back = ap (parse_uint 10 max_u16) (canonical_port-none q b) in
            absurd (cc (b, back, moved, reads_canonical p a))
        | inr (m, b) ↦
            let same_number : some m ≡ some n =
              sym (reads_canonical q b) ∙ sym moved ∙ reads_canonical p a in
            inr (n, a, b ∙ same_number)
      ]
    ]

-- Two ports have the same canonical form if and only if they are the same text or numbers of the
-- same value up to 65535, so that rules and URLs meet however a port is written.
pub canonical_port_iff :
    (p q : Bytes)
    → (canonical_port p ≡ canonical_port q) ↔ (
        (p ≡ q)
        ⊎ ((n : ℕ) × (parse_uint 10 max_u16 p ≡ some n) × (parse_uint 10 max_u16 q ≡ some n)))
canonical_port_iff p q = (
  SamePort-canonical_port p q,
  λ h. elim h [
    | inl e ↦ ap canonical_port e
    | inr (n, a, b) ↦ canonical_port-some p a ∙ sym (canonical_port-some q b)
  ],
)
