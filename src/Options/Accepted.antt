-- ===== src/Options/Accepted.antt =====
-- `ParseArgs`: the options that are accepted.
use curlu.Base.{
  true, false, Option, none, some, List, [], ◌≡◌, ◌≢◌, ◌↔◌, sym, ap, ◌∙◌, arith, Bytes, same_iff,
}
use curlu.Options.Defs.{Options, no_options, OptionError, Outside}
use curlu.Options.Parse.{expand_combined_flags, conflict, check_conflicts, parse_args}
use curlu.Options.Rounds.{parse_from}

-- Options that do not contradict one another, with a URL where one is needed.
pub record IsConsistent (o : Options) : Type 0 where
  pub one_alpn : o.utls_alpn_none ≡ true → o.utls_alpn ≡ []
  pub ext_none : o.utls_ext_none ≡ true → (o.utls_alpn_none ≡ false) × (o.utls_alpn ≡ [])
  pub versions : o.utls_versions ≢ [] → (o.utls_ext_none ≡ false) × (o.utls_hello.client ≢ [])
  pub extensions : o.utls_extensions ≢ [] → (o.utls_ext_none ≡ false) × (o.utls_hello.client ≢ [])
  pub urls : o.help ≡ false → o.version ≡ false → o.utls_hello_list ≡ false → o.urls ≢ []

conflict-IsConsistent : (o : Options) → conflict o ≡ none → IsConsistent o
unfolding conflict
conflict-IsConsistent o h = record {
  one_alpn = ground (arith, same_iff o.utls_alpn []);
  ext_none = ground (arith, same_iff o.utls_alpn []);
  versions = ground (arith, same_iff o.utls_hello.client []);
  extensions = ground (arith, same_iff o.utls_hello.client []);
  urls = ground arith;
}

IsConsistent-conflict : (o : Options) → IsConsistent o → conflict o ≡ none
unfolding conflict
IsConsistent-conflict o c = ground (
  arith,
  c.one_alpn,
  c.ext_none,
  c.versions,
  c.extensions,
  c.urls,
  same_iff o.utls_alpn [],
  same_iff o.utls_hello.client [],
)

check_conflicts_iff :
    (r : Options × Option OptionError) (o : Options)
    → (check_conflicts r ≡ (o, none)) ↔ ((r ≡ (o, none)) × (conflict o ≡ none))
unfolding check_conflicts
check_conflicts_iff (o', some e) o =
    (λ h. absurd (cc (ap (λ p. p.1) h)), λ (h, _). absurd (cc (ap (λ p. p.1) h)))
check_conflicts_iff (o', none) o = (
  λ h.
      let same_options : o' ≡ o = ap (λ p. p.0) h in
      (ap (λ q. (q, none)) same_options, sym (ap conflict same_options) ∙ ap (λ p. p.1) h),
  λ (h, fine). ap (λ q. (q, conflict q)) (ap (λ p. p.0) h) ∙ ap (λ c. (o, c)) fine,
)

-- `ParseArgs` accepts the arguments with some options if and only if its loop, on the arguments after
-- the splitting of flags, ends without an error with these options, and they are consistent: ALPN is
-- not both set and left out; without extensions there is no ALPN option; appended versions and
-- extensions come with a ClientHello and with extensions; and there is a URL, unless help, the
-- version or the list of ClientHellos is asked for.
pub parse_args_iff :
    (x : Outside) (args : List Bytes) (o : Options)
    → (parse_args x args ≡ (o, none))
      ↔ ((parse_from x false no_options (expand_combined_flags args) ≡ (o, none)) × IsConsistent o)
unfolding parse_args
parse_args_iff x args o =
    let checks =
      check_conflicts_iff (parse_from x false no_options (expand_combined_flags args)) o in
    (
      λ h. let (looped, fine) = checks.0 h in (looped, conflict-IsConsistent o fine),
      λ (looped, c). checks.1 (looped, IsConsistent-conflict o c),
    )
