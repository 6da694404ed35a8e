-- ===== src/Hello/Ciphers.antt =====
-- internal/curlu/utls.go: the cipher suites of the ClientHello, and the number that `--utls-info`
-- prints.
use curlu.Base.{
  Bytes, ℕ, Bool, true, false, Option, none, some, List, [], ◌∷◌, ◌++◌, ◌<◌, ◌≡◌, refl, ◌∙◌, arith,
  if-by, Bool-cases, inl, inr, All, All-append, ◌||◌,
}
use curlu.Options.{Options}
use curlu.Hello.Grease.{Counted, count_non_grease-Counted, Alike, Alike-small}
use curlu.Hello.Defs.{
  Extension, Hello, is_empty, prepare, info_of, utls_mutates_hello, ClientHelloSpec, Utls, Prepared,
  ready, unprepared, failed, no_extensions_spec, no_extensions_conn, without_extensions,
  changed_hello, with_changes, change_first, changed_alpn, apply_parrot_alpn, extend_first,
  extended_versions, append_parrot_versions, append_parrot_extensions,
}

alpn-ciphers : (h : Hello) (o : Options) → (apply_parrot_alpn h o).cipher_suites ≡ h.cipher_suites
unfolding apply_parrot_alpn
alpn-ciphers h o = elim (Bool-cases o.utls_alpn_none) [
  | inl e ↦ rw (e, apply_parrot_alpn) refl
  | inr e ↦ elim (Bool-cases (is_empty o.utls_alpn)) [
    | inl e' ↦ rw (e, e', apply_parrot_alpn) refl
    | inr e' ↦
        rw (e, e', apply_parrot_alpn)
          (changed h o.utls_alpn (change_first o.utls_alpn h.extensions))
  ]
]
  where
    changed :
        (h : Hello) (first : Bytes) (r : List Extension × Option (List Bytes))
        → (changed_alpn h first r).cipher_suites ≡ h.cipher_suites
    changed h first (exts, some _) = refl
    changed h first (exts, none) = refl

versions-ciphers :
    (h : Hello) (vs : List ℕ) → (append_parrot_versions h vs).cipher_suites ≡ h.cipher_suites
unfolding append_parrot_versions
versions-ciphers h [] = refl
versions-ciphers h (v ∷ vs) = extended h (extend_first (v ∷ vs) h.extensions)
  where
    extended :
        (h : Hello) (r : List Extension × Option (List ℕ))
        → (extended_versions h r).cipher_suites ≡ h.cipher_suites
    extended h (exts, some _) = refl
    extended h (exts, none) = refl

extensions-ciphers :
    (h : Hello) (ids : List ℕ) → (append_parrot_extensions h ids).cipher_suites ≡ h.cipher_suites
unfolding append_parrot_extensions
extensions-ciphers h [] = refl
extensions-ciphers h (id ∷ ids) = refl

-- What is printed of the suites that are sent.
pub data Prints : Bool → List ℕ → Option ℕ → Type 0 where
  counted : {cs : List ℕ} {n : ℕ} → Counted cs n → Prints true cs (some n)
  silent : {cs : List ℕ} → Prints false cs none

-- What a run makes of the ClientHello, with the number that it prints.
pub data Sends (u : Utls) (o : Options) (golang : Bool) : Prepared → Type 0 where
  bare :
      {built h : Hello} {n : Option ℕ} (spec : ClientHelloSpec)
      → o.utls_ext_none ≡ true
      → u.build_handshake_state ≡ some built
      → spec.cipher_suites ≡ built.cipher_suites ++ o.utls_ciphers
      → u.apply_preset spec ≡ some h
      → Alike (built.cipher_suites ++ o.utls_ciphers) h.cipher_suites
      → Prints o.utls_info h.cipher_suites n
      → Sends u o golang (ready h n)
  changed :
      {built h : Hello} {n : Option ℕ}
      → o.utls_ext_none ≡ false
      → u.build_handshake_state ≡ some built
      → h.cipher_suites ≡ built.cipher_suites ++ o.utls_ciphers
      → Prints o.utls_info h.cipher_suites n
      → Sends u o golang (ready h n)
  untouched :
      o.utls_ext_none ≡ false
      → o.utls_ciphers ≡ []
      → o.utls_versions ≡ []
      → o.utls_extensions ≡ []
      → o.utls_alpn ≡ []
      → o.utls_alpn_none ≡ false
      → o.utls_info ≡ false
      → Sends u o golang unprepared
  unbuilt : u.build_handshake_state ≡ none → Sends u o golang (failed 35 none)
  unset :
      {built : Hello} (spec : ClientHelloSpec)
      → o.utls_ext_none ≡ true
      → u.build_handshake_state ≡ some built
      → spec.cipher_suites ≡ built.cipher_suites ++ o.utls_ciphers
      → u.apply_preset spec ≡ none
      → Sends u o golang (failed 35 none)
  unmarshalled :
      {built h : Hello} {n : Option ℕ}
      → golang ≡ false
      → u.build_handshake_state ≡ some built
      → h.cipher_suites ≡ built.cipher_suites ++ o.utls_ciphers
      → u.marshals h ≡ false
      → Prints o.utls_info h.cipher_suites n
      → Sends u o golang (failed 35 n)

-- uTLS builds suites of 16 bits, and takes over those of a preset but for GREASE values.
pub record IsLawful (u : Utls) : Type 0 where
  pub small : (h : Hello) → u.build_handshake_state ≡ some h → All (λ c. c < 65536) h.cipher_suites
  pub takes_over :
      (spec : ClientHelloSpec) (h : Hello)
      → u.apply_preset spec ≡ some h
      → Alike spec.cipher_suites h.cipher_suites

no_items : (cs : List ℕ) → is_empty cs ≡ true → cs ≡ []
no_items [] e = refl
no_items (_ ∷ _) e = absurd (cc e)

info_of-Prints :
    (o : Options) (h : Hello)
    → All (λ c. c < 65536) h.cipher_suites
    → Prints o.utls_info h.cipher_suites (info_of o h)
info_of-Prints o h small = elim (Bool-cases o.utls_info) [
  | inl e ↦ rw e (counted (count_non_grease-Counted h.cipher_suites small))
  | inr e ↦ rw e silent
]

changed_hello-ciphers :
    (o : Options) (golang : Bool) (built : Hello)
    → (changed_hello o golang built).cipher_suites ≡ built.cipher_suites ++ o.utls_ciphers
unfolding changed_hello
changed_hello-ciphers o golang built =
    let longer = record built { cipher_suites = built.cipher_suites ++ o.utls_ciphers } in
    if-by (λ (h : Hello). h.cipher_suites ≡ built.cipher_suites ++ o.utls_ciphers) golang
      (λ g. refl)
      (λ g.
        extensions-ciphers (append_parrot_versions (apply_parrot_alpn longer o) o.utls_versions)
          o.utls_extensions
        ∙ versions-ciphers (apply_parrot_alpn longer o) o.utls_versions
        ∙ alpn-ciphers longer o)

module _ (u : Utls) (lawful : IsLawful u) (o : Options)
    (small : All (λ c. c < 65536) o.utls_ciphers) (golang : Bool) where
  suites_below :
      (built : Hello)
      → u.build_handshake_state ≡ some built
      → All (λ c. c < 65536) (built.cipher_suites ++ o.utls_ciphers)
  suites_below built e = All-append _ _ _ (lawful.small built e) small

  preset-Sends :
      (built : Hello) (made : Option Hello)
      → o.utls_ext_none ≡ true
      → u.build_handshake_state ≡ some built
      → u.apply_preset (no_extensions_spec (built.cipher_suites ++ o.utls_ciphers)) ≡ made
      → Sends u o golang (without_extensions o made)
  unfolding no_extensions_spec
  preset-Sends built none x e f =
      unset (no_extensions_spec (built.cipher_suites ++ o.utls_ciphers)) x e refl f
  preset-Sends built (some h) x e f =
      let spec = no_extensions_spec (built.cipher_suites ++ o.utls_ciphers) in
      let alike = lawful.takes_over spec h f in
      bare spec x e refl f alike (info_of-Prints o h (Alike-small alike (suites_below built e)))

  bare-Sends :
      (base : Option Hello)
      → o.utls_ext_none ≡ true
      → u.build_handshake_state ≡ base
      → Sends u o golang (without_extensions o (no_extensions_conn u base o.utls_ciphers))
  unfolding no_extensions_conn
  bare-Sends none x e = unbuilt e
  bare-Sends (some built) x e = preset-Sends built _ x e refl

  changed-Sends :
      (base : Option Hello)
      → o.utls_ext_none ≡ false
      → u.build_handshake_state ≡ base
      → Sends u o golang (with_changes u o golang base)
  changed-Sends none x e = unbuilt e
  changed-Sends (some built) x e =
      let h = changed_hello o golang built in
      let sent = changed_hello-ciphers o golang built in
      let prints = info_of-Prints o h (rw sent (suites_below built e)) in
      if-by (Sends u o golang) (golang || u.marshals h) (λ m. changed x e sent prints)
        (λ m. unmarshalled {h = h} (ground (arith, m)) e sent (ground (arith, m)) prints)

  -- `handshakeUTLS` sends the cipher suites that uTLS has built and behind them those of --utls-ciphers,
  -- whatever other options change the ClientHello; with --utls-ext-none uTLS may put another GREASE
  -- value for one of them. It prints a number exactly with --utls-info: the number of the suites in the
  -- ClientHello that are none of the sixteen GREASE values. It leaves the ClientHello to the handshake
  -- only with no option that changes or counts it, and fails, with 35, only if a call of uTLS fails.
  -- uTLS is taken to build suites of 16 bits and to take over those of a preset but for GREASE values.
  pub prepare-Sends : Sends u o golang (prepare u o golang)
  unfolding prepare utls_mutates_hello
  prepare-Sends =
      if-by (Sends u o golang) o.utls_ext_none (λ x. bare-Sends _ x refl)
        (λ x.
          if-by (Sends u o golang) (utls_mutates_hello o) (λ m. changed-Sends _ x refl)
            (λ m.
              untouched x (no_items o.utls_ciphers (ground (arith, m)))
                (no_items o.utls_versions (ground (arith, m)))
                (no_items o.utls_extensions (ground (arith, m)))
                (no_items o.utls_alpn (ground (arith, m))) (ground (arith, m)) (ground (arith, m))))
