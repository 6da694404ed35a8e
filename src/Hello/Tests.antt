-- ===== src/Hello/Tests.antt =====
-- A ClientHello with GREASE, an ALPN extension and padding, and the theorems there.
use curlu.Base.{
  ℕ, not, none, Option, Bool-cases, inl, inr, if◌then◌else◌, ◌==◌, sym, ap, arith, true, false,
  some, List, [], ◌∷◌, ◌++◌, map, ◌≡◌, refl, codes, ok, err, same,
}
use curlu.Options.{Options, no_options}
use curlu.Hello.Defs.{
  Extension, alpn, supported_versions, padding, generic, other, Hello, http11, count_non_grease,
  apply_parrot_alpn, append_parrot_versions, append_parrot_extensions, extend_first, prepare,
  must_stay_last, split_last, change_first, handshake_outcome, utls_mutates_hello,
  golang_next_protos, is_empty, Utls, Prepared, ready, unprepared, failed, changed_hello,
  no_extensions_conn, no_extensions_spec,
}
use curlu.Hello.Extensions.{Parts, append_parrot_extensions-Parts}
use curlu.Hello.Grease.{Alike, nothing_alike, kept, regreased}
use curlu.Hello.Ciphers.{IsLawful, Sends, prepare-Sends}

abbrev hello : Hello
hello = record {
  extensions =
      other 1 ∷ alpn (codes "h2" ∷ http11 ∷ []) ∷ supported_versions (772 ∷ []) ∷ padding ∷ [];
  cipher_suites = 0x2a2a ∷ 4865 ∷ [];
  alpn_protocols = codes "h2" ∷ http11 ∷ [];
  versions = 772 ∷ [];
}

abbrev with_alpn : Options
with_alpn = record no_options {
  utls_alpn = codes "x";
  utls_ciphers = 0x3a3a ∷ 7 ∷ [];
  utls_info = true;
}

append_parrot_extensions-Parts_example :
    (front : List Extension) × (back : List Extension) × Parts hello.extensions front back
    × (append_parrot_extensions hello (9 ∷ 9 ∷ [])
        ≡ record hello { extensions = front ++ (map generic (9 ∷ 9 ∷ []) ++ back) })
append_parrot_extensions-Parts_example = append_parrot_extensions-Parts hello (9 ∷ 9 ∷ [])

-- uTLS puts another GREASE value for 0x2a2a.
abbrev regrease : List ℕ → List ℕ
regrease [] = []
regrease (c ∷ cs) = (if c == 0x2a2a then 0x4a4a else c) ∷ regrease cs

abbrev utls : Utls
utls = record {
  build_handshake_state = some hello;
  apply_preset =
      λ spec. some (record hello { extensions = []; cipher_suites = regrease spec.cipher_suites });
  marshals = λ h. not (is_empty h.alpn_protocols);
}

regrease-Alike : (cs : List ℕ) → Alike cs (regrease cs)
regrease-Alike [] = nothing_alike
regrease-Alike (c ∷ cs) = elim (Bool-cases (c == 0x2a2a)) [
  | inl e ↦
      let was : c ≡ 0x2a2a = ground (arith, e) in
      rw e (regreased (2, omega arith, was) (4, omega arith, refl) (regrease-Alike cs))
  | inr e ↦ rw e (kept c (regrease-Alike cs))
]

abbrev suites_of : Option Hello → List ℕ
suites_of none = []
suites_of (some h) = h.cipher_suites

utls-IsLawful : IsLawful utls
utls-IsLawful = record {
  small = λ h e. rw (sym (ap suites_of e)) (omega arith, (omega arith, tt));
  takes_over = λ spec h e. rw (sym (ap suites_of e)) (regrease-Alike spec.cipher_suites);
}

prepare-Sends_example : Sends utls with_alpn false (prepare utls with_alpn false)
prepare-Sends_example =
    prepare-Sends utls utls-IsLawful with_alpn (omega arith, (omega arith, tt)) false

extended :
    (append_parrot_extensions hello (9 ∷ 9 ∷ [])).extensions
    ≡ other 1
      ∷ alpn (codes "h2" ∷ http11 ∷ [])
      ∷ supported_versions (772 ∷ [])
      ∷ generic 9
      ∷ generic 9
      ∷ padding
      ∷ []
unfolding append_parrot_extensions split_last must_stay_last
extended = refl

versions_appended : (append_parrot_versions hello (1 ∷ 2 ∷ [])).versions ≡ 772 ∷ 1 ∷ 2 ∷ []
unfolding append_parrot_versions extend_first
versions_appended = refl

abbrev sent_of : Prepared → List ℕ
sent_of (ready h n) = h.cipher_suites
sent_of _ = []

abbrev printed_of : Prepared → Option ℕ
printed_of (ready h n) = n
printed_of unprepared = none
printed_of (failed code n) = n

info_printed : printed_of (prepare utls with_alpn false) ≡ some 2
unfolding prepare utls_mutates_hello changed_hello append_parrot_extensions append_parrot_versions
    apply_parrot_alpn change_first count_non_grease
info_printed = refl

bare_sent :
    sent_of (prepare utls (record with_alpn { utls_ext_none = true }) false)
    ≡ 0x4a4a ∷ 4865 ∷ 0x3a3a ∷ 7 ∷ []
unfolding prepare no_extensions_conn no_extensions_spec
bare_sent = refl

unmarshalled_fails :
    prepare utls (record no_options { utls_alpn_none = true; utls_info = true }) false
    ≡ failed 35 (some 1)
unfolding prepare utls_mutates_hello changed_hello append_parrot_extensions append_parrot_versions
    apply_parrot_alpn count_non_grease
unmarshalled_fails = refl

default_unprepared : prepare utls no_options false ≡ unprepared
unfolding prepare utls_mutates_hello
default_unprepared = refl

protocol_refused : handshake_outcome false (ok (codes "x")) ≡ err 1
unfolding handshake_outcome same
protocol_refused = refl

golang_offers : golang_next_protos with_alpn ≡ codes "x" ∷ http11 ∷ []
unfolding golang_next_protos
golang_offers = refl
