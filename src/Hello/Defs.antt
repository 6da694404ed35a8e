-- ===== src/Hello/Defs.antt =====
-- internal/curlu/utls.go: `handshakeUTLS` and its helpers. uTLS makes the ClientHello that the code
-- changes, and runs the handshake.
use curlu.Base.{
  ℕ, suc, Bool, true, false, not, ◌&&◌, ◌||◌, Option, none, some, List, [], ◌∷◌, ◌++◌, map, ◌/◌,
  ◌%◌, ◌^◌, ◌==◌, if◌then◌else◌, Bytes, codes, Result, ok, err, same,
}
use curlu.Fault.{Fault, is_timeout, is_cert_verify_error}
use curlu.Options.{Options, Outside}

-- `utls.TLSExtension`, by the types that the code asks for; any other is `other`.
pub data Extension : Type 0 where
  alpn : List Bytes → Extension
  supported_versions : List ℕ → Extension
  padding : Extension
  pre_shared_key : Extension
  generic : ℕ → Extension
  other : ℕ → Extension

-- `Extensions` of the connection, with the fields of `HandshakeState.Hello` that the code changes.
pub record Hello : Type 0 where
  pub extensions : List Extension
  pub cipher_suites : List ℕ
  pub alpn_protocols : List Bytes
  pub versions : List ℕ

abbrev pub is_empty : {A : Type 0} → List A → Bool
is_empty [] = true
is_empty (_ ∷ _) = false

abbrev pub http11 : Bytes
http11 = codes "http/1.1"

unfoldable pub tls_server_name : Outside → Bytes → Bool → Bytes
tls_server_name x hostname insecure = elim (x.parse_ip hostname) [
  | some _ ↦ if insecure then [] else hostname
  | none ↦ hostname
]

unfoldable pub golang_next_protos : Options → List Bytes
golang_next_protos o =
    if o.utls_alpn_none
    then []
    else if not (is_empty o.utls_alpn)
    then o.utls_alpn ∷ http11 ∷ []
    else codes "h2" ∷ http11 ∷ []

unfoldable pub replace_first_alpn : List Bytes → Bytes → List Bytes
replace_first_alpn [] first = first ∷ []
replace_first_alpn (_ ∷ protos) first = first ∷ protos

-- The loop that leaves the ALPN extensions out.
unfoldable pub keep_others : List Extension → List Extension
keep_others [] = []
keep_others (alpn _ ∷ exts) = keep_others exts
keep_others (ext ∷ exts) = ext ∷ keep_others exts

-- The loop that changes the first ALPN extension: the extensions, and its protocols if it is there.
abbrev pub under :
    Extension → List Extension × Option (List Bytes) → List Extension × Option (List Bytes)
under ext (exts, protos) = (ext ∷ exts, protos)

unfoldable pub change_first : Bytes → List Extension → List Extension × Option (List Bytes)
unfolding replace_first_alpn
change_first first [] = ([], none)
change_first first (alpn protos ∷ exts) =
    let changed = replace_first_alpn protos first in (alpn changed ∷ exts, some changed)
change_first first (ext ∷ exts) = under ext (change_first first exts)

abbrev pub changed_alpn : Hello → Bytes → List Extension × Option (List Bytes) → Hello
changed_alpn h first (exts, some protos) = record h { extensions = exts; alpn_protocols = protos }
changed_alpn h first (exts, none) = record h {
  extensions = exts ++ alpn (first ∷ []) ∷ [];
  alpn_protocols = first ∷ [];
}

unfoldable pub apply_parrot_alpn : Hello → Options → Hello
apply_parrot_alpn h o =
    if not o.utls_alpn_none && is_empty o.utls_alpn
    then h
    else if o.utls_alpn_none
    then record h { extensions = keep_others h.extensions; alpn_protocols = [] }
    else changed_alpn h o.utls_alpn (change_first o.utls_alpn h.extensions)

-- The loop over the extensions for the first `supported_versions`.
abbrev pub under_versions :
    Extension → List Extension × Option (List ℕ) → List Extension × Option (List ℕ)
under_versions ext (exts, vs) = (ext ∷ exts, vs)

unfoldable pub extend_first : List ℕ → List Extension → List Extension × Option (List ℕ)
extend_first vs [] = ([], none)
extend_first vs (supported_versions ws ∷ exts) =
    (supported_versions (ws ++ vs) ∷ exts, some (ws ++ vs))
extend_first vs (ext ∷ exts) = under_versions ext (extend_first vs exts)

abbrev pub extended_versions : Hello → List Extension × Option (List ℕ) → Hello
extended_versions h (exts, some vs) = record h { extensions = exts; versions = vs }
extended_versions h (exts, none) = h

unfoldable pub append_parrot_versions : Hello → List ℕ → Hello
append_parrot_versions h [] = h
append_parrot_versions h (v ∷ vs) = extended_versions h (extend_first (v ∷ vs) h.extensions)

unfoldable pub must_stay_last : Extension → Bool
must_stay_last padding = true
must_stay_last pre_shared_key = true
must_stay_last _ = false

-- `Extensions[:at]` and `Extensions[at:]`.
abbrev pub before_and :
    Extension → List Extension × List Extension → List Extension × List Extension
before_and ext (front, back) = (ext ∷ front, back)

unfoldable pub split_last : List Extension → List Extension × List Extension
unfolding must_stay_last
split_last [] = ([], [])
split_last (ext ∷ exts) =
    let later = split_last exts in
    if must_stay_last ext then ([], ext ∷ exts) else before_and ext later

abbrev pub insert_between : Hello → List ℕ → List Extension × List Extension → Hello
insert_between h ids (front, back) = record h { extensions = front ++ (map generic ids ++ back) }

unfoldable pub append_parrot_extensions : Hello → List ℕ → Hello
append_parrot_extensions h [] = h
append_parrot_extensions h (id ∷ ids) = insert_between h (id ∷ ids) (split_last h.extensions)

unfoldable pub is_grease : ℕ → Bool
is_grease value =
    let high = value / 2 ^ 8 % 2 ^ 8 in let low = value % 2 ^ 8 in high == low && low % 16 == 0x0a

unfoldable pub count_non_grease : List ℕ → ℕ
unfolding is_grease
count_non_grease [] = 0
count_non_grease (c ∷ ciphers) =
    if is_grease c then count_non_grease ciphers else suc (count_non_grease ciphers)

unfoldable pub utls_mutates_hello : Options → Bool
utls_mutates_hello o =
    not (is_empty o.utls_ciphers)
    || not (is_empty o.utls_versions)
    || not (is_empty o.utls_extensions)
    || o.utls_info
    || o.utls_alpn_none
    || not (is_empty o.utls_alpn)

-- `utls.ClientHelloSpec`, with the fields that the code sets; its `Extensions` stay empty.
pub record ClientHelloSpec : Type 0 where
  pub min_version : ℕ
  pub max_version : ℕ
  pub cipher_suites : List ℕ
  pub compression_methods : Bytes

-- What uTLS does: `BuildHandshakeState` and `ApplyPreset`, which make a ClientHello or fail, and whether
-- `MarshalClientHello` succeeds.
pub record Utls : Type 0 where
  pub build_handshake_state : Option Hello
  pub apply_preset : ClientHelloSpec → Option Hello
  pub marshals : Hello → Bool

-- What is made before the handshake, with the number that is printed. The ClientHello is there, or
-- uTLS makes it in the handshake, or the run fails with an exit code.
pub data Prepared : Type 0 where
  ready : Hello → Option ℕ → Prepared
  unprepared : Prepared
  failed : ℕ → Option ℕ → Prepared

-- The ClientHello of `noExtensionsConn`, out of the one that is built first.
unfoldable pub no_extensions_spec : List ℕ → ClientHelloSpec
no_extensions_spec ciphers = record {
  min_version = 0x0303;
  max_version = 0x0303;
  cipher_suites = ciphers;
  compression_methods = 0 ∷ [];
}

unfoldable pub no_extensions_conn : Utls → Option Hello → List ℕ → Option Hello
no_extensions_conn u none appended = none
no_extensions_conn u (some base) appended =
    u.apply_preset (no_extensions_spec (base.cipher_suites ++ appended))

-- `--utls-info`: the number on stderr.
abbrev pub info_of : Options → Hello → Option ℕ
info_of o h = if o.utls_info then some (count_non_grease h.cipher_suites) else none

abbrev pub without_extensions : Options → Option Hello → Prepared
without_extensions o none = failed 35 none
without_extensions o (some h) = ready h (info_of o h)

-- The ClientHello that is built, with what the options change. `golang` says whether the identity is
-- `HelloGolang`.
unfoldable pub changed_hello : Options → Bool → Hello → Hello
changed_hello o golang built =
    let longer = record built { cipher_suites = built.cipher_suites ++ o.utls_ciphers } in
    let changed =
      append_parrot_extensions (append_parrot_versions (apply_parrot_alpn longer o) o.utls_versions)
        o.utls_extensions in
    if golang then longer else changed

abbrev pub marshalled : Utls → Options → Bool → Hello → Prepared
marshalled u o golang h =
    if golang || u.marshals h then ready h (info_of o h) else failed 35 (info_of o h)

abbrev pub with_changes : Utls → Options → Bool → Option Hello → Prepared
with_changes u o golang none = failed 35 none
with_changes u o golang (some built) = marshalled u o golang (changed_hello o golang built)

-- `handshakeUTLS` before the handshake itself.
unfoldable pub prepare : Utls → Options → Bool → Prepared
prepare u o golang =
    if o.utls_ext_none
    then without_extensions o (no_extensions_conn u u.build_handshake_state o.utls_ciphers)
    else if utls_mutates_hello o
    then with_changes u o golang u.build_handshake_state
    else unprepared

-- What the handshake's end is taken for: the protocol, or the exit code.
unfoldable pub handshake_outcome : Bool → Result Fault Bytes → Result ℕ Bytes
handshake_outcome expired (err e) =
    if is_timeout e || expired then err 28 else if is_cert_verify_error e then err 60 else err 35
handshake_outcome expired (ok proto) =
    if same proto [] || same proto http11 || same proto (codes "h2") then ok proto else err 1
