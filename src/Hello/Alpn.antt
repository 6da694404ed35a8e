-- ===== src/Hello/Alpn.antt =====
-- internal/curlu/utls.go: `applyParrotALPN`, by what the ClientHello offers.
use curlu.Base.{Option, none, some, List, [], ◌∷◌, ◌≡◌, Bytes, if◌then◌else◌, drop}
use curlu.Options.{Options}
use curlu.Hello.Defs.{Extension, alpn, Hello, is_empty, keep_others}

-- The protocols of the first ALPN extension.
abbrev pub offered : List Extension → Option (List Bytes)
offered [] = none
offered (alpn protos ∷ exts) = some protos
offered (_ ∷ exts) = offered exts

abbrev pub or_none : Option (List Bytes) → List Bytes
or_none none = []
or_none (some protos) = protos

abbrev pub replaced : Bytes → Option (List Bytes) → Option (List Bytes)
replaced first none = none
replaced first (some protos) = some (first ∷ drop 1 protos)

-- What is wanted of the protocols that are offered: none, or the given one and behind it all but the
-- first of them, or just those that are offered.
abbrev pub wanted : Options → Option (List Bytes) → Option (List Bytes)
wanted o protos =
    if o.utls_alpn_none
    then none
    else if is_empty o.utls_alpn
    then protos
    else some (o.utls_alpn ∷ drop 1 (or_none protos))

-- The field of the message agrees with the first ALPN extension.
abbrev pub InStep : Hello → Type 0
InStep h = h.alpn_protocols ≡ or_none (offered h.extensions)

-- What a change of the ALPN extension comes to.
pub record Offers (h : Hello) (protos : Option (List Bytes)) (h' : Hello) : Type 0 where
  pub offers : offered h'.extensions ≡ protos
  pub in_step : InStep h'
  pub others : keep_others h'.extensions ≡ keep_others h.extensions
  pub ciphers : h'.cipher_suites ≡ h.cipher_suites
  pub versions : h'.versions ≡ h.versions
