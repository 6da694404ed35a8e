-- ===== src/Fingerprint/Valid.antt =====
-- Which fingerprints `validate` accepts, described without its loops, and how long their options are.
use mathlib.Core.Path.{ap₂}
use curlu.Base.{
  ℕ, Bool, true, false, ◌||◌, List, [], ◌∷◌, ◌++◌, ◌+◌, ◌%◌, ◌≤◌, ◌≡◌, ◌≢◌, ◌⊎◌, ◌↔◌, refl, arith,
  leb, ◌==◌, if◌then◌else◌, Bytes, All, replicate, ok, >>=-eq-ok, map,
}
use curlu.Fingerprint.Defs.{
  Fingerprint, TcpOption, put_uint16, put_uint32, tcp_option, option_size, tcp_option_bytes,
  all_options, tcp_options, check_kinds, validate, has_kind,
}

-- The kinds that the source can write: end of list, no-op, MSS, window scale, SACK permitted and
-- timestamps.
abbrev pub IsSupported : ℕ → Type 0
IsSupported kind = (kind ≤ 4) ⊎ (kind ≡ 8)

-- The bytes that an option takes on the wire.
abbrev pub wire_size : ℕ → ℕ
wire_size kind =
    if leb kind 1
    then 1
    else if kind == 2
    then 4
    else if kind == 3
    then 3
    else if kind == 4
    then 2
    else 10

abbrev pub wire_bytes : List ℕ → ℕ
wire_bytes [] = 0
wire_bytes (kind ∷ kinds) = wire_size kind + wire_bytes kinds

pub record IsValid (fp : Fingerprint) : Type 0 where
  pub supported : All IsSupported fp.kinds
  pub mss_present : has_kind fp.kinds 2 ≡ true → fp.mss ≢ 0
  pub mss_absent : has_kind fp.kinds 2 ≡ false → fp.mss ≡ 0
  pub scale_absent : has_kind fp.kinds 3 ≡ false → fp.scale ≡ 0
  pub aligned : wire_bytes fp.kinds % 4 ≡ 0

check_kinds_sound :
    (kinds : List ℕ) (m s : Bool) (r : Bool × Bool)
    → check_kinds kinds m s ≡ ok r
    → All IsSupported kinds × (r.0 ≡ (m || has_kind kinds 2)) × (r.1 ≡ (s || has_kind kinds 3))
unfolding check_kinds has_kind
check_kinds_sound [] m s r h = (tt, ground arith, ground arith)
check_kinds_sound (kind ∷ kinds) m s r h =
    ground (arith, check_kinds_sound kinds (m || kind == 2) (s || kind == 3) r)

check_kinds_complete :
    (kinds : List ℕ) (m s : Bool)
    → All IsSupported kinds
    → check_kinds kinds m s ≡ ok ((m || has_kind kinds 2), (s || has_kind kinds 3))
unfolding check_kinds has_kind
check_kinds_complete [] m s h = ground arith
check_kinds_complete (kind ∷ kinds) m s (k, h) =
    ground (arith, check_kinds_complete kinds (m || kind == 2) (s || kind == 3) h)

abbrev data_of : ℕ → Fingerprint → ℕ → Bytes
data_of kind fp ts =
    if kind == 2
    then put_uint16 fp.mss
    else if kind == 3
    then fp.scale ∷ []
    else if kind == 8
    then put_uint32 ts ++ replicate 4 0
    else []

-- The option that is written for a supported kind has that kind and its size.
pub tcp_option-ok :
    (kind : ℕ) (fp : Fingerprint) (ts : ℕ)
    → IsSupported kind
    → (o : TcpOption) × (tcp_option kind fp ts ≡ ok o)
      × (o.option_type ≡ kind)
      × (option_size o ≡ wire_size kind)
unfolding tcp_option option_size
tcp_option-ok kind fp ts h = (
  record { option_type = kind; option_data = data_of kind fp ts },
  ground arith,
  refl,
  ground arith,
)

-- Every supported list of kinds has its options, of these kinds and of that many bytes.
pub all_options-ok :
    (kinds : List ℕ) (fp : Fingerprint) (ts : ℕ)
    → All IsSupported kinds
    → (options : List TcpOption) × (all_options kinds fp ts ≡ ok options)
      × (map (λ o. o.option_type) options ≡ kinds)
      × (tcp_option_bytes options ≡ wire_bytes kinds)
unfolding all_options tcp_option_bytes
all_options-ok [] fp ts h = ([], refl, refl, refl)
all_options-ok (kind ∷ kinds) fp ts (k, h) =
    let (o, e, t, s) = tcp_option-ok kind fp ts k in
    let (options, e', t', s') = all_options-ok kinds fp ts h in
    (o ∷ options, rw (e, e'), ap₂ ◌∷◌ t t', omega arith)

pub tcp_options-ok :
    (fp : Fingerprint) (ts : ℕ)
    → IsValid fp
    → (options : List TcpOption) × (tcp_options fp ts ≡ ok options)
      × (map (λ o. o.option_type) options ≡ fp.kinds)
      × (tcp_option_bytes options ≡ wire_bytes fp.kinds)
unfolding tcp_options
tcp_options-ok fp ts v =
    let (options, e, t, s) = all_options-ok fp.kinds fp ts v.supported in
    (options, rw e (ground arith), t, s)

validate_complete : (fp : Fingerprint) → IsValid fp → validate fp ≡ ok tt
unfolding validate
validate_complete fp v =
    let (options, e, _, _) = tcp_options-ok fp 0 v in
    rw (check_kinds_complete fp.kinds false false v.supported, e) (ground arith)

validate_sound : (fp : Fingerprint) → validate fp ≡ ok tt → IsValid fp
unfolding validate
validate_sound fp h =
    let (r, e, h1) = >>=-eq-ok (check_kinds fp.kinds false false) _ h in
    let (kinds, m, s) = check_kinds_sound fp.kinds false false r e in
    let (options, e', _, size) = all_options-ok fp.kinds fp 0 kinds in
    record {
      supported = kinds;
      mss_present = ground arith;
      mss_absent = ground arith;
      scale_absent = ground arith;
      aligned = ground arith;
    }

-- `validate` accepts exactly the valid fingerprints.
pub validate_iff : (fp : Fingerprint) → (validate fp ≡ ok tt) ↔ IsValid fp
validate_iff fp = (validate_sound fp, validate_complete fp)
