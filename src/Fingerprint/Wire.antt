-- ===== src/Fingerprint/Wire.antt =====
-- The SYN's options as a listener reads them.
use curlu.Base.{
  ℕ, zero, suc, false, List, [], ◌∷◌, ◌*◌, ◌%◌, ◌≤◌, ◌<◌, ◌^◌, ◌≡◌, ◌≢◌, inl, refl, arith, ◌==◌,
  if◌then◌else◌, map, All, replicate, ok, >>=-eq-ok, ◌∙◌,
}
use curlu.Number.{max_u16}
use curlu.Fingerprint.Defs.{
  Fingerprint, TcpOption, tcp_option, tcp_option_bytes, all_options, tcp_options, validate,
  has_kind, synack_mss, timestamp_echo,
}
use curlu.Fingerprint.Valid.{IsSupported, IsValid, wire_bytes, tcp_options-ok, validate_iff}

-- One option, in front of others.
tcp_option_head :
    (kind : ℕ) (fp : Fingerprint) (ts : ℕ) (o : TcpOption) (rest : List TcpOption)
    → fp.mss ≤ max_u16
    → ts < 2 ^ 32
    → tcp_option kind fp ts ≡ ok o
    → (synack_mss (o ∷ rest) ≡ (if kind == 2 then fp.mss else synack_mss rest))
      × (timestamp_echo (o ∷ rest) ≡ (if kind == 8 then ts else timestamp_echo rest))
unfolding tcp_option synack_mss timestamp_echo
tcp_option_head kind fp ts o rest b t h = ground arith

all_options_read :
    (kinds : List ℕ) (fp : Fingerprint) (ts : ℕ) (options : List TcpOption)
    → fp.mss ≤ max_u16
    → ts < 2 ^ 32
    → all_options kinds fp ts ≡ ok options
    → (synack_mss options ≡ (if has_kind kinds 2 then fp.mss else 1460))
      × (timestamp_echo options ≡ (if has_kind kinds 8 then ts else 0))
unfolding all_options has_kind
all_options_read [] fp ts options b t h =
    let e : [] ≡ options = cc h in rw (← e) (unfold synack_mss timestamp_echo in (refl, refl))
all_options_read (kind ∷ kinds) fp ts options b t h =
    let (o, e, h1) = >>=-eq-ok (tcp_option kind fp ts) _ h in
    let (rest, e', h2) = >>=-eq-ok (all_options kinds fp ts) _ h1 in
    let joined : o ∷ rest ≡ options = cc h2 in
    rw (← joined) (
      ground
        (arith, tcp_option_head kind fp ts o rest b t e, all_options_read kinds fp ts rest b t e'))

tcp_options-all :
    (fp : Fingerprint) (ts : ℕ) {options : List TcpOption}
    → tcp_options fp ts ≡ ok options
    → all_options fp.kinds fp ts ≡ ok options
unfolding tcp_options
tcp_options-all fp ts h = ground arith

-- For a valid fingerprint and any time stamp the SYN's options exist, stand in the fingerprint's
-- order with its kinds, fill whole 32-bit words, and give back the fingerprint's MSS and the time
-- stamp to a reader, where the fingerprint has these kinds.
pub tcp_options_read :
    (fp : Fingerprint) (ts : ℕ)
    → IsValid fp
    → fp.mss ≤ max_u16
    → ts < 2 ^ 32
    → (options : List TcpOption) × (tcp_options fp ts ≡ ok options)
      × (map (λ o. o.option_type) options ≡ fp.kinds)
      × (tcp_option_bytes options % 4 ≡ 0)
      × (synack_mss options ≡ (if has_kind fp.kinds 2 then fp.mss else 1460))
      × (timestamp_echo options ≡ (if has_kind fp.kinds 8 then ts else 0))
tcp_options_read fp ts v b t =
    let (options, e, types, size) = tcp_options-ok fp ts v in
    let (mss, echo) = all_options_read fp.kinds fp ts options b t (tcp_options-all fp ts e) in
    (options, e, types, rw size v.aligned, mss, echo)

-- The fingerprint with so many no-ops and nothing else.
abbrev pub padding : ℕ → ℕ → Fingerprint
padding window n = record { window = window; kinds = replicate n 1; mss = 0; scale = 0 }

wire_bytes-replicate : (n : ℕ) → wire_bytes (replicate n 1) ≡ n
wire_bytes-replicate zero = refl
wire_bytes-replicate (suc n) = omega (arith, wire_bytes-replicate n)

IsSupported-replicate : (n : ℕ) → All IsSupported (replicate n 1)
IsSupported-replicate zero = tt
IsSupported-replicate (suc n) = (inl (omega arith), IsSupported-replicate n)

has_kind-replicate : (n k : ℕ) → k ≢ 1 → has_kind (replicate n 1) k ≡ false
unfolding has_kind
has_kind-replicate zero k h = refl
has_kind-replicate (suc n) k h = ground (arith, has_kind-replicate n k h)

padding-IsValid : (window k : ℕ) → IsValid (padding window (4 * k))
padding-IsValid window k = record {
  supported = IsSupported-replicate (4 * k);
  mss_present = ground (arith, has_kind-replicate (4 * k) 2);
  mss_absent = λ _. refl;
  scale_absent = λ _. refl;
  aligned = omega (arith, wire_bytes-replicate (4 * k));
}

-- `validate` accepts fingerprints whose options take any multiple of four bytes, also more than the
-- 40 bytes that a TCP header has room for.
pub validate_oversize :
    (window k : ℕ)
    → (validate (padding window (4 * k)) ≡ ok tt)
      × ((options : List TcpOption) × (tcp_options (padding window (4 * k)) 0 ≡ ok options)
          × (tcp_option_bytes options ≡ 4 * k))
validate_oversize window k =
    let v = padding-IsValid window k in
    let (options, e, _, size) = tcp_options-ok (padding window (4 * k)) 0 v in
    ((validate_iff (padding window (4 * k))).1 v, (options, e, size ∙ wire_bytes-replicate (4 * k)))
