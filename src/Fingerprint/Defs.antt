-- ===== src/Fingerprint/Defs.antt =====
-- internal/curlu/ja4t.go, and the readers of TCP options in internal/curlu/tcpraw.go.
-- An option's kind is its IANA number, which is what the `layers.TCPOptionKind…` constants hold.
use curlu.Base.{
  ℕ, Bool, false, not, ◌&&◌, ◌||◌, List, [], ◌∷◌, ◌++◌, map, ◌+◌, ◌*◌, ◌/◌, ◌%◌, leb, ◌==◌,
  if◌then◌else◌, Bytes, codes, same, length, replicate, Result, ok, err, ◌>>=◌, or_err,
}
use curlu.Text.{split, join}
use curlu.Number.{parse_uint, max_u8, max_u16, format_uint, pad}

pub record Fingerprint : Type 0 where
  pub window : ℕ
  pub kinds : List ℕ
  pub mss : ℕ
  pub scale : ℕ

-- The `fmt.Errorf` calls.
pub data FingerprintError : Type 0 where
  bad_shape : Bytes → FingerprintError
  bad_window : Bytes → FingerprintError
  bad_kind : Bytes → FingerprintError
  bad_section : Bytes → FingerprintError
  unsupported_kind : ℕ → FingerprintError
  mss_required : FingerprintError
  mss_without_kind : FingerprintError
  scale_without_kind : FingerprintError
  unaligned : ℕ → FingerprintError

pub record TcpOption : Type 0 where
  pub option_type : ℕ
  pub option_data : Bytes

-- `binary.BigEndian.PutUint16` and `PutUint32`.
unfoldable pub put_uint16 : ℕ → Bytes
put_uint16 n = n / 256 % 256 ∷ n % 256 ∷ []

unfoldable pub put_uint32 : ℕ → Bytes
put_uint32 n = n / 16777216 % 256 ∷ n / 65536 % 256 ∷ n / 256 % 256 ∷ n % 256 ∷ []

unfoldable pub tcp_option : ℕ → Fingerprint → ℕ → Result FingerprintError TcpOption
unfolding put_uint16 put_uint32
tcp_option kind fp ts =
    if kind == 0
    then ok (record { option_type = 0; option_data = [] })
    else if kind == 1
    then ok (record { option_type = 1; option_data = [] })
    else if kind == 2
    then ok (record { option_type = 2; option_data = put_uint16 fp.mss })
    else if kind == 3
    then ok (record { option_type = 3; option_data = fp.scale ∷ [] })
    else if kind == 4
    then ok (record { option_type = 4; option_data = [] })
    else if kind == 8
    then ok (record { option_type = 8; option_data = put_uint32 ts ++ replicate 4 0 })
    else err (unsupported_kind kind)

-- One round of the loop of `tcpOptionBytes`.
unfoldable pub option_size : TcpOption → ℕ
option_size o = if o.option_type == 0 || o.option_type == 1 then 1 else 2 + length o.option_data

unfoldable pub tcp_option_bytes : List TcpOption → ℕ
unfolding option_size
tcp_option_bytes [] = 0
tcp_option_bytes (o ∷ options) = option_size o + tcp_option_bytes options

-- The loop of `tcpOptions`.
unfoldable pub all_options : List ℕ → Fingerprint → ℕ → Result FingerprintError (List TcpOption)
all_options [] fp ts = ok []
all_options (kind ∷ kinds) fp ts = do
  opt ← tcp_option kind fp ts
  options ← all_options kinds fp ts
  ok (opt ∷ options)

unfoldable pub tcp_options : Fingerprint → ℕ → Result FingerprintError (List TcpOption)
unfolding all_options tcp_option tcp_option_bytes
tcp_options fp ts = do
  options ← all_options fp.kinds fp ts
  if tcp_option_bytes options % 4 == 0
      then ok options
      else err (unaligned (tcp_option_bytes options))

-- The loop of `validate`, over `hasMSS` and `hasScale`.
unfoldable pub check_kinds : List ℕ → Bool → Bool → Result FingerprintError (Bool × Bool)
check_kinds [] has_mss has_scale = ok (has_mss, has_scale)
check_kinds (kind ∷ kinds) has_mss has_scale =
    let rest = check_kinds kinds (has_mss || kind == 2) (has_scale || kind == 3) in
    if leb kind 4 || kind == 8 then rest else err (unsupported_kind kind)

unfoldable pub validate : Fingerprint → Result FingerprintError (Unit {0})
unfolding check_kinds tcp_options
validate fp = do
  (has_mss, has_scale) ← check_kinds fp.kinds false false
  if has_mss && fp.mss == 0
      then err mss_required
      else if not has_mss && not (fp.mss == 0)
      then err mss_without_kind
      else if not has_scale && not (fp.scale == 0)
      then err scale_without_kind
      else tcp_options fp 0 >>= λ _. ok tt

unfoldable pub parse_each : List Bytes → Result FingerprintError (List ℕ)
parse_each [] = ok []
parse_each (field ∷ fields) = do
  n ← or_err (parse_uint 10 max_u8 field) (bad_kind field)
  kinds ← parse_each fields
  ok (n ∷ kinds)

unfoldable pub parse_kinds : Bytes → Result FingerprintError (List ℕ)
unfolding parse_each
parse_kinds value =
    if same value (codes "00") || same value [] then ok [] else parse_each (split b'-' value)

unfoldable pub parse_section : Bytes → ℕ → Result FingerprintError ℕ
parse_section value max =
    if same value (codes "00") then ok 0 else or_err (parse_uint 10 max value) (bad_section value)

-- `if err := fp.validate(); err != nil`.
unfoldable pub checked : Fingerprint → Result FingerprintError Fingerprint
unfolding validate
checked fp = do _ ← validate fp; ok fp

unfoldable pub parse_parts : Bytes → Bytes → Bytes → Bytes → Result FingerprintError Fingerprint
unfolding parse_kinds parse_section checked
parse_parts p0 p1 p2 p3 = do
  window ← or_err (parse_uint 10 max_u16 p0) (bad_window p0)
  kinds ← parse_kinds p1
  mss ← parse_section p2 max_u16
  scale ← parse_section p3 max_u8
  checked (record { window = window; kinds = kinds; mss = mss; scale = scale })

-- `if len(parts) != 4`.
abbrev pub four_parts : Bytes → List Bytes → Result FingerprintError Fingerprint
four_parts value (p0 ∷ p1 ∷ p2 ∷ p3 ∷ []) = parse_parts p0 p1 p2 p3
four_parts value _ = err (bad_shape value)

unfoldable pub parse_ja4t : Bytes → Result FingerprintError Fingerprint
unfolding parse_parts
parse_ja4t value = four_parts value (split b'_' value)

abbrev pub print_kinds : List ℕ → Bytes
print_kinds [] = codes "00"
print_kinds (kind ∷ kinds) = join b'-' (map format_uint (kind ∷ kinds))

-- `String`.
unfoldable pub print : Fingerprint → Bytes
print fp =
    format_uint fp.window
    ++ b'_'
      ∷ (print_kinds fp.kinds
          ++ b'_'
            ∷ ((if fp.mss == 0 then codes "00" else pad 2 fp.mss)
                ++ b'_' ∷ (if fp.scale == 0 then codes "00" else format_uint fp.scale)))

unfoldable pub has_kind : List ℕ → ℕ → Bool
has_kind [] kind = false
has_kind (k ∷ kinds) kind = k == kind || has_kind kinds kind

-- `synackMSS`: the first MSS option that holds a value.
unfoldable pub synack_mss : List TcpOption → ℕ
synack_mss [] = 1460
synack_mss (o ∷ options) =
    let rest = synack_mss options in
    elim o.option_data [ a ∷ b ∷ _ ↦ if o.option_type == 2 then a * 256 + b else rest | _ ↦ rest ]

-- `timestampEcho`: the value of the first timestamp option that holds one.
unfoldable pub timestamp_echo : List TcpOption → ℕ
timestamp_echo [] = 0
timestamp_echo (o ∷ options) =
    let rest = timestamp_echo options in
    elim o.option_data [
      | a ∷ b ∷ c ∷ d ∷ _ ↦ if o.option_type == 8 then ((a * 256 + b) * 256 + c) * 256 + d else rest
      | _ ↦ rest
    ]
