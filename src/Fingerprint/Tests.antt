-- ===== src/Fingerprint/Tests.antt =====
-- Runs of `parseJA4T` and `String` on the fingerprints of the source's tests, and the theorems there.
use curlu.Base.{
  List, [], ◌∷◌, ◌*◌, ◌%◌, ◌≡◌, ◌↔◌, refl, arith, if◌then◌else◌, map, codes, ok, err, same,
}
use curlu.Number.{parse_uint, format_uint, pad}
use curlu.Text.{split, join}
use curlu.Fingerprint.Defs.{
  Fingerprint, TcpOption, bad_shape, mss_without_kind, unaligned, tcp_option_bytes, tcp_options,
  validate, parse_ja4t, print, has_kind, synack_mss, timestamp_echo,
}
use curlu.Fingerprint.Valid.{IsValid, validate_iff}
use curlu.Fingerprint.Print.{IsSized, parse_ja4t-print, parse_ja4t-normal}
use curlu.Fingerprint.Wire.{padding, tcp_options_read, validate_oversize}

abbrev linux : Fingerprint
linux = record { window = 64240; kinds = 2 ∷ 4 ∷ 8 ∷ 1 ∷ 3 ∷ []; mss = 1460; scale = 7 }

linux_parse : parse_ja4t (codes "64240_2-4-8-1-3_1460_7") ≡ ok linux
unfolding parse_ja4t split parse_uint same
linux_parse = refl

linux-print : print linux ≡ codes "64240_2-4-8-1-3_1460_7"
unfolding print join format_uint pad
linux-print = refl

short_mss :
    print (record { window = 65535; kinds = 2 ∷ []; mss = 8; scale = 0 }) ≡ codes "65535_2_08_00"
unfolding print join format_uint pad
short_mss = refl

refusals :
    (parse_ja4t (codes "1_2_3") ≡ err (bad_shape (codes "1_2_3")))
    × (parse_ja4t (codes "1_00_1460_00") ≡ err mss_without_kind)
    × (parse_ja4t (codes "1_1-1_00_00") ≡ err (unaligned 2))
unfolding parse_ja4t split parse_uint same
refusals = (refl, refl, refl)

linux-IsValid : IsValid linux
unfolding has_kind
linux-IsValid = record {
  supported = omega arith;
  mss_present = λ _. omega arith;
  mss_absent = λ h. absurd (cc h);
  scale_absent = λ h. absurd (cc h);
  aligned = refl;
}

linux-IsSized : IsSized linux
linux-IsSized = omega arith

validate_iff_example : (validate linux ≡ ok tt) ↔ IsValid linux
validate_iff_example = validate_iff linux

parse_ja4t-print_example : parse_ja4t (print linux) ≡ ok linux
parse_ja4t-print_example = parse_ja4t-print linux linux-IsSized linux-IsValid

parse_ja4t-normal_example : IsSized linux × IsValid linux × (parse_ja4t (print linux) ≡ ok linux)
parse_ja4t-normal_example = parse_ja4t-normal (codes "64240_2-4-8-1-3_1460_7") linux_parse

tcp_options_read_example :
    (options : List TcpOption) × (tcp_options linux 7 ≡ ok options)
    × (map (λ o. o.option_type) options ≡ linux.kinds)
    × (tcp_option_bytes options % 4 ≡ 0)
    × (synack_mss options ≡ (if has_kind linux.kinds 2 then linux.mss else 1460))
    × (timestamp_echo options ≡ (if has_kind linux.kinds 8 then 7 else 0))
tcp_options_read_example = tcp_options_read linux 7 linux-IsValid (omega arith) (omega arith)

validate_oversize_example :
    (validate (padding 1 (4 * 11)) ≡ ok tt)
    × ((options : List TcpOption) × (tcp_options (padding 1 (4 * 11)) 0 ≡ ok options)
        × (tcp_option_bytes options ≡ 4 * 11))
validate_oversize_example = validate_oversize 1 11
