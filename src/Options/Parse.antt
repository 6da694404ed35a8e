-- ===== src/Options/Parse.antt =====
-- internal/curlu/options.go: `ParseArgs`. Its loop takes the arguments from a list, the first being
-- `args[i]`. A state with an error is what the source returns beside it.
use curlu.Base.{
  ℕ, zero, suc, Bool, true, false, not, ◌&&◌, ◌||◌, Option, none, some, List, [], ◌∷◌, ◌++◌, ◌==◌,
  if◌then◌else◌, Bytes, length, drop, Result, ok, err, same,
}
use curlu.Text.{strip_prefix, has_prefix, contains_byte, cut, fields}
use curlu.Options.Defs.{
  Options, no_options, ValueError, OptionError, takes_no_value, requires_argument, unknown_option,
  bad_value, flag_requires_argument, unknown_flag, bad_flag_value, alpn_conflict, ext_conflict,
  version_needs_hello, extension_needs_hello, no_url, out_of_fuel, Outside,
}
use curlu.Options.Value.{parse_seconds}
use curlu.Options.Table.{LongOption, sets, takes, long_options, long_option}

-- `expandCombinedFlags`.
unfoldable pub expand_combined_flags : List Bytes → List Bytes
expand_combined_flags [] = []
expand_combined_flags (arg ∷ args) =
    let rest = expand_combined_flags args in
    if has_prefix arg (b'-' ∷ []) && contains_byte b' ' arg then fields arg ++ rest else arg ∷ rest

-- What one argument leads to: the next round, with `positional`, or the error.
pub data Round : Type 0 where
  goes : Bool → Options → List Bytes → Round
  fails : Options → OptionError → Round

unfoldable pub option_argument :
    Bytes → Option Bytes → List Bytes → Result OptionError (Bytes × List Bytes)
option_argument name (some value) rest = ok (value, rest)
option_argument name none [] = err (requires_argument name)
option_argument name none (value ∷ rest) = ok (value, rest)

unfoldable pub set_value : Options → Bytes → List Bytes → Result ValueError Options → Round
set_value o name rest (ok o') = goes false o' rest
set_value o name rest (err e) = fails o (bad_value name e)

unfoldable pub take_value :
    Options
    → Bytes
    → (Bytes → Options → Result ValueError Options)
    → Result OptionError (Bytes × List Bytes)
    → Round
unfolding set_value
take_value o name set (err e) = fails o e
take_value o name set (ok (value, rest)) = set_value o name rest (set value o)

-- A case of the `switch`, with the value behind `=`, if there is one.
unfoldable pub long_case : Options → Bytes → Option Bytes → List Bytes → Option LongOption → Round
unfolding take_value option_argument
long_case o name value rest none = fails o (unknown_option name)
long_case o name (some v) rest (some (sets set)) = fails o (takes_no_value name)
long_case o name none rest (some (sets set)) = goes false (set o) rest
long_case o name value rest (some (takes set)) =
    take_value o name set (option_argument name value rest)

unfoldable pub long_round : Outside → Options → Bytes → List Bytes → Round
long_round x o text rest = elim (cut b'=' text) [
  | none ↦ long_case o text none rest (long_option text (long_options x))
  | some (name, value) ↦ long_case o name (some value) rest (long_option name (long_options x))
]

unfoldable pub flag : ℕ → Option (Options → Options)
flag c =
    if c == b'i'
    then some (λ o. record o { include = true })
    else if c == b's'
    then some (λ o. record o { silent = true })
    else if c == b'S'
    then some (λ o. record o { show_error = true })
    else if c == b'v'
    then some (λ o. record o { verbose = true })
    else if c == b'k'
    then some (λ o. record o { insecure = true })
    else if c == b'g'
    then some (λ o. record o { globoff = true })
    else if c == b'4'
    then some (λ o. record o { ip_family = b'4' ∷ [] })
    else if c == b'6'
    then some (λ o. record o { ip_family = b'6' ∷ [] })
    else if c == b'h'
    then some (λ o. record o { help = true })
    else if c == b'V'
    then some (λ o. record o { version = true })
    else none

-- `-H` and `-m` with their value.
unfoldable pub flag_value : Outside → Options → ℕ → Bytes → List Bytes → Round
flag_value x o c value rest =
    if c == b'H'
    then goes false (record o { headers = o.headers ++ value ∷ [] }) rest
    else elim (parse_seconds x value) [
      | ok d ↦ goes false (record o { max_time = d }) rest
      | err e ↦ fails (record o { max_time = 0 }) (bad_flag_value e)
    ]

unfoldable pub flag_argument : Outside → Options → ℕ → Bytes → List Bytes → Round
unfolding flag_value
flag_argument x o c (b ∷ short) rest = flag_value x o c (b ∷ short) rest
flag_argument x o c [] [] = fails o (flag_requires_argument c)
flag_argument x o c [] (value ∷ rest) = flag_value x o c value rest

unfoldable pub short_round : Outside → Options → Bytes → List Bytes → Round
short_round x o [] rest = goes false o rest
short_round x o (c ∷ short) rest = elim (flag c) [
  | some set ↦ short_round x (set o) short rest
  | none ↦
      if c == b'H' || c == b'm' then flag_argument x o c short rest else fails o (unknown_flag c)
]

-- The body of the loop.
unfoldable pub round : Outside → Bool → Options → Bytes → List Bytes → Round
round x positional o arg rest =
    if positional || same arg (b'-' ∷ []) || not (has_prefix arg (b'-' ∷ []))
    then goes positional (record o { urls = o.urls ++ arg ∷ [] }) rest
    else if same arg (b'-' ∷ b'-' ∷ [])
    then goes true o rest
    else elim (strip_prefix (b'-' ∷ b'-' ∷ []) arg) [
      | some text ↦ long_round x o text rest
      | none ↦ short_round x o (drop 1 arg) rest
    ]

unfoldable pub parse_loop : ℕ → Outside → Bool → Options → List Bytes → Options × Option OptionError
parse_loop f x positional o [] = (o, none)
parse_loop zero x positional o (arg ∷ rest) = (o, some out_of_fuel)
parse_loop (suc f) x positional o (arg ∷ rest) = elim (round x positional o arg rest) [
  | goes positional' o' rest' ↦ parse_loop f x positional' o' rest'
  | fails o' e ↦ (o', some e)
]

-- The checks behind the loop.
unfoldable pub conflict : Options → Option OptionError
conflict o =
    let has_alpn = not (same o.utls_alpn []) in
    let no_hello = o.utls_ext_none || same o.utls_hello.client [] in
    if o.utls_alpn_none && has_alpn
    then some alpn_conflict
    else if o.utls_ext_none && (o.utls_alpn_none || has_alpn)
    then some ext_conflict
    else if elim o.utls_versions [ [] ↦ false | _ ∷ _ ↦ no_hello ]
    then some version_needs_hello
    else if elim o.utls_extensions [ [] ↦ false | _ ∷ _ ↦ no_hello ]
    then some extension_needs_hello
    else if not o.help
        && not o.version
        && not o.utls_hello_list
        && elim o.urls [ [] ↦ true | _ ∷ _ ↦ false ]
    then some no_url
    else none

unfoldable pub check_conflicts : Options × Option OptionError → Options × Option OptionError
unfolding conflict
check_conflicts (o, some e) = (o, some e)
check_conflicts (o, none) = (o, conflict o)

-- Each round takes an argument at least, so that their number is enough fuel.
unfoldable pub parse_args : Outside → List Bytes → Options × Option OptionError
unfolding expand_combined_flags parse_loop check_conflicts
parse_args x args =
    let args' = expand_combined_flags args in
    check_conflicts (parse_loop (length args') x false no_options args')
