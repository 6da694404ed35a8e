-- ===== src/Options/Tests.antt =====
-- Runs of `ParseArgs` on command lines of the source's tests, and the theorems there.
use curlu.Base.{
  true, false, none, some, List, [], ◌∷◌, ◌++◌, ◌≡◌, ◌≢◌, refl, arith, Bytes, codes, ok, same, All,
}
use curlu.Text.{fields, words, space_size, Lacks}
use curlu.Options.Defs.{no_options, out_of_fuel, Outside, nanoseconds}
use curlu.Options.Table.{takes, long_option, long_options}
use curlu.Options.Parse.{parse_args, parse_loop, flag}
use curlu.Options.Rounds.{parse_from}
use curlu.Options.Forms.{
  IsFlag, parse_args-ne-fuel, parse_from_equals, parse_from_dash_dash, parse_from_joined,
}

-- Every timeout is a second, every address and name stands for itself, and one hello is known.
abbrev world : Outside
world = record {
  parse_float = λ s. some (nanoseconds 1000000000);
  parse_ip = λ s. some s;
  lower = λ s. s;
  equal_fold = λ a b. same a b;
  hello_by_name =
      (codes "HelloGolang", record { client = codes "Golang"; hello_version = codes "0" }) ∷ [];
}

abbrev command : List Bytes
command = codes "-sS" ∷ codes "--header=X-A:b" ∷ codes "-Hc: d" ∷ codes "--" ∷ codes "-x" ∷ []

command_parse : parse_args world command ≡ (
  record no_options {
    silent = true;
    show_error = true;
    headers = codes "X-A:b" ∷ codes "c:" ∷ [];
    urls = codes "d" ∷ codes "-x" ∷ [];
  },
  none,
)
unfolding parse_args curlu.Text.has_prefix curlu.Text.contains_byte curlu.Options.Parse.round same
    curlu.Text.strip_prefix curlu.Options.Parse.short_round flag curlu.Options.Parse.long_round
    curlu.Text.cut curlu.Options.Parse.long_case long_option long_options fields
    curlu.Options.Parse.flag_argument
command_parse = refl

parse_args-ne-fuel_example : (parse_args world command).1 ≢ some out_of_fuel
parse_args-ne-fuel_example = parse_args-ne-fuel world command

header_takes :
    long_option (codes "header") (long_options world)
    ≡ some (takes (λ v o. ok (record o { headers = o.headers ++ v ∷ [] })))
unfolding long_option long_options same
header_takes = refl

header-Lacks : Lacks b'=' (codes "header")
header-Lacks =
    (omega arith, (omega arith, (omega arith, (omega arith, (omega arith, (omega arith, tt))))))

parse_from_equals_example :
    parse_from world false no_options (codes "--header=a:b" ∷ codes "u" ∷ [])
    ≡ parse_from world false no_options (codes "--header" ∷ codes "a:b" ∷ codes "u" ∷ [])
parse_from_equals_example =
    parse_from_equals world no_options b'h' (codes "eader") (codes "a:b") (codes "u" ∷ [])
      (λ v o. ok (record o { headers = o.headers ++ v ∷ [] })) header-Lacks header_takes

parse_from_dash_dash_example :
    parse_from world false no_options (codes "--" ∷ codes "--bad" ∷ codes "-" ∷ [])
    ≡ (record no_options { urls = codes "--bad" ∷ codes "-" ∷ [] }, none)
parse_from_dash_dash_example =
    parse_from_dash_dash world no_options (codes "--bad" ∷ codes "-" ∷ [])

flags : All IsFlag (codes "si")
unfolding flag
flags = ((λ o. record o { silent = true }, refl), ((λ o. record o { include = true }, refl), tt))

parse_from_joined_example :
    parse_from world false no_options (codes "-siHa:b" ∷ codes "u" ∷ [])
    ≡ parse_from world false no_options (codes "-si" ∷ codes "-Ha:b" ∷ codes "u" ∷ [])
parse_from_joined_example =
    parse_from_joined world no_options b's' (codes "i") b'H' (codes "a:b") (codes "u" ∷ []) flags
      (omega arith)
