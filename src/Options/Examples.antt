-- ===== src/Options/Examples.antt =====
-- Accepted command lines, rules and split flags, and the theorems there.
use curlu.Base.{false, none, some, [], ◌∷◌, ◌≡◌, ◌↔◌, refl, arith, codes, ok, same, All}
use curlu.Text.{cut, contains_byte, split}
use curlu.Number.{parse_uint, format_uint}
use curlu.Options.Defs.{Options, no_options, Outside, nanoseconds, ResolveEntry}
use curlu.Options.Value.{
  parse_resolve, split_resolve_host, parse_resolve_port, parse_resolve_addrs, parse_each_addr,
  canonical_resolve_host, unbracket,
}
use curlu.Options.Parse.{expand_combined_flags, parse_args}
use curlu.Options.Rounds.{parse_from}
use curlu.Options.Accepted.{IsConsistent, parse_args_iff}
use curlu.Options.Rule.{IsRule, parse_resolve-IsRule}
use curlu.Options.Split.{IsGraphic, expand_combined_flags-two}

abbrev world : Outside
world = record {
  parse_float = λ s. some (nanoseconds 0);
  parse_ip = λ s. some s;
  lower = λ s. s;
  equal_fold = λ a b. same a b;
  hello_by_name = [];
}

abbrev rule : ResolveEntry
rule = record {
  host = codes "a";
  port = codes "80";
  addrs = codes "1.2.3.4" ∷ codes "::1" ∷ [];
  remove = false;
}

parsed_rule : parse_resolve world (codes "+a:080:1.2.3.4,[::1]") ≡ ok rule
unfolding parse_resolve split_resolve_host parse_resolve_port parse_resolve_addrs parse_each_addr
    canonical_resolve_host unbracket cut contains_byte split parse_uint format_uint same
parsed_rule = refl

parse_resolve-IsRule_example : IsRule rule
parse_resolve-IsRule_example =
    parse_resolve-IsRule world (codes "+a:080:1.2.3.4,[::1]") rule parsed_rule

abbrev asked : Options
asked = record no_options { urls = codes "u" ∷ [] }

parse_args_iff_example : (parse_args world (codes "u" ∷ []) ≡ (asked, none)) ↔ (
    (parse_from world false no_options (expand_combined_flags (codes "u" ∷ [])) ≡ (asked, none))
    × IsConsistent asked)
parse_args_iff_example = parse_args_iff world (codes "u" ∷ []) asked

name_is : All IsGraphic (codes "HX-A:")
name_is = (
  (omega arith, omega arith),
  (
    (omega arith, omega arith),
    ((omega arith, omega arith), ((omega arith, omega arith), ((omega arith, omega arith), tt))),
  ),
)

-- A header with a space, as one argument.
expand_combined_flags-two_example :
    expand_combined_flags (codes "-HX-A: b" ∷ codes "u" ∷ [])
    ≡ codes "-HX-A:" ∷ codes "b" ∷ expand_combined_flags (codes "u" ∷ [])
expand_combined_flags-two_example =
    expand_combined_flags-two (codes "HX-A:") b'b' [] (codes "u" ∷ []) name_is
      ((omega arith, omega arith), tt)
