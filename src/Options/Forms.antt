-- ===== src/Options/Forms.antt =====
-- `ParseArgs`: the ways to write an option, and what comes behind `--`.
use mathlib.Core.Path.{subst}
use curlu.Base.{
  ℕ, Bool, true, false, Option, none, some, List, [], ◌∷◌, ◌++◌, append_assoc, append-nil, ◌≡◌, ◌≢◌,
  refl, sym, ◌∙◌, arith, Bytes, length, Result, same, All, inl, inr,
}
use curlu.Text.{Lacks, cut-append, cut-Lacks, strip_prefix, has_prefix}
use curlu.Options.Defs.{no_options, Options, ValueError, OptionError, out_of_fuel, Outside}
use curlu.Options.Table.{LongOption, takes, long_option, long_options}
use curlu.Options.Parse.{
  expand_combined_flags, goes, option_argument, take_value, long_case, long_round, flag,
  short_round, round, parse_loop, conflict, check_conflicts, parse_args,
}
use curlu.Options.Rounds.{
  parse_from, parse_from-round, parse_from_failure, Round-cases, parse_loop-ne-fuel,
}

conflict-ne-fuel : (o : Options) → conflict o ≢ some out_of_fuel
unfolding conflict
conflict-ne-fuel o = ground arith

check_conflicts-ne-fuel :
    (r : Options × Option OptionError)
    → r.1 ≢ some out_of_fuel
    → (check_conflicts r).1 ≢ some out_of_fuel
unfolding check_conflicts
check_conflicts-ne-fuel (o, some e) h = h
check_conflicts-ne-fuel (o, none) h = conflict-ne-fuel o

-- `ParseArgs` ends on every list of arguments: the fuel of the model never runs out.
pub parse_args-ne-fuel :
    (x : Outside) (args : List Bytes) → (parse_args x args).1 ≢ some out_of_fuel
unfolding parse_args
parse_args-ne-fuel x args = check_conflicts-ne-fuel _ (
    parse_loop-ne-fuel (length (expand_combined_flags args)) x false no_options
      (expand_combined_flags args) (omega arith))

same_round :
    (x : Outside) (p q : Bool) (o o' : Options) (a a' : Bytes) (r r' : List Bytes)
    → round x p o a r ≡ round x q o' a' r'
    → parse_from x p o (a ∷ r) ≡ parse_from x q o' (a' ∷ r')
same_round x p q o o' a a' r r' e = elim (Round-cases (round x p o a r)) [
  | inl (_, _, _, h) ↦
      parse_from-round x p o a r h ∙ sym (parse_from-round x q o' a' r' (sym e ∙ h))
  | inr (_, _, h) ↦
      parse_from_failure x p o a r h ∙ sym (parse_from_failure x q o' a' r' (sym e ∙ h))
]

-- Long options.
long_arg :
    (x : Outside) (o : Options) (n : ℕ) (text : Bytes) (rest : List Bytes)
    → round x false o (b'-' ∷ b'-' ∷ n ∷ text) rest ≡ long_round x o (n ∷ text) rest
unfolding round same has_prefix strip_prefix
long_arg x o n text rest = refl

long_round_with :
    (x : Outside) (o : Options) (name value : Bytes) (rest : List Bytes)
    → Lacks b'=' name
    → long_round x o (name ++ b'=' ∷ value) rest
      ≡ long_case o name (some value) rest (long_option name (long_options x))
unfolding long_round long_case
long_round_with x o name value rest h = rw (cut-append b'=' name value h, long_round) refl

long_round_without :
    (x : Outside) (o : Options) (name : Bytes) (rest : List Bytes)
    → Lacks b'=' name
    → long_round x o name rest ≡ long_case o name none rest (long_option name (long_options x))
unfolding long_round long_case
long_round_without x o name rest h = rw (cut-Lacks b'=' name h, long_round) refl

takes_either :
    (o : Options) (name value : Bytes) (rest : List Bytes)
    {set : Bytes → Options → Result ValueError Options} {option : Option LongOption}
    → option ≡ some (takes set)
    → long_case o name (some value) rest option ≡ long_case o name none (value ∷ rest) option
unfolding long_case take_value option_argument
takes_either o name value rest e = rw e refl

-- A long option that takes an argument means the same with the argument behind `=` as with it in
-- the next place, whatever the options so far and whatever follows.
pub parse_from_equals :
    (x : Outside) (o : Options) (n : ℕ) (name value : Bytes) (rest : List Bytes)
    (set : Bytes → Options → Result ValueError Options)
    → Lacks b'=' (n ∷ name)
    → long_option (n ∷ name) (long_options x) ≡ some (takes set)
    → parse_from x false o ((b'-' ∷ b'-' ∷ n ∷ name ++ b'=' ∷ value) ∷ rest)
      ≡ parse_from x false o ((b'-' ∷ b'-' ∷ n ∷ name) ∷ value ∷ rest)
parse_from_equals x o n name value rest set h e =
    same_round x false false o o _ _ rest (value ∷ rest) (
      long_arg x o n (name ++ b'=' ∷ value) rest
      ∙ long_round_with x o (n ∷ name) value rest h
      ∙ takes_either o (n ∷ name) value rest e
      ∙ sym (long_round_without x o (n ∷ name) (value ∷ rest) h)
      ∙ sym (long_arg x o n name (value ∷ rest)))

-- Behind `--`.
parse_from_positional :
    (x : Outside) (o : Options) (rest : List Bytes)
    → parse_from x true o rest ≡ (record o { urls = o.urls ++ rest }, none)
unfolding parse_loop round
parse_from_positional x o [] = rw (append-nil o.urls) refl
parse_from_positional x o (arg ∷ rest) =
    parse_from_positional x (record o { urls = o.urls ++ arg ∷ [] }) rest
    ∙ rw (append_assoc o.urls (arg ∷ []) rest) refl

dash_dash_round :
    (x : Outside) (o : Options) (rest : List Bytes)
    → round x false o (b'-' ∷ b'-' ∷ []) rest ≡ goes true o rest
unfolding round same has_prefix strip_prefix
dash_dash_round x o rest = refl

-- In the loop of `ParseArgs`, which gets the arguments after `expandCombinedFlags` has split some of
-- them, everything behind `--` is a URL, also what looks like an option, whatever the options so far,
-- and nothing there is an error.
pub parse_from_dash_dash :
    (x : Outside) (o : Options) (rest : List Bytes)
    → parse_from x false o ((b'-' ∷ b'-' ∷ []) ∷ rest) ≡ (record o { urls = o.urls ++ rest }, none)
parse_from_dash_dash x o rest =
    parse_from-round x false o (b'-' ∷ b'-' ∷ []) rest (dash_dash_round x o rest)
    ∙ parse_from_positional x o rest

-- Short options.
abbrev pub IsFlag : ℕ → Type 0
IsFlag c = (set : Options → Options) × (flag c ≡ some set)

IsFlag-ne-dash : (c : ℕ) → IsFlag c → c ≢ b'-'
unfolding flag
IsFlag-ne-dash c (set, e) = ground arith

short_arg :
    (x : Outside) (o : Options) (c : ℕ) (s : Bytes) (rest : List Bytes)
    → c ≢ b'-'
    → round x false o (b'-' ∷ c ∷ s) rest ≡ short_round x o (c ∷ s) rest
unfolding round same has_prefix strip_prefix
short_arg x o c s rest ne = ground arith

set_flags : (a : Bytes) → All IsFlag a → Options → Options
set_flags [] _ o = o
set_flags (c ∷ a) ((set, _), h) o = set_flags a h (set o)

short_round-append :
    (x : Outside) (o : Options) (a s : Bytes) (rest : List Bytes) (h : All IsFlag a)
    → short_round x o (a ++ s) rest ≡ short_round x (set_flags a h o) s rest
unfolding set_flags short_round
short_round-append x o [] s rest _ = refl
short_round-append x o (c ∷ a) s rest ((set, e), h) =
    rw (e, short_round) refl ∙ short_round-append x (set o) a s rest h

short_round-nil :
    (x : Outside) (o : Options) (rest : List Bytes) → short_round x o [] rest ≡ goes false o rest
unfolding short_round
short_round-nil x o rest = refl

short_round-flags :
    (x : Outside) (o : Options) (a : Bytes) (rest : List Bytes) (h : All IsFlag a)
    → short_round x o a rest ≡ goes false (set_flags a h o) rest
short_round-flags x o a rest h =
    subst (λ s. short_round x o s rest ≡ short_round x (set_flags a h o) [] rest) (append-nil a)
      (short_round-append x o a [] rest h)
    ∙ short_round-nil x (set_flags a h o) rest

-- Short options without an argument may be joined with further short options behind one dash, or
-- stand alone.
pub parse_from_joined :
    (x : Outside) (o : Options) (d : ℕ) (a : Bytes) (c : ℕ) (s : Bytes) (rest : List Bytes)
    → All IsFlag (d ∷ a)
    → c ≢ b'-'
    → parse_from x false o ((b'-' ∷ d ∷ a ++ c ∷ s) ∷ rest)
      ≡ parse_from x false o ((b'-' ∷ d ∷ a) ∷ (b'-' ∷ c ∷ s) ∷ rest)
parse_from_joined x o d a c s rest h ne =
    let here = IsFlag-ne-dash d h.0 in
    same_round x false false o (set_flags (d ∷ a) h o) (b'-' ∷ d ∷ a ++ c ∷ s) (b'-' ∷ c ∷ s) rest
      rest
      (short_arg x o d (a ++ c ∷ s) rest here
        ∙ short_round-append x o (d ∷ a) (c ∷ s) rest h
        ∙ sym (short_arg x (set_flags (d ∷ a) h o) c s rest ne))
    ∙ sym (
        parse_from-round x false o (b'-' ∷ d ∷ a) ((b'-' ∷ c ∷ s) ∷ rest) (
          short_arg x o d a ((b'-' ∷ c ∷ s) ∷ rest) here
          ∙ short_round-flags x o (d ∷ a) ((b'-' ∷ c ∷ s) ∷ rest) h))
