-- ===== src/Options/Rounds.antt =====
-- `ParseArgs`: its rounds in turn, and the ways to write one option.
use mathlib.Core.Path.{subst}
use curlu.Base.{
  ℕ, zero, suc, Bool, not, ◌||◌, Option, none, some, List, [], ◌∷◌, ◌≤◌, ◌≡◌, ◌≢◌, ◌⊎◌, refl, sym,
  ◌∙◌, arith, Bytes, length, drop, Result, ok, err, Result-cases, same, Option-cases, Bool-cases,
  inl, inr, ◌==◌,
}
use curlu.Text.{cut, strip_prefix, has_prefix}
use curlu.Options.Defs.{Options, ValueError, OptionError, out_of_fuel, Outside}
use curlu.Options.Value.{parse_seconds}
use curlu.Options.Table.{LongOption, sets, takes, long_option, long_options}
use curlu.Options.Parse.{
  Round, goes, fails, option_argument, set_value, take_value, long_case, long_round, flag,
  flag_value, flag_argument, short_round, round, parse_loop,
}

-- A round leaves no more arguments than there were, and its error is not the loop's.
abbrev Shrinks : ℕ → Round → Type 0
Shrinks n (goes p o rest) = length rest ≤ n
Shrinks n (fails o e) = e ≢ out_of_fuel

set_value-Shrinks :
    (o : Options) (name : Bytes) (rest : List Bytes) (n : ℕ) (r : Result ValueError Options)
    → length rest ≤ n
    → Shrinks n (set_value o name rest r)
unfolding set_value
set_value-Shrinks o name rest n (ok o') h = h
set_value-Shrinks o name rest n (err e) h = λ bad. cc bad

long_case-Shrinks :
    (o : Options) (name : Bytes) (value : Option Bytes) (rest : List Bytes)
    (option : Option LongOption)
    → Shrinks (length rest) (long_case o name value rest option)
unfolding long_case take_value option_argument
long_case-Shrinks o name value rest none = λ bad. cc bad
long_case-Shrinks o name (some v) rest (some (sets set)) = λ bad. cc bad
long_case-Shrinks o name none rest (some (sets set)) = omega arith
long_case-Shrinks o name (some v) rest (some (takes set)) =
    set_value-Shrinks o name rest (length rest) (set v o) (omega arith)
long_case-Shrinks o name none [] (some (takes set)) = λ bad. cc bad
long_case-Shrinks o name none (v ∷ rest) (some (takes set)) =
    set_value-Shrinks o name rest (suc (length rest)) (set v o) (omega arith)

long_round-Shrinks :
    (x : Outside) (o : Options) (text : Bytes) (rest : List Bytes)
    → Shrinks (length rest) (long_round x o text rest)
unfolding long_round
long_round-Shrinks x o text rest = elim (Option-cases (cut b'=' text)) [
  | inl e ↦
      rw (e, long_round) (long_case-Shrinks o text none rest (long_option text (long_options x)))
  | inr ((name, value), e) ↦
      rw (e, long_round)
        (long_case-Shrinks o name (some value) rest (long_option name (long_options x)))
]

flag_value-Shrinks :
    (x : Outside) (o : Options) (c : ℕ) (value : Bytes) (rest : List Bytes) (n : ℕ)
    → length rest ≤ n
    → Shrinks n (flag_value x o c value rest)
unfolding flag_value
flag_value-Shrinks x o c value rest n h = elim (Bool-cases (c == b'H')) [
  | inl e ↦ rw e h
  | inr e ↦ elim (Result-cases (parse_seconds x value)) [
    | inl (d, e') ↦ rw (e, e') h
    | inr (bad, e') ↦ rw (e, e') (λ b. cc b)
  ]
]

flag_argument-Shrinks :
    (x : Outside) (o : Options) (c : ℕ) (short : Bytes) (rest : List Bytes)
    → Shrinks (length rest) (flag_argument x o c short rest)
unfolding flag_argument
flag_argument-Shrinks x o c (b ∷ short) rest =
    flag_value-Shrinks x o c (b ∷ short) rest (length rest) (omega arith)
flag_argument-Shrinks x o c [] [] = λ bad. cc bad
flag_argument-Shrinks x o c [] (v ∷ rest) =
    flag_value-Shrinks x o c v rest (suc (length rest)) (omega arith)

short_round-Shrinks :
    (x : Outside) (o : Options) (short : Bytes) (rest : List Bytes)
    → Shrinks (length rest) (short_round x o short rest)
unfolding short_round
short_round-Shrinks x o [] rest = omega arith
short_round-Shrinks x o (c ∷ short) rest = elim (Option-cases (flag c)) [
  | inr (set, e) ↦ rw (e, short_round) (short_round-Shrinks x (set o) short rest)
  | inl e ↦ elim (Bool-cases (c == b'H' || c == b'm')) [
    | inl e' ↦ rw (e, e', short_round) (flag_argument-Shrinks x o c short rest)
    | inr e' ↦ rw (e, e', short_round) (λ b. cc b)
  ]
]

round-Shrinks :
    (x : Outside) (p : Bool) (o : Options) (arg : Bytes) (rest : List Bytes)
    → Shrinks (length rest) (round x p o arg rest)
unfolding round
round-Shrinks x p o arg rest =
    elim (Bool-cases (p || same arg (b'-' ∷ []) || not (has_prefix arg (b'-' ∷ [])))) [
      | inl e ↦ rw e (omega arith)
      | inr e ↦ elim (Bool-cases (same arg (b'-' ∷ b'-' ∷ []))) [
        | inl e' ↦ rw (e, e') (omega arith)
        | inr e' ↦ elim (Option-cases (strip_prefix (b'-' ∷ b'-' ∷ []) arg)) [
          | inl e'' ↦ rw (e, e', e'') (short_round-Shrinks x o (drop 1 arg) rest)
          | inr (text, e'') ↦ rw (e, e', e'') (long_round-Shrinks x o text rest)
        ]
      ]
    ]

pub Round-cases :
    (r : Round)
    → ((p : Bool) × (o : Options) × (rest : List Bytes) × (r ≡ goes p o rest))
      ⊎ ((o : Options) × (e : OptionError) × (r ≡ fails o e))
Round-cases (goes p o rest) = inl (p, o, rest, refl)
Round-cases (fails o e) = inr (o, e, refl)

-- The loop with as much fuel as it needs.
abbrev pub parse_from : Outside → Bool → Options → List Bytes → Options × Option OptionError
parse_from x p o args = parse_loop (length args) x p o args

parse_loop-round :
    (f : ℕ) (x : Outside) (p : Bool) (o : Options) (arg : Bytes) (rest : List Bytes) {p' : Bool}
    {o' : Options} {rest' : List Bytes}
    → round x p o arg rest ≡ goes p' o' rest'
    → parse_loop (suc f) x p o (arg ∷ rest) ≡ parse_loop f x p' o' rest'
unfolding parse_loop
parse_loop-round f x p o arg rest e = rw (e, parse_loop) refl

parse_loop_failure :
    (f : ℕ) (x : Outside) (p : Bool) (o : Options) (arg : Bytes) (rest : List Bytes) {o' : Options}
    {bad : OptionError}
    → round x p o arg rest ≡ fails o' bad
    → parse_loop (suc f) x p o (arg ∷ rest) ≡ (o', some bad)
unfolding parse_loop
parse_loop_failure f x p o arg rest e = rw (e, parse_loop) refl

parse_loop_nil : (f : ℕ) (x : Outside) (p : Bool) (o : Options) → parse_loop f x p o [] ≡ (o, none)
unfolding parse_loop
parse_loop_nil zero x p o = refl
parse_loop_nil (suc f) x p o = refl

shorter :
    (x : Outside) (p : Bool) (o : Options) (arg : Bytes) (rest : List Bytes) {p' : Bool}
    {o' : Options} {rest' : List Bytes}
    → round x p o arg rest ≡ goes p' o' rest'
    → length rest' ≤ length rest
shorter x p o arg rest e = subst (Shrinks (length rest)) e (round-Shrinks x p o arg rest)

-- More fuel changes nothing.
parse_loop-fuel :
    (f g : ℕ) (x : Outside) (p : Bool) (o : Options) (args : List Bytes)
    → length args ≤ f
    → length args ≤ g
    → parse_loop f x p o args ≡ parse_loop g x p o args
parse_loop-fuel f g x p o [] h k = parse_loop_nil f x p o ∙ sym (parse_loop_nil g x p o)
parse_loop-fuel zero g x p o (arg ∷ rest) h k = absurd (omega arith)
parse_loop-fuel (suc f) zero x p o (arg ∷ rest) h k = absurd (omega arith)
parse_loop-fuel (suc f) (suc g) x p o (arg ∷ rest) h k = elim (Round-cases (round x p o arg rest)) [
  | inl (p', o', rest', e) ↦
      let short = shorter x p o arg rest e in
      parse_loop-round f x p o arg rest e
      ∙ parse_loop-fuel f g x p' o' rest' (omega (arith, short)) (omega (arith, short))
      ∙ sym (parse_loop-round g x p o arg rest e)
  | inr (o', bad, e) ↦
      parse_loop_failure f x p o arg rest e ∙ sym (parse_loop_failure g x p o arg rest e)
]

-- A round and the rest of the arguments.
pub parse_from-round :
    (x : Outside) (p : Bool) (o : Options) (arg : Bytes) (rest : List Bytes) {p' : Bool}
    {o' : Options} {rest' : List Bytes}
    → round x p o arg rest ≡ goes p' o' rest'
    → parse_from x p o (arg ∷ rest) ≡ parse_from x p' o' rest'
parse_from-round x p o arg rest {p'} {o'} {rest'} e =
    parse_loop-round (length rest) x p o arg rest e
    ∙ parse_loop-fuel (length rest) (length rest') x p' o' rest' (shorter x p o arg rest e)
        (omega arith)

pub parse_from_failure :
    (x : Outside) (p : Bool) (o : Options) (arg : Bytes) (rest : List Bytes) {o' : Options}
    {bad : OptionError}
    → round x p o arg rest ≡ fails o' bad
    → parse_from x p o (arg ∷ rest) ≡ (o', some bad)
parse_from_failure x p o arg rest e = parse_loop_failure (length rest) x p o arg rest e

pub parse_loop-ne-fuel :
    (f : ℕ) (x : Outside) (p : Bool) (o : Options) (args : List Bytes)
    → length args ≤ f
    → (parse_loop f x p o args).1 ≢ some out_of_fuel
parse_loop-ne-fuel f x p o [] h = rw (parse_loop_nil f x p o) (λ bad. cc bad)
parse_loop-ne-fuel zero x p o (arg ∷ rest) h = absurd (omega arith)
parse_loop-ne-fuel (suc f) x p o (arg ∷ rest) h = elim (Round-cases (round x p o arg rest)) [
  | inl (p', o', rest', e) ↦
      let short = shorter x p o arg rest e in
      rw (parse_loop-round f x p o arg rest e)
        (parse_loop-ne-fuel f x p' o' rest' (omega (arith, short)))
  | inr (o', bad, e) ↦
      let own : bad ≢ out_of_fuel =
        subst (Shrinks (length rest)) e (round-Shrinks x p o arg rest) in
      rw (parse_loop_failure f x p o arg rest e) (λ same_error. own (cc same_error))
]
