-- ===== src/Program/Defs.antt =====
-- internal/curlu/run.go: `Run` and `report`; utls.go: `utlsHelloNames`. The help text and the text of
-- the versions are arguments, and of a message on stderr only whether it is shown is kept.
use curlu.Base.{
  ℕ, Bool, false, not, ◌||◌, Option, none, some, List, [], ◌∷◌, ◌++◌, map, if◌then◌else◌, Bytes,
  take,
}
use curlu.Text.{join}
use curlu.Fault.{Fault}
use curlu.Options.{Options, Outside, ClientHelloId, OptionError, parse_args}
use curlu.Response.{Writer}
use curlu.Connect.{Parsed}
use curlu.Muxed.{sort_names}
use curlu.Execute.{Ending, done, exits, panics, endless, Env, execute}

-- How `Run` ends: with an exit code and whether a message is shown, or with the panic or the endless
-- reading of `execute`.
pub data Outcome : Type 0 where
  returns : ℕ → Bool → Outcome
  crashes : Outcome
  hangs : Outcome

pub record Texts : Type 0 where
  pub help_text : Bytes
  pub version_text : Bytes

unfoldable pub report : Options → ℕ → Outcome
report o code = returns code (not o.silent || o.show_error)

-- One call of `Write`, whose count is not looked at.
abbrev pub write_once : Writer → Bytes → List (ℕ × Option Fault) → Writer × Option Fault
write_once w text [] = (record { out = w.out ++ text; answers = [] }, none)
write_once w text ((k, e) ∷ answers) = (record { out = w.out ++ take k text; answers = answers }, e)

abbrev pub print_end : Options → Writer × Option Fault → Writer × Outcome
print_end o (w, none) = (w, returns 0 false)
print_end o (w, some _) = (w, report o 23)

unfoldable pub printed : Options → Writer → Bytes → Writer × Outcome
printed o w text = print_end o (write_once w text w.answers)

unfoldable pub utls_hello_names : List (Bytes × ClientHelloId) → List Bytes
utls_hello_names by_name = sort_names (map (λ (entry : Bytes × ClientHelloId). entry.0) by_name)

abbrev pub finished : Options → Writer × Ending → Writer × Outcome
finished o (w, done) = (w, returns 0 false)
finished o (w, exits code) = (w, report o code)
finished o (w, panics) = (w, crashes)
finished o (w, endless) = (w, hangs)

module _ {C : Type 0} (x : Outside) (parse : Bytes → Option Parsed) (env : Options → Env C)
    (tail : Bytes → ℕ) (texts : Texts) where
  abbrev pub started : Bytes → Writer → Options × Option OptionError → Writer × Outcome
  started version w (o, some _) = (w, report o 2)
  started version w (o, none) =
      if o.help
      then printed o w texts.help_text
      else if o.version
      then printed o w texts.version_text
      else if o.utls_hello_list
      then printed o w (join 10 (utls_hello_names x.hello_by_name) ++ 10 ∷ [])
      else finished o (execute x parse (env o) tail o version w)

  unfoldable pub run_args : List Bytes → Bytes → Writer → Writer × Outcome
  run_args args version w = started version w (parse_args x args)
