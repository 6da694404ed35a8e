-- ===== src/Program/Ends.antt =====
-- internal/curlu/run.go: the ends of `Run`.
use curlu.Base.{
  ℕ, Bool, false, Option, none, some, List, ◌≡◌, ◌≤◌, ◌⊎◌, inl, inr, refl, if-by, Bytes, length, ok,
}
use curlu.Fault.{Fault}
use curlu.Options.{Options, Outside, OptionError, parse_args}
use curlu.Options.Accepted.{parse_args_iff}
use curlu.Response.{Reader, Writer, Response}
use curlu.Connect.{Parsed}
use curlu.Execute.{Ending, done, exits, panics, endless, Env}
use curlu.Execute.Ends.{execute-Returns}
use curlu.Program.Defs.{
  Outcome, returns, Texts, report, print_end, write_once, printed, finished, started, run_args,
}

-- An exit code, with or without a message.
abbrev pub HasCode : Writer × Outcome → Type 0
HasCode r = (code : ℕ) × (shown : Bool) × (r.1 ≡ returns code shown)

report-HasCode : (o : Options) (w : Writer) (code : ℕ) → HasCode (w, report o code)
unfolding report
report-HasCode o w code = (code, _, refl)

print_end-HasCode : (o : Options) (r : Writer × Option Fault) → HasCode (print_end o r)
print_end-HasCode o (w, none) = (0, false, refl)
print_end-HasCode o (w, some _) = report-HasCode o w 23

printed-HasCode : (o : Options) (w : Writer) (text : Bytes) → HasCode (printed o w text)
unfolding printed
printed-HasCode o w text = print_end-HasCode o (write_once w text w.answers)

finished-HasCode :
    (o : Options) (w : Writer) (e : Ending)
    → ((e ≡ done) ⊎ ((code : ℕ) × (e ≡ exits code)))
    → HasCode (finished o (w, e))
finished-HasCode o w done _ = (0, false, refl)
finished-HasCode o w (exits code) _ = report-HasCode o w code
finished-HasCode o w panics (inl h) = absurd (cc h)
finished-HasCode o w panics (inr (code, h)) = absurd (cc h)
finished-HasCode o w endless (inl h) = absurd (cc h)
finished-HasCode o w endless (inr (code, h)) = absurd (cc h)

module _ {C : Type 0} (x : Outside) (parse : Bytes → Option Parsed) (env : Options → Env C)
    (tail : Bytes → ℕ) (texts : Texts)
    (lawful : (o : Options) (block : Bytes) (r : Reader) (response : Response)
      → (env o).read_http block r ≡ ok response
      → length response.next.slices ≤ length r.slices) where
  started-HasCode :
      (args : List Bytes) (version : Bytes) (w : Writer) (r : Options × Option OptionError)
      → parse_args x args ≡ r
      → HasCode (started x parse env tail texts version w r)
  started-HasCode args version w (o, some e) h = report-HasCode o w 2
  started-HasCode args version w (o, none) h =
      let consistent = ((parse_args_iff x args o).0 h).1 in
      if-by HasCode o.help (λ _. printed-HasCode o w texts.help_text)
        (λ a.
          if-by HasCode o.version (λ _. printed-HasCode o w texts.version_text)
            (λ b.
              if-by HasCode o.utls_hello_list (λ _. printed-HasCode o w _)
                (λ c. finished-HasCode o _ _ (
                  execute-Returns x parse (env o) tail (lawful o) o version w
                    (consistent.urls a b c)))))

  -- `Run` returns an exit code for every command line: it never reads the first of no targets, since a
  -- command line without a URL is refused before, and never reads responses without end, when
  -- `http.ReadResponse` hands on a reader with no more slices than it was given.
  pub run_args-HasCode :
      (args : List Bytes) (version : Bytes) (w : Writer)
      → HasCode (run_args x parse env tail texts args version w)
  unfolding run_args
  run_args-HasCode args version w = started-HasCode args version w (parse_args x args) refl
