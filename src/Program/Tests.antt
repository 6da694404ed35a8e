-- ===== src/Program/Tests.antt =====
-- Command lines that run, and the theorem there.
use curlu.Program.Defs.{printed, report, Texts, returns, run_args}
use curlu.Options.{long_options, long_option, long_case, long_round, round, parse_args, Options}
use curlu.Text.{cut, strip_prefix, contains_byte, has_prefix}
use curlu.Base.{
  ℕ, true, false, List, [], ◌∷◌, ◌≡◌, ◌≤◌, refl, arith, Bytes, codes, length, ok, same,
}
use curlu.Response.{Reader, Response}
use curlu.Execute.{Env}
use curlu.Execute.Tests.{world, parse, tail, output}
use curlu.Execute.Tests
use curlu.Program.Ends.{HasCode, run_args-HasCode}

abbrev env : Options → Env ℕ
env o = Tests.env

abbrev texts : Texts
texts = record { help_text = codes "Usage"; version_text = codes "curlu 1" }

abbrev two_urls : List Bytes
two_urls = codes "-g" ∷ codes "/1" ∷ codes "/2" ∷ []

keeps :
    (o : Options) (block : Bytes) (r : Reader) (response : Response)
    → (env o).read_http block r ≡ ok response
    → length response.next.slices ≤ length r.slices
keeps o block r response h = ground arith

run_args-HasCode_example : HasCode (run_args world parse env tail texts two_urls (codes "1") output)
run_args-HasCode_example =
    run_args-HasCode world parse env tail texts keeps two_urls (codes "1") output

no_url_refused : (run_args world parse env tail texts [] (codes "1") output).1 ≡ returns 2 true
unfolding run_args parse_args report
no_url_refused = refl

help_printed :
    run_args world parse env tail texts (codes "--help" ∷ []) (codes "1") output
    ≡ (record { out = codes "Usage"; answers = [] }, returns 0 false)
unfolding run_args parse_args has_prefix contains_byte round same strip_prefix long_round cut
    long_case long_option long_options printed
help_printed = refl
