-- ===== src/Muxed/Output.antt =====
-- internal/curlu/http2.go: what a run of requests on one connection puts out.
use curlu.Base.{
  ℕ, suc, Option, none, some, List, [], ◌∷◌, ◌++◌, append_assoc, append-nil, ◌≡◌, inl, inr, refl,
  sym, ap, ◌∙◌, Bytes, Option-cases, Result, ok, err,
}
use curlu.Fault.{Fault}
use curlu.Request.{Url}
use curlu.Response.{Writer, copy, write_block}
use curlu.Response.Output.{concat, copy-all}
use curlu.Response.Reply.{shown, write_block-all}
use curlu.Muxed.Defs.{build_muxed_request}
use curlu.Muxed.Stream.{
  MuxedResponse, format_muxed_headers, Muxed, stream_body, behind_headers, answered, stream, run,
}

-- What belongs to a response: its header block if that is to be shown, and its body.
abbrev pub put_out : Muxed → MuxedResponse → Bytes
put_out m response = shown m.include (format_muxed_headers response m.major) ++ concat response.body

stream_body-ok :
    (m : Muxed) (response : MuxedResponse) (w : Writer)
    → (stream_body m response w).1 ≡ none
    → (response.body_end ≡ none)
      × ((stream_body m response w).0.out ≡ w.out ++ concat response.body)
unfolding stream_body
stream_body-ok m response w h =
    let c = copy w response.body response.body_end in
    elim (Option-cases c.tracker_error) [
      | inr (x, e) ↦ absurd (let h' = rw (e, stream_body) at h in cc h')
      | inl e ↦
          let (a, b) = copy-all w response.body response.body_end e in
          elim (Option-cases c.copy_error) [
            | inr (x, e') ↦ absurd (let h' = rw (e, e', stream_body) at h in cc h')
            | inl e' ↦ (sym a ∙ e', rw (e, e', stream_body) b)
          ]
    ]

behind_headers-ok :
    (m : Muxed) (response : MuxedResponse) (r : Writer × Option Fault)
    → (behind_headers m response r).1 ≡ none
    → (r.1 ≡ none)
      × (response.body_end ≡ none)
      × ((behind_headers m response r).0.out ≡ r.0.out ++ concat response.body)
behind_headers-ok m response (w, some _) h = absurd (cc h)
behind_headers-ok m response (w, none) h =
    let (a, b) = stream_body-ok m response w h in (refl, a, b)

answered-ok :
    (m : Muxed) (w : Writer) (r : Result Fault MuxedResponse)
    → (answered m w r).1 ≡ none
    → (response : MuxedResponse) × (r ≡ ok response)
      × (response.body_end ≡ none)
      × ((answered m w r).0.out ≡ w.out ++ put_out m response)
unfolding answered
answered-ok m w (err e) h = absurd (cc h)
answered-ok m w (ok response) h =
    let block = format_muxed_headers response m.major in
    let (a, b, c) = behind_headers-ok m response (write_block m.include w block) h in
    (
      response,
      refl,
      b,
      c
          ∙ ap (λ o. o ++ concat response.body) (write_block-all m.include w block a)
          ∙ append_assoc w.out (shown m.include block) (concat response.body),
    )

-- The responses of a run, one for each target in order, and what is put out for them together.
pub data Answers (tail : Bytes → ℕ) (m : Muxed) : ℕ → List Url → Bytes → Type 0 where
  no_more : {i : ℕ} → Answers tail m i [] []
  answer :
      {i : ℕ} {targets : List Url} {rest : Bytes} (target : Url) (response : MuxedResponse)
      → m.round_trip i
          (build_muxed_request tail target m.major m.headers m.suppressed_names m.version)
        ≡ ok response
      → response.body_end ≡ none
      → Answers tail m (suc i) targets rest
      → Answers tail m i (target ∷ targets) (put_out m response ++ rest)

run_onward :
    (tail : Bytes → ℕ) (m : Muxed) (i : ℕ) (w : Writer) (target : Url) (targets : List Url)
    → (run tail m i w (target ∷ targets)).1 ≡ none
    → ((stream tail m i w target).1 ≡ none)
      × (run tail m i w (target ∷ targets)
          ≡ run tail m (suc i) (stream tail m i w target).0 targets)
unfolding run
run_onward tail m i w target targets h = elim (Option-cases (stream tail m i w target).1) [
  | inr (x, e) ↦ absurd (let h' = rw (e, run) at h in cc h')
  | inl e ↦ (e, rw (e, run) refl)
]

-- A run that ends without an error has got an answer to the request for each target, in order, each
-- with its body to the end, and has put out exactly what belongs to them: for each its header block, if
-- it is to be shown, and its body, whatever the output takes at a time.
pub run-Answers :
    (tail : Bytes → ℕ) (m : Muxed) (i : ℕ) (w : Writer) (targets : List Url)
    → (run tail m i w targets).1 ≡ none
    → (text : Bytes) × Answers tail m i targets text
      × ((run tail m i w targets).0.out ≡ w.out ++ text)
unfolding run stream
run-Answers tail m i w [] h = ([], no_more, sym (append-nil w.out))
run-Answers tail m i w (target ∷ targets) h =
    let (fine, whole) = run_onward tail m i w target targets h in
    let w' = (stream tail m i w target).0 in
    let (response, a, b, c) = answered-ok m w _ fine in
    let (rest, answers, d) =
      run-Answers tail m (suc i) w' targets (sym (ap (λ r. r.1) whole) ∙ h) in
    (
      put_out m response ++ rest,
      answer target response a b answers,
      ap (λ r. r.0.out) whole
          ∙ d
          ∙ ap (λ o. o ++ rest) c
          ∙ append_assoc w.out (put_out m response) rest,
    )
