-- ===== src/Execute/Exchange.antt =====
-- internal/curlu/client.go: what `execute` sends and puts out over HTTP/1.1.
use curlu.Base.{
  ok_injective, Result-cases, inl, inr, true, false, ℕ, suc, Bool, Option, none, some, List, [],
  ◌∷◌, ◌++◌, append-nil, append_assoc, ◌≡◌, refl, sym, ap, ◌∙◌, Bytes, length, Result, ok, err,
}
use mathlib.Core.Path.{subst}
use curlu.Fault.{Fault}
use curlu.Request.{Url, serialize_http1}
use curlu.Response.{Reader, Writer, Received, received, failed, out_of_fuel}
use curlu.Response.Reply.{Replies, read_response-Replies}
use curlu.Execute.Defs.{
  Ending, done, Env, Plan, response_from, responded, sent, chosen, exchanged, http1_each,
}

module _ {C : Type 0} (env : Env C) (p : Plan) where
  -- The connection of a request: the one before it if that may be used again, with what is left to
  -- read there, and else a new one, with all that arrives there.
  pub data Serves (n : ℕ) (conn : C) (reader : Reader) (reuse : Bool) (target : Url)
      : ℕ → C → Reader → Type 0 where
    same_connection : reuse ≡ true → Serves n conn reader reuse target n conn reader
    new_connection :
        (conn' : C) (proto : Bytes)
        → reuse ≡ false
        → env.connect_to n target ≡ ok (conn', proto)
        → Serves n conn reader reuse target (suc n) conn' (env.arriving conn')

  chosen-Serves :
      (n : ℕ) (conn : C) (reader : Reader) (reuse : Bool) (target : Url) {conn' : C}
      {reader' : Reader} {n' : ℕ}
      → chosen env p n conn reader reuse target ≡ ok (conn', reader', n')
      → Serves n conn reader reuse target n' conn' reader'
  chosen-Serves n conn reader true target h =
      subst (λ (r : C × Reader × ℕ). Serves n conn reader true target r.2 r.0 r.1) (ok_injective h)
        (same_connection refl)
  chosen-Serves n conn reader false target h = elim (Result-cases (env.connect_to n target)) [
    | inr (code, e) ↦ absurd (let h' = rw e at h in cc h')
    | inl ((made, proto), e) ↦
        subst (λ (r : C × Reader × ℕ). Serves n conn reader false target r.2 r.0 r.1)
          (ok_injective (rw e at h)) (new_connection made proto refl e)
  ]

  -- One exchange for each target, in order, with what is put out for them together.
  pub data Exchanges : ℕ → ℕ → C → Reader → Bool → List Url → Bytes → Type 0 where
    no_more :
        {i n : ℕ} {conn : C} {reader : Reader} {reuse : Bool}
        → Exchanges i n conn reader reuse [] []
    exchange :
        {i n : ℕ} {conn : C} {reader : Reader} {reuse : Bool} {targets : List Url} {rest : Bytes}
        (target : Url) (n' : ℕ) (conn' : C) (reader' next : Reader) (reuse' : Bool) (text : Bytes)
        → Serves n conn reader reuse target n' conn' reader'
        → env.send i conn' (serialize_http1 p.tail target p.headers p.names p.version) ≡ none
        → Replies env.read_http p.include reader' text next reuse'
        → Exchanges (suc i) n' conn' next reuse' targets rest
        → Exchanges i n conn reader reuse (target ∷ targets) (text ++ rest)

  sent-done :
      (fault : Option Fault) (w : Writer) (onward : Writer × Ending) {w' : Writer}
      → sent env p fault w onward ≡ (w', done)
      → (fault ≡ none) × (onward ≡ (w', done))
  sent-done none w onward h = (refl, h)
  sent-done (some e) w onward h = absurd (cc h)

  responded-done :
      (w0 : Writer) (r : Received) (onward : Reader → Bool → Writer → Writer × Ending) {w' : Writer}
      → responded env p w0 r onward ≡ (w', done)
      → (next : Reader) × (reuse : Bool) × (w : Writer) × (r ≡ received next reuse w)
        × (onward next reuse w ≡ (w', done))
  responded-done w0 (received next reuse w) onward h = (next, reuse, w, refl, h)
  responded-done w0 (failed code w) onward h = absurd (cc h)
  responded-done w0 out_of_fuel onward h = absurd (cc h)

  exchanged-done :
      (i : ℕ) (w : Writer) (target : Url) (r : Result ℕ (C × Reader × ℕ))
      (onward : ℕ → C → Reader → Bool → Writer → Writer × Ending) {w' : Writer}
      → exchanged env p i w target r onward ≡ (w', done)
      → (conn : C) × (reader : Reader) × (n : ℕ) × (r ≡ ok (conn, reader, n))
        × (env.send i conn (serialize_http1 p.tail target p.headers p.names p.version) ≡ none)
        × (responded env p w
              (response_from env p reader w)
              (λ next reuse v. onward n conn next reuse v)
            ≡ (w', done))
  exchanged-done i w target (err code) onward h = absurd (cc h)
  exchanged-done i w target (ok (conn, reader, n)) onward h =
      let (a, b) = sent-done _ w _ h in (conn, reader, n, refl, a, b)

  -- The requests over HTTP/1.1 that end without an error: for each target in order the request of
  -- `serializeHTTP1` was written whole, to the connection before it if its last response left that open
  -- and else to a new one, and its response was read from what arrives there, behind the responses
  -- before it; and the output has got exactly what belongs to these responses, in order.
  pub http1_each-Exchanges :
      (i n : ℕ) (conn : C) (reader : Reader) (reuse : Bool) (w : Writer) (targets : List Url)
      {w' : Writer}
      → http1_each env p i n conn reader reuse w targets ≡ (w', done)
      → (text : Bytes) × Exchanges i n conn reader reuse targets text × (w'.out ≡ w.out ++ text)
  unfolding http1_each
  http1_each-Exchanges i n conn reader reuse w [] h =
      ([], no_more, sym (ap (λ r. r.0.out) h) ∙ sym (append-nil w.out))
  http1_each-Exchanges i n conn reader reuse w (target ∷ targets) h =
      let (conn', reader', n', e, s, later) =
        exchanged-done i w target (chosen env p n conn reader reuse target) _ h in
      let (next, reuse', v, r, onward) = responded-done w (response_from env p reader' w) _ later in
      let (text, replies, o) =
        read_response-Replies (suc (length reader'.slices)) env.read_http p.include env.expired w
          reader' r in
      let (rest, more, o') = http1_each-Exchanges (suc i) n' conn' next reuse' v targets onward in
      (
        text ++ rest,
        exchange target n' conn' reader' next reuse' text
            (chosen-Serves n conn reader reuse target e) s replies more,
        o' ∙ ap (λ t. t ++ rest) o ∙ append_assoc w.out text rest,
      )
