-- ===== src/Execute/Ends.antt =====
-- internal/curlu/client.go: the ends of `execute`.
use curlu.Base.{
  ℕ, suc, Bool, true, ◌&&◌, ◌||◌, Option, none, some, List, [], ◌∷◌, ◌≡◌, ◌≢◌, ◌≤◌, ◌⊎◌, inl, inr,
  refl, arith, if-by, Bytes, codes, length, Result, ok, err, Result-cases, same,
}
use curlu.Fault.{Fault}
use curlu.Options.{Options, Outside}
use curlu.Request.{Url, RequestHeader, serialize_http1, parse_request_headers}
use curlu.Resolve.{check_transport_options}
use curlu.Response.{Reader, Writer, Response, Received, received, failed, out_of_fuel}
use curlu.Response.Fuel.{read_response-ne-fuel}
use curlu.Connect.{Parsed, TargetError, exit, index_out_of_range, parse_targets, http}
use curlu.Connect.Refusals.{parse_targets-IsRefusal}
use curlu.Connect.Targets.{parse_targets_iff}
use curlu.Execute.Defs.{
  Ending, done, exits, Env, Plan, ended, round_trip_http2, execute_http3, response_from, responded,
  sent, chosen, exchanged, http1_each, over_connection, transfer, with_headers, checked,
  with_targets, execute,
}

-- An end with or without an exit code.
abbrev pub Returns : Writer × Ending → Type 0
Returns r = (r.1 ≡ done) ⊎ ((code : ℕ) × (r.1 ≡ exits code))

ended-Returns : (r : Writer × Option ℕ) → Returns (ended r)
ended-Returns (w, none) = inl refl
ended-Returns (w, some code) = inr (code, refl)

module _ {C : Type 0} (env : Env C) (p : Plan)
    (lawful : (block : Bytes) (r : Reader) (response : Response)
      → env.read_http block r ≡ ok response
      → length response.next.slices ≤ length r.slices) where
  responded-Returns :
      (w0 : Writer) (r : Received) (onward : Reader → Bool → Writer → Writer × Ending)
      → r ≢ out_of_fuel
      → ((next : Reader) (reuse : Bool) (w : Writer) → Returns (onward next reuse w))
      → Returns (responded env p w0 r onward)
  responded-Returns w0 (received next reuse w) onward fuel later = later next reuse w
  responded-Returns w0 (failed code w) onward fuel later = inr (code, refl)
  responded-Returns w0 out_of_fuel onward fuel later = absurd (fuel refl)

  sent-Returns :
      (fault : Option Fault) (w : Writer) (onward : Writer × Ending)
      → Returns onward
      → Returns (sent env p fault w onward)
  sent-Returns none w onward later = later
  sent-Returns (some e) w onward later = inr (_, refl)

  exchanged-Returns :
      (i : ℕ) (w : Writer) (target : Url) (r : Result ℕ (C × Reader × ℕ))
      (onward : ℕ → C → Reader → Bool → Writer → Writer × Ending)
      → ((n : ℕ) (conn : C) (next : Reader) (reuse : Bool) (v : Writer)
          → Returns (onward n conn next reuse v))
      → Returns (exchanged env p i w target r onward)
  exchanged-Returns i w target (err code) onward later = inr (code, refl)
  exchanged-Returns i w target (ok (conn, reader, n)) onward later =
      sent-Returns (env.send i conn (serialize_http1 p.tail target p.headers p.names p.version)) w _
        (responded-Returns w (response_from env p reader w) _
          (read_response-ne-fuel (suc (length reader.slices)) env.read_http p.include env.expired w
            reader lawful (omega arith))
          (λ next reuse v. later n conn next reuse v))

  http1_each-Returns :
      (i n : ℕ) (conn : C) (reader : Reader) (reuse : Bool) (w : Writer) (targets : List Url)
      → Returns (http1_each env p i n conn reader reuse w targets)
  unfolding http1_each
  http1_each-Returns i n conn reader reuse w [] = inl refl
  http1_each-Returns i n conn reader reuse w (target ∷ targets) =
      exchanged-Returns i w target (chosen env p n conn reader reuse target) _
        (λ n' conn' next reuse' v. http1_each-Returns (suc i) n' conn' next reuse' v targets)

  http3-Returns :
      (target : Url) (w : Writer) (targets : List Url)
      → Returns (execute_http3 env p target w targets)
  unfolding execute_http3
  http3-Returns target w targets = elim (Result-cases (env.quic_conn target)) [
    | inr (code, e) ↦ rw (e, execute_http3) (inr (code, refl))
    | inl (trip, e) ↦ rw (e, execute_http3) (ended-Returns _)
  ]

  http2-Returns :
      (conn : C) (w : Writer) (targets : List Url) → Returns (round_trip_http2 env p conn w targets)
  unfolding round_trip_http2
  http2-Returns conn w targets = elim (Result-cases (env.client_conn conn)) [
    | inr (code, e) ↦ rw (e, round_trip_http2) (inr (_, refl))
    | inl (trip, e) ↦ rw (e, round_trip_http2) (ended-Returns _)
  ]

  connection-Returns :
      (o : Options) (target : Url) (w : Writer) (targets : List Url) (r : Result ℕ (C × Bytes))
      → Returns (over_connection env p o target w targets r)
  connection-Returns o target w targets (err code) = inr (code, refl)
  connection-Returns o target w targets (ok (conn, proto)) =
      if-by Returns (same proto (codes "h2") || o.http2_prior_knowledge && same target.scheme http)
        (λ _. http2-Returns conn w targets)
        (λ _. http1_each-Returns 0 1 conn (env.arriving conn) true w targets)

  transfer-Returns :
      (o : Options) (target : Url) (w : Writer) (targets : List Url)
      → Returns (transfer env p o target w targets)
  unfolding transfer
  transfer-Returns o target w targets =
      if-by Returns o.http3 (λ _. http3-Returns target w targets)
        (λ _. connection-Returns o target w targets (env.connect_to 0 target))

module _ {C : Type 0} (x : Outside) (parse : Bytes → Option Parsed) (env : Env C) (tail : Bytes → ℕ)
    (lawful : (block : Bytes) (r : Reader) (response : Response)
      → env.read_http block r ≡ ok response
      → length response.next.slices ≤ length r.slices) where
  headers-Returns :
      (o : Options) (version : Bytes) (w : Writer) (target : Url) (targets : List Url)
      (r : Result ℕ (List RequestHeader × List Bytes))
      → Returns (with_headers x parse env tail o version w target targets r)
  headers-Returns o version w target targets (err code) = inr (code, refl)
  headers-Returns o version w target targets (ok (headers, names)) =
      transfer-Returns env _ lawful o target w targets

  checked-Returns :
      (o : Options) (version : Bytes) (w : Writer) (target : Url) (targets : List Url)
      (r : Option Bytes)
      → Returns (checked x parse env tail o version w target targets r)
  checked-Returns o version w target targets (some _) = inr (2, refl)
  checked-Returns o version w target targets none =
      headers-Returns o version w target targets (parse_request_headers o.headers)

  targets-Returns :
      (o : Options) (version : Bytes) (w : Writer) (r : Result TargetError (List Url))
      → (r ≢ err index_out_of_range)
      → (r ≢ ok [])
      → Returns (with_targets x parse env tail o version w r)
  targets-Returns o version w (err (exit code)) a b = inr (code, refl)
  targets-Returns o version w (err index_out_of_range) a b = absurd (a refl)
  targets-Returns o version w (ok []) a b = absurd (b refl)
  targets-Returns o version w (ok (target ∷ more)) a b =
      checked-Returns o version w target (target ∷ more) (check_transport_options o target.scheme)

  -- `execute` with one URL at least returns, without an error or with an exit code: it never reads the
  -- first of no targets, and never reads responses without end, when `http.ReadResponse` hands on a reader
  -- with no more slices than it was given.
  pub execute-Returns :
      (o : Options) (version : Bytes) (w : Writer)
      → o.urls ≢ []
      → Returns (execute x parse env tail o version w)
  unfolding execute
  execute-Returns o version w some_url =
      targets-Returns o version w (parse_targets x parse o)
        (λ h. elim (parse_targets-IsRefusal x parse o index_out_of_range some_url h) [
          | inl k ↦ cc k
          | inr (inl k) ↦ cc k
          | inr (inr k) ↦ cc k
        ])
        (λ h. ((parse_targets_iff x parse o []).0 h).origin)
