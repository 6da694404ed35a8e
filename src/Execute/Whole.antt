-- ===== src/Execute/Whole.antt =====
-- internal/curlu/client.go: `execute`, from the options to the output.
use curlu.Base.{
  ℕ, true, false, ◌&&◌, ◌||◌, Option, none, some, List, [], ◌∷◌, ◌++◌, ◌≡◌, refl, sym, ap, ◌∙◌,
  if-by, Bytes, codes, Result, ok, err, Result-cases, same, inl, inr,
}
use curlu.Options.{Options, Outside}
use curlu.Request.{Url, RequestHeader, parse_request_headers}
use curlu.Resolve.{check_transport_options}
use curlu.Response.{Writer}
use curlu.Connect.{Parsed, TargetError, exit, index_out_of_range, parse_targets, http}
use curlu.Connect.Targets.{Accepts, parse_targets_iff}
use curlu.Muxed.{Muxed, http2_receive_error, http3_receive_error, run}
use curlu.Muxed.Output.{Answers, run-Answers}
use curlu.Execute.Defs.{
  Ending, done, Env, RoundTrip, Plan, muxed_of, ended, round_trip_http2, execute_http3,
  over_protocol, over_connection, transfer, with_headers, checked, with_targets, execute,
}
use curlu.Execute.Exchange.{Exchanges, http1_each-Exchanges}

module _ {C : Type 0} (env : Env C) (p : Plan) where
  -- How the requests were carried: what is put out for them together.
  pub data Carried (o : Options) (target : Url) (targets : List Url) (text : Bytes) : Type 0 where
    by_http3 :
        (trip : RoundTrip)
        → o.http3 ≡ true
        → env.quic_conn target ≡ ok trip
        → Answers p.tail (muxed_of p 3 trip http3_receive_error env.expired) 0 targets text
        → Carried o target targets text
    by_http2 :
        (conn : C) (proto : Bytes) (trip : RoundTrip)
        → o.http3 ≡ false
        → env.connect_to 0 target ≡ ok (conn, proto)
        → env.client_conn conn ≡ ok trip
        → Answers p.tail (muxed_of p 2 trip http2_receive_error env.expired) 0 targets text
        → Carried o target targets text
    by_http1 :
        (conn : C) (proto : Bytes)
        → o.http3 ≡ false
        → env.connect_to 0 target ≡ ok (conn, proto)
        → Exchanges env p 0 1 conn (env.arriving conn) true targets text
        → Carried o target targets text

  abbrev pub PutOut : Options → Url → List Url → Writer → Writer → Type 0
  PutOut o target targets w w' =
      (text : Bytes) × Carried o target targets text × (w'.out ≡ w.out ++ text)

  ended-done :
      (m : Muxed) (w : Writer) (targets : List Url) {w' : Writer}
      → ended (run p.tail m 0 w targets) ≡ (w', done)
      → (text : Bytes) × Answers p.tail m 0 targets text × (w'.out ≡ w.out ++ text)
  ended-done m w targets h = by_end (run p.tail m 0 w targets) refl h
    where
      by_end :
          (r : Writer × Option ℕ) {w' : Writer}
          → run p.tail m 0 w targets ≡ r
          → ended r ≡ (w', done)
          → (text : Bytes) × Answers p.tail m 0 targets text × (w'.out ≡ w.out ++ text)
      by_end (v, some code) e k = absurd (cc k)
      by_end (v, none) e k =
          let (text, answers, out) = run-Answers p.tail m 0 w targets (ap (λ r. r.1) e) in
          (text, answers, sym (ap (λ r. r.0.out) k) ∙ sym (ap (λ r. r.0.out) e) ∙ out)

  http3-PutOut :
      (o : Options) (target : Url) (w : Writer) (targets : List Url) {w' : Writer}
      → o.http3 ≡ true
      → execute_http3 env p target w targets ≡ (w', done)
      → PutOut o target targets w w'
  unfolding execute_http3
  http3-PutOut o target w targets q h = elim (Result-cases (env.quic_conn target)) [
    | inr (code, e) ↦ absurd (let h' = rw (e, execute_http3) at h in cc h')
    | inl (trip, e) ↦
        let (text, answers, out) =
          ended-done (muxed_of p 3 trip http3_receive_error env.expired) w targets
            (rw (e, execute_http3) at h) in
        (text, by_http3 trip q e answers, out)
  ]

  connection-PutOut :
      (o : Options) (target : Url) (w : Writer) (targets : List Url) (conn : C) (proto : Bytes)
      {w' : Writer}
      → o.http3 ≡ false
      → env.connect_to 0 target ≡ ok (conn, proto)
      → over_protocol env p o target w targets conn proto ≡ (w', done)
      → PutOut o target targets w w'
  unfolding round_trip_http2
  connection-PutOut o target w targets conn proto {w'} q c h =
      if-by (λ (r : Writer × Ending). r ≡ (w', done) → PutOut o target targets w w')
        (same proto (codes "h2") || o.http2_prior_knowledge && same target.scheme http)
        (λ _ k. elim (Result-cases (env.client_conn conn)) [
          | inr (code, e) ↦ absurd (let k' = rw (e, round_trip_http2) at k in cc k')
          | inl (trip, e) ↦
              let (text, answers, out) =
                ended-done (muxed_of p 2 trip http2_receive_error env.expired) w targets
                  (rw (e, round_trip_http2) at k) in
              (text, by_http2 conn proto trip q c e answers, out)
        ])
        (λ _ k.
          let (text, exchanges, out) =
            http1_each-Exchanges env p 0 1 conn (env.arriving conn) true w targets k in
          (text, by_http1 conn proto q c exchanges, out))
        h

  transfer-PutOut :
      (o : Options) (target : Url) (w : Writer) (targets : List Url) {w' : Writer}
      → transfer env p o target w targets ≡ (w', done)
      → PutOut o target targets w w'
  unfolding transfer
  transfer-PutOut o target w targets {w'} h =
      if-by (λ (r : Writer × Ending). r ≡ (w', done) → PutOut o target targets w w') o.http3
        (λ q k. http3-PutOut o target w targets q k)
        (λ q k. connected q (env.connect_to 0 target) refl k) h
    where
      connected :
          o.http3 ≡ false
          → (r : Result ℕ (C × Bytes)) → env.connect_to 0 target ≡ r
          → over_connection env p o target w targets r ≡ (w', done)
          → PutOut o target targets w w'
      connected q (err code) c k = absurd (cc k)
      connected q (ok (conn, proto)) c k = connection-PutOut o target w targets conn proto q c k

module _ {C : Type 0} (x : Outside) (parse : Bytes → Option Parsed) (env : Env C)
    (tail : Bytes → ℕ) where
  abbrev pub plan : Options → Bytes → List RequestHeader → List Bytes → Plan
  plan o version headers names = record {
    tail = tail;
    headers = headers;
    names = names;
    version = version;
    include = o.include;
  }

  -- A transfer that went through, from the options to the output.
  pub record Executed (o : Options) (version : Bytes) (w w' : Writer) : Type 0 where
    pub target : Url
    pub more : List Url
    pub accepts : Accepts x parse o (target ∷ more)
    pub compatible : check_transport_options o target.scheme ≡ none
    pub headers : List RequestHeader
    pub names : List Bytes
    pub header_values : parse_request_headers o.headers ≡ ok (headers, names)
    pub put_out : PutOut env (plan o version headers names) o target (target ∷ more) w w'

  headers-Executed :
      (o : Options) (version : Bytes) (w : Writer) (target : Url) (more : List Url) {w' : Writer}
      → Accepts x parse o (target ∷ more)
      → check_transport_options o target.scheme ≡ none
      → (r : Result ℕ (List RequestHeader × List Bytes)) → parse_request_headers o.headers ≡ r
      → with_headers x parse env tail o version w target (target ∷ more) r ≡ (w', done)
      → Executed o version w w'
  headers-Executed o version w target more a c (err code) e h = absurd (cc h)
  headers-Executed o version w target more a c (ok (headers, names)) e h = record {
    target = target;
    more = more;
    accepts = a;
    compatible = c;
    headers = headers;
    names = names;
    header_values = e;
    put_out = transfer-PutOut env (plan o version headers names) o target w (target ∷ more) h;
  }

  checked-Executed :
      (o : Options) (version : Bytes) (w : Writer) (target : Url) (more : List Url) {w' : Writer}
      → Accepts x parse o (target ∷ more)
      → (r : Option Bytes) → check_transport_options o target.scheme ≡ r
      → checked x parse env tail o version w target (target ∷ more) r ≡ (w', done)
      → Executed o version w w'
  checked-Executed o version w target more a (some _) c h = absurd (cc h)
  checked-Executed o version w target more a none c h =
      headers-Executed o version w target more a c (parse_request_headers o.headers) refl h

  targets-Executed :
      (o : Options) (version : Bytes) (w : Writer) (r : Result TargetError (List Url)) {w' : Writer}
      → parse_targets x parse o ≡ r
      → with_targets x parse env tail o version w r ≡ (w', done)
      → Executed o version w w'
  targets-Executed o version w (err (exit code)) e h = absurd (cc h)
  targets-Executed o version w (err index_out_of_range) e h = absurd (cc h)
  targets-Executed o version w (ok []) e h = absurd (cc h)
  targets-Executed o version w (ok (target ∷ more)) e h =
      checked-Executed o version w target more ((parse_targets_iff x parse o (target ∷ more)).0 e)
        (check_transport_options o target.scheme) refl h

  -- `execute` that ends without an error has accepted the URLs, which are of one origin, the options
  -- for their scheme and the headers; it has carried one request for each URL, in order, over HTTP/3, over
  -- HTTP/2 or over HTTP/1.1 with the connections that stay open used again, and the output has got
  -- exactly what belongs to the responses, in order.
  pub execute-Executed :
      (o : Options) (version : Bytes) (w : Writer) {w' : Writer}
      → execute x parse env tail o version w ≡ (w', done)
      → Executed o version w w'
  unfolding execute
  execute-Executed o version w h = targets-Executed o version w (parse_targets x parse o) refl h
