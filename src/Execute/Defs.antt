-- ===== src/Execute/Defs.antt =====
-- internal/curlu/client.go: `execute`; http2.go: `roundTripHTTP2`; http3.go: `executeHTTP3`. The trace
-- and the closing of connections are left out.
use curlu.Base.{
  ℕ, suc, Bool, true, false, ◌&&◌, ◌||◌, Option, none, some, List, [], ◌∷◌, if◌then◌else◌, Bytes,
  codes, length, Result, ok, err, same,
}
use curlu.Fault.{Fault, is_timeout}
use curlu.Options.{Options, Outside}
use curlu.Request.{Url, RequestHeader, parse_request_headers, serialize_http1}
use curlu.Resolve.{check_transport_options}
use curlu.Response.{
  Reader, Writer, Response, Received, received, failed, out_of_fuel, read_response,
}
use curlu.Connect.{Parsed, TargetError, exit, index_out_of_range, parse_targets, http}
use curlu.Muxed.{
  MuxedRequest, MuxedResponse, Muxed, http2_send_error, http2_receive_error, http3_receive_error,
  run,
}

-- How `execute` ends: without an error, with an exit code, at the first of no targets, or not at all.
pub data Ending : Type 0 where
  done : Ending
  exits : ℕ → Ending
  panics : Ending
  endless : Ending

-- A connection of golang.org/x/net/http2 or quic-go: the answer to the request with a number.
abbrev pub RoundTrip : Type 0
RoundTrip = ℕ → MuxedRequest → Result Fault MuxedResponse

-- What `execute` meets: `connect` by the number of the connection, what arrives on a connection, the
-- error of writing the request with a number to it, `http.ReadResponse`, `transport.NewClientConn`, the
-- HTTP/3 connection, and `operationCtx.Err() != nil`, which is asked only where a run fails and so
-- ends.
pub record Env (C : Type 0) : Type 0 where
  pub connect_to : ℕ → Url → Result ℕ (C × Bytes)
  pub arriving : C → Reader
  pub send : ℕ → C → Bytes → Option Fault
  pub read_http : Bytes → Reader → Result Fault Response
  pub client_conn : C → Result Fault RoundTrip
  pub quic_conn : Url → Result ℕ RoundTrip
  pub expired : Bool

-- What all requests of a run share.
pub record Plan : Type 0 where
  pub tail : Bytes → ℕ
  pub headers : List RequestHeader
  pub names : List Bytes
  pub version : Bytes
  pub include : Bool

abbrev pub muxed_of : Plan → ℕ → RoundTrip → (Fault → Bool → ℕ) → Bool → Muxed
muxed_of p major round_trip receive_error expired = record {
  major = major;
  round_trip = round_trip;
  receive_error = receive_error;
  headers = p.headers;
  suppressed_names = p.names;
  include = p.include;
  version = p.version;
  expired = expired;
}

abbrev pub ended : Writer × Option ℕ → Writer × Ending
ended (w, none) = (w, done)
ended (w, some code) = (w, exits code)

module _ {C : Type 0} (env : Env C) (p : Plan) where
  unfoldable pub round_trip_http2 : C → Writer → List Url → Writer × Ending
  round_trip_http2 conn w targets = elim (env.client_conn conn) [
    | err e ↦ (w, exits (http2_send_error e env.expired))
    | ok trip ↦ ended (run p.tail (muxed_of p 2 trip http2_receive_error env.expired) 0 w targets)
  ]

  unfoldable pub execute_http3 : Url → Writer → List Url → Writer × Ending
  execute_http3 target w targets = elim (env.quic_conn target) [
    | err code ↦ (w, exits code)
    | ok trip ↦ ended (run p.tail (muxed_of p 3 trip http3_receive_error env.expired) 0 w targets)
  ]

  -- `readResponse` reads a header block each round, and so has rounds enough.
  abbrev pub response_from : Reader → Writer → Received
  response_from reader w =
      read_response (suc (length reader.slices)) env.read_http p.include env.expired w reader

  abbrev pub responded :
      Writer → Received → (Reader → Bool → Writer → Writer × Ending) → Writer × Ending
  responded w0 (failed code w) onward = (w, exits code)
  responded w0 out_of_fuel onward = (w0, endless)
  responded w0 (received next reuse w) onward = onward next reuse w

  abbrev pub sent : Option Fault → Writer → Writer × Ending → Writer × Ending
  sent none w onward = onward
  sent (some e) w onward = (w, exits (if is_timeout e || env.expired then 28 else 55))

  -- The connection for the next request, what still arrives on it, and the number of the one behind.
  abbrev pub connected : ℕ → Result ℕ (C × Bytes) → Result ℕ (C × Reader × ℕ)
  connected n (err code) = err code
  connected n (ok (conn, _)) = ok (conn, env.arriving conn, suc n)

  abbrev pub chosen : ℕ → C → Reader → Bool → Url → Result ℕ (C × Reader × ℕ)
  chosen n conn reader true target = ok (conn, reader, n)
  chosen n conn reader false target = connected n (env.connect_to n target)

  abbrev pub exchanged :
      ℕ
      → Writer
      → Url
      → Result ℕ (C × Reader × ℕ)
      → (ℕ → C → Reader → Bool → Writer → Writer × Ending)
      → Writer × Ending
  exchanged i w target (err code) onward = (w, exits code)
  exchanged i w target (ok (conn, reader, n)) onward =
      sent (env.send i conn (serialize_http1 p.tail target p.headers p.names p.version)) w
        (responded w (response_from reader w) (λ next reuse w'. onward n conn next reuse w'))

  -- The loop over the targets, at the request `i`; `n` connections were made. The first request finds
  -- its connection as one that may be used.
  unfoldable pub http1_each : ℕ → ℕ → C → Reader → Bool → Writer → List Url → Writer × Ending
  http1_each i n conn reader reuse w [] = (w, done)
  http1_each i n conn reader reuse w (target ∷ targets) =
      exchanged i w target (chosen n conn reader reuse target)
        (λ n' conn' next reuse' w'. http1_each (suc i) n' conn' next reuse' w' targets)

  abbrev pub over_protocol : Options → Url → Writer → List Url → C → Bytes → Writer × Ending
  over_protocol o target w targets conn proto =
      if same proto (codes "h2") || o.http2_prior_knowledge && same target.scheme http
      then round_trip_http2 conn w targets
      else http1_each 0 1 conn (env.arriving conn) true w targets

  abbrev pub over_connection :
      Options → Url → Writer → List Url → Result ℕ (C × Bytes) → Writer × Ending
  over_connection o target w targets (err code) = (w, exits code)
  over_connection o target w targets (ok (conn, proto)) =
      over_protocol o target w targets conn proto

  unfoldable pub transfer : Options → Url → Writer → List Url → Writer × Ending
  transfer o target w targets =
      if o.http3
      then execute_http3 target w targets
      else over_connection o target w targets (env.connect_to 0 target)

module _ {C : Type 0} (x : Outside) (parse : Bytes → Option Parsed) (env : Env C)
    (tail : Bytes → ℕ) where
  abbrev pub with_headers :
      Options
      → Bytes
      → Writer
      → Url
      → List Url
      → Result ℕ (List RequestHeader × List Bytes)
      → Writer × Ending
  with_headers o version w target targets (err code) = (w, exits code)
  with_headers o version w target targets (ok (headers, names)) =
      transfer env
        (record {
          tail = tail;
          headers = headers;
          names = names;
          version = version;
          include = o.include;
        })
        o target w targets

  abbrev pub checked : Options → Bytes → Writer → Url → List Url → Option Bytes → Writer × Ending
  checked o version w target targets (some _) = (w, exits 2)
  checked o version w target targets none =
      with_headers o version w target targets (parse_request_headers o.headers)

  abbrev pub with_targets :
      Options → Bytes → Writer → Result TargetError (List Url) → Writer × Ending
  with_targets o version w (err (exit code)) = (w, exits code)
  with_targets o version w (err index_out_of_range) = (w, panics)
  with_targets o version w (ok []) = (w, panics)
  with_targets o version w (ok (target ∷ targets)) =
      checked o version w target (target ∷ targets) (check_transport_options o target.scheme)

  unfoldable pub execute : Options → Bytes → Writer → Writer × Ending
  execute o version w = with_targets o version w (parse_targets x parse o)
