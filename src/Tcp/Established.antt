-- ===== src/Tcp/Established.antt =====
-- internal/curlu/tcpraw.go: when `handshakeJA4T` comes to a connection, and to which one.
use curlu.Base.{
  ℕ, true, false, ◌&&◌, Option, none, some, List, [], ◌∷◌, ◌++◌, ◌%◌, ◌==◌, ==_iff, ◌≡◌, ◌⊎◌, inl,
  inr, refl, ap, arith, Bytes, All, Bool-cases, Result, ok, err, ok_injective,
}
use mathlib.Core.Path.{subst}
use curlu.Fingerprint.{Fingerprint, FingerprintError, tcp_options, TcpOption}
use curlu.Tcp.Defs.{word, add32, ConnError, Segment, Moment, Conn, moment_now, moments_later}
use curlu.Tcp.Handshake.{
  Endpoints, Arrival, read_failed, unreadable, packet, match_reply, pump, Ending, wait_synack, bare,
  synack_conn, final_ack, acknowledged, answered, syn_sent, with_options, handshake,
}
use curlu.Tcp.Transfer.{Tracks}

-- An arrival that leaves the handshake waiting: no error of the socket, and no reset by the peer.
abbrev pub IsHarmless : Endpoints → Arrival → Type 0
IsHarmless conn (read_failed e) = ⊥
IsHarmless conn unreadable = Unit
IsHarmless conn (packet ip tcp) = (match_reply ip conn ≡ false) ⊎ (tcp.rst ≡ false)

-- The arrival of the segment that the handshake waits for.
pub record Meets (conn : Endpoints) (iss : ℕ) (arrivals : List Arrival) (synack : Segment)
    (segs : List Segment) : Type 0 where
  pub before : List Arrival
  pub ip : Endpoints
  pub behind : List Arrival
  pub whole : arrivals ≡ before ++ packet ip synack ∷ behind
  pub harmless : All (IsHarmless conn) before
  pub replies : match_reply ip conn ≡ true
  pub no_reset : synack.rst ≡ false
  pub syn : synack.syn ≡ true
  pub ack : synack.ack ≡ true
  pub acknowledges : synack.ack_number ≡ add32 iss 1
  pub rest : segs ≡ (pump conn behind).0

Meets-later :
    {conn : Endpoints} {iss : ℕ} {arrivals : List Arrival} {synack : Segment} {segs : List Segment}
    (a : Arrival)
    → IsHarmless conn a
    → Meets conn iss arrivals synack segs
    → Meets conn iss (a ∷ arrivals) synack segs
Meets-later a h m = record {
  before = a ∷ m.before;
  ip = m.ip;
  behind = m.behind;
  whole = ap (◌∷◌ a) m.whole;
  harmless = (h, m.harmless);
  replies = m.replies;
  no_reset = m.no_reset;
  syn = m.syn;
  ack = m.ack;
  acknowledges = m.acknowledges;
  rest = m.rest;
}

pump_queues :
    (conn ip : Endpoints) (tcp : Segment) (arrivals : List Arrival)
    → match_reply ip conn ≡ true
    → tcp.rst ≡ false
    → (pump conn (packet ip tcp ∷ arrivals)).0 ≡ tcp ∷ (pump conn arrivals).0
unfolding pump
pump_queues conn ip tcp arrivals e r = ground (arith, e, r)

pump_reset :
    (conn ip : Endpoints) (tcp : Segment) (arrivals : List Arrival)
    → match_reply ip conn ≡ true
    → tcp.rst ≡ true
    → (pump conn (packet ip tcp ∷ arrivals)).0 ≡ []
unfolding pump
pump_reset conn ip tcp arrivals e r = ground (arith, e, r)

module _ (conn : Endpoints) (iss : ℕ) (ending : Ending) where
  wait_synack-Meets :
      (arrivals : List Arrival) {synack : Segment} {segs : List Segment}
      → wait_synack iss ending (pump conn arrivals).0 ≡ ok (synack, segs)
      → Meets conn iss arrivals synack segs
  unfolding pump wait_synack
  wait_synack-Meets [] h = absurd (cc h)
  wait_synack-Meets (read_failed e ∷ arrivals) h = absurd (cc h)
  wait_synack-Meets (unreadable ∷ arrivals) h =
      Meets-later unreadable tt (wait_synack-Meets arrivals h)
  wait_synack-Meets (packet ip tcp ∷ arrivals) {synack} {segs} h =
      elim (Bool-cases (match_reply ip conn)) [
        | inr e ↦
            Meets-later (packet ip tcp) (inl e) (wait_synack-Meets arrivals (rw (e, pump) at h))
        | inl e ↦ elim (Bool-cases tcp.rst) [
          | inl r ↦ absurd (let h' = rw (pump_reset conn ip tcp arrivals e r) at h in cc h')
          | inr r ↦
              let h' = rw (pump_queues conn ip tcp arrivals e r) at h in
              elim (Bool-cases (tcp.syn && tcp.ack && tcp.ack_number == add32 iss 1)) [
                | inr t ↦
                    Meets-later (packet ip tcp) (inr r)
                      (wait_synack-Meets arrivals (rw (t, wait_synack) at h'))
                | inl t ↦
                    let got = ok_injective (rw (t, wait_synack) at h') in
                    subst
                      (λ (p : Segment × List Segment).
                        Meets conn iss (packet ip tcp ∷ arrivals) p.0 p.1)
                      got
                      (record {
                        before = [];
                        ip = ip;
                        behind = arrivals;
                        whole = refl;
                        harmless = tt;
                        replies = e;
                        no_reset = r;
                        syn = ground (arith, t);
                        ack = ground (arith, t);
                        acknowledges = (==_iff tcp.ack_number (add32 iss 1)).0 (ground (arith, t));
                        rest = refl;
                      })
              ]
        ]
      ]

-- A connection that the handshake has made, by the arrivals: the packets on the wire are the SYN with
-- the options of the fingerprint and the acknowledgement of the peer's SYN-ACK.
pub record Established (conn : Endpoints) (fp : Fingerprint) (iss : ℕ) (clock : ℕ)
    (arrivals : List Arrival) (c : Conn) (segs : List Segment) : Type 0 where
  pub synack : Segment
  pub options : List TcpOption
  pub meets : Meets conn iss arrivals synack segs
  pub fingerprint : tcp_options fp (clock % word) ≡ ok options
  pub made : Conn
  pub wire : c.wire ≡ bare iss 0 true false fp.window options ∷ final_ack made ∷ []
  pub acknowledges : made.rcv_nxt ≡ add32 synack.seq 1
  pub sends_behind : (made.snd_nxt ≡ add32 iss 1) × (c.snd_nxt ≡ made.snd_nxt)
  pub tracks : (stream : Bytes) → Tracks stream (add32 synack.seq 1) [] c

acknowledged-ok :
    (made : Conn) (segs : List Segment) (fault : Option ConnError) {r : Conn × List Segment}
    → acknowledged made segs fault ≡ ok r
    → (
      record made { wire = made.wire ++ final_ack made ∷ []; moments = moments_later made.moments },
      segs,
    )
      ≡ r
acknowledged-ok made segs none h = ok_injective h
acknowledged-ok made segs (some e) h = absurd (cc h)

module _ (conn : Endpoints) (fp : Fingerprint) (iss : ℕ) (ending : Ending) (arrivals : List Arrival)
    (clock : ℕ) (c : Conn) (segs : List Segment) where
  synack-Established :
      (options : List TcpOption) (moments : List Moment) (synack : Segment) (queue : List Segment)
      → tcp_options fp (clock % word) ≡ ok options
      → wait_synack iss ending (pump conn arrivals).0 ≡ ok (synack, queue)
      → (fault : Option ConnError)
      → acknowledged
          (synack_conn fp iss (bare iss 0 true false fp.window options) synack moments)
          queue
          fault
        ≡ ok (c, segs)
      → Established conn fp iss clock arrivals c segs
  unfolding synack_conn
  synack-Established options moments synack queue o w fault h =
      let syn = bare iss 0 true false fp.window options in
      let made = synack_conn fp iss syn synack moments in
      subst (λ (r : Conn × List Segment). Established conn fp iss clock arrivals r.0 r.1)
        (acknowledged-ok made queue fault h)
        (record {
          synack = synack;
          options = options;
          meets = wait_synack-Meets conn iss ending arrivals w;
          fingerprint = o;
          made = made;
          wire = refl;
          acknowledges = refl;
          sends_behind = (refl, refl);
          tracks = λ stream. record {
            count = 0;
            within = omega arith;
            received = refl;
            awaits = omega arith;
            ended = λ e. absurd (cc e);
          };
        })

  answered-Established :
      (options : List TcpOption) (moments : List Moment)
      → tcp_options fp (clock % word) ≡ ok options
      → (r : Result ConnError (Segment × List Segment))
      → wait_synack iss ending (pump conn arrivals).0 ≡ r
      → answered fp iss (bare iss 0 true false fp.window options) moments r ≡ ok (c, segs)
      → Established conn fp iss clock arrivals c segs
  answered-Established options moments o (err e) w h = absurd (cc h)
  answered-Established options moments o (ok (synack, queue)) w h =
      synack-Established options moments synack queue o w (moment_now moments).fault h

  sent-Established :
      (options : List TcpOption) (moments : List Moment)
      → tcp_options fp (clock % word) ≡ ok options
      → (fault : Option ConnError)
      → syn_sent fp iss options ending (pump conn arrivals).0 moments fault ≡ ok (c, segs)
      → Established conn fp iss clock arrivals c segs
  sent-Established options moments o (some e) h = absurd (cc h)
  sent-Established options moments o none h =
      answered-Established options moments o (wait_synack iss ending (pump conn arrivals).0) refl h

  options-Established :
      (moments : List Moment) (r : Result FingerprintError (List TcpOption))
      → tcp_options fp (clock % word) ≡ r
      → with_options fp iss ending (pump conn arrivals).0 moments r ≡ ok (c, segs)
      → Established conn fp iss clock arrivals c segs
  options-Established moments (err e) o h = absurd (cc h)
  options-Established moments (ok options) o h =
      sent-Established options (moments_later moments) o (moment_now moments).fault h

-- A handshake that comes to a connection, on whatever arrives, has met a SYN-ACK of the peer, of the
-- right addresses and ports, that acknowledges its SYN, and before it neither an error of the socket
-- nor a reset by the peer. It has sent the SYN with the options of the fingerprint and the
-- acknowledgement of the SYN-ACK; the connection sends behind its SYN, leaves to `recvLoop` what comes
-- behind the SYN-ACK, and is at the start of the peer's stream, behind the peer's SYN.
pub handshake-Established :
    (conn : Endpoints) (fp : Fingerprint) (iss : ℕ) (ending : Ending) (arrivals : List Arrival)
    (moments : List Moment) (c : Conn) (segs : List Segment)
    → handshake fp (some iss) ending (pump conn arrivals).0 moments ≡ ok (c, segs)
    → Established conn fp iss (moment_now moments).clock arrivals c segs
unfolding handshake
handshake-Established conn fp iss ending arrivals moments c segs h =
    let clock = (moment_now moments).clock in
    options-Established conn fp iss ending arrivals clock c segs moments
      (tcp_options fp (clock % word)) refl h
