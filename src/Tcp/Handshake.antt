-- ===== src/Tcp/Handshake.antt =====
-- internal/curlu/tcpraw.go: `handshakeJA4T` with `pump`, `matchReply` and `waitSYNACK`. The addresses
-- of the socket's packets are checked here, behind it a segment stands alone.
use curlu.Base.{
  ℕ, Bool, true, false, not, ◌&&◌, Option, none, some, List, [], ◌∷◌, ◌++◌, ◌%◌, ◌==◌,
  if◌then◌else◌, Bytes, Result, ok, err, same,
}
use curlu.Fingerprint.{
  Fingerprint, FingerprintError, TcpOption, tcp_options, has_kind, synack_mss, timestamp_echo,
}
use curlu.Tcp.Defs.{
  word, add32, ConnError, net_closed, connection_reset, Segment, Moment, Conn, data_options,
  moment_now, moments_later,
}

pub record Endpoints : Type 0 where
  pub src_ip : Bytes
  pub dst_ip : Bytes
  pub src_port : ℕ
  pub dst_port : ℕ

-- What `io.Read` returns: an error, bytes that are no IPv4 packet with TCP, or such a packet.
pub data Arrival : Type 0 where
  read_failed : ConnError → Arrival
  unreadable : Arrival
  packet : Endpoints → Segment → Arrival

-- `matchReply`: the packet's addresses are the connection's, the other way round.
unfoldable pub match_reply : Endpoints → Endpoints → Bool
match_reply ip conn =
    same ip.src_ip conn.dst_ip
    && same ip.dst_ip conn.src_ip
    && ip.src_port == conn.dst_port
    && ip.dst_port == conn.src_port

-- What `pump` puts into the channel, and the error with which it closes the channel, if there is one:
-- without it the context was done.
abbrev pub queued : Segment → List Segment × Option ConnError → List Segment × Option ConnError
queued seg (segs, e) = (seg ∷ segs, e)

unfoldable pub pump : Endpoints → List Arrival → List Segment × Option ConnError
pump conn [] = ([], none)
pump conn (read_failed e ∷ later) = ([], some e)
pump conn (unreadable ∷ later) = pump conn later
pump conn (packet ip tcp ∷ later) =
    let rest = pump conn later in
    if not (match_reply ip conn)
    then rest
    else if tcp.rst
    then ([], some connection_reset)
    else queued tcp rest

-- Why `waitSYNACK` gets no further segment: the channel is closed, with the connection's error, or
-- the context is done, with its error.
pub data Ending : Type 0 where
  channel_closed : Option ConnError → Ending
  context_done : ConnError → Ending

abbrev pub ending_error : Ending → ConnError
ending_error (channel_closed none) = net_closed
ending_error (channel_closed (some e)) = e
ending_error (context_done e) = e

-- The SYN-ACK and the segments behind it in the channel.
unfoldable pub wait_synack : ℕ → Ending → List Segment → Result ConnError (Segment × List Segment)
wait_synack iss ending [] = err (ending_error ending)
wait_synack iss ending (tcp ∷ segs) =
    let onward = wait_synack iss ending segs in
    if tcp.syn && tcp.ack && tcp.ack_number == add32 iss 1 then ok (tcp, segs) else onward

pub data HandshakeError : Type 0 where
  no_random : HandshakeError
  bad_options : FingerprintError → HandshakeError
  broken : ConnError → HandshakeError

-- A header without data, as `serializeSegment` is asked for it, with the identification 1.
abbrev pub bare : ℕ → ℕ → Bool → Bool → ℕ → List TcpOption → Segment
bare seq ack_number syn ack window options = record {
  seq = seq;
  ack_number = ack_number;
  syn = syn;
  ack = ack;
  psh = false;
  fin = false;
  rst = false;
  window = window;
  id = 1;
  options = options;
  payload = [];
}

-- The connection behind the SYN-ACK, with the SYN on the wire, before its acknowledgement is sent.
unfoldable pub synack_conn : Fingerprint → ℕ → Segment → Segment → List Moment → Conn
synack_conn fp iss syn synack moments = record {
  window = fp.window;
  peer_mss = synack_mss synack.options;
  use_ts = has_kind fp.kinds 8;
  snd_nxt = add32 iss 1;
  rcv_nxt = add32 synack.seq 1;
  ts_echo = timestamp_echo synack.options;
  ip_id = 0;
  read_buf = [];
  read_deadline = none;
  write_deadline = none;
  closed = false;
  got_fin = false;
  error = none;
  wire = syn ∷ [];
  moments = moments;
}

-- The acknowledgement of the SYN-ACK.
abbrev pub final_ack : Conn → Segment
final_ack c =
    bare c.snd_nxt c.rcv_nxt false true c.window
      (data_options c.use_ts (moment_now c.moments).clock c.ts_echo)

abbrev pub acknowledged :
    Conn → List Segment → Option ConnError → Result HandshakeError (Conn × List Segment)
acknowledged c segs (some e) = err (broken e)
acknowledged c segs none =
    ok (record c { wire = c.wire ++ final_ack c ∷ []; moments = moments_later c.moments }, segs)

abbrev pub answered :
    Fingerprint
    → ℕ
    → Segment
    → List Moment
    → Result ConnError (Segment × List Segment)
    → Result HandshakeError (Conn × List Segment)
answered fp iss syn moments (err e) = err (broken e)
answered fp iss syn moments (ok (synack, segs)) =
    acknowledged (synack_conn fp iss syn synack moments) segs (moment_now moments).fault

-- The SYN is written in the first of the moments, and its acknowledgement's in the next one.
abbrev pub syn_sent :
    Fingerprint
    → ℕ
    → List TcpOption
    → Ending
    → List Segment
    → List Moment
    → Option ConnError
    → Result HandshakeError (Conn × List Segment)
syn_sent fp iss options ending channel moments (some e) = err (broken e)
syn_sent fp iss options ending channel moments none =
    answered fp iss (bare iss 0 true false fp.window options) moments
      (wait_synack iss ending channel)

abbrev pub with_options :
    Fingerprint
    → ℕ
    → Ending
    → List Segment
    → List Moment
    → Result FingerprintError (List TcpOption)
    → Result HandshakeError (Conn × List Segment)
with_options fp iss ending channel moments (err e) = err (bad_options e)
with_options fp iss ending channel moments (ok options) =
    syn_sent fp iss options ending channel (moments_later moments) (moment_now moments).fault

-- `handshakeJA4T`: `iss` is what `randomSeq` returns, `channel` what `pump` has queued until the
-- handshake ends. The connection comes with the segments that `recvLoop` finds in the channel.
unfoldable pub handshake :
    Fingerprint
    → Option ℕ
    → Ending
    → List Segment
    → List Moment
    → Result HandshakeError (Conn × List Segment)
handshake fp none ending channel moments = err no_random
handshake fp (some iss) ending channel moments =
    with_options fp iss ending channel moments (tcp_options fp ((moment_now moments).clock % word))
