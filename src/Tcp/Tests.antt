-- ===== src/Tcp/Tests.antt =====
-- Runs of a connection, and the theorems there.
use curlu.Number.{parse_uint}
use curlu.Text.{fields, split}
use curlu.Tcp.Route.{parse_proc_net_route_gateway}
use curlu.Tcp.Defs.{
  data_options, word, add32, connection_reset, Segment, Conn, write, recv_loop, handle_segment,
  deadline_err, segment_size, close, read, read_woken, deadline_exceeded, returns, waits, eof,
}
use curlu.Fingerprint.{timestamp_echo, has_kind, synack_mss, tcp_options, Fingerprint}
use curlu.Tcp.Handshake.{
  synack_conn, match_reply, wait_synack, Endpoints, Arrival, unreadable, channel_closed, pump, bare,
  handshake,
}
use curlu.Base.{
  same, ok, codes, ℕ, Bool, true, false, none, some, List, [], ◌∷◌, ◌++◌, ◌≡◌, refl, arith, Bytes,
  take,
}
use curlu.Tcp.Established.{Established, handshake-Established}
use curlu.Tcp.Write.{Written, write-Written}
use curlu.Tcp.Transfer.{IsGenuine, Tracks}
use curlu.Tcp.Delivery.{write-recv_loop}
use curlu.Tcp.Events.{Event, arrives, reads, wakes, writes, closes, run, run-Tracks}

-- An open connection at the edge of the sequence numbers, with a segment size of two.
abbrev fresh : Conn
fresh = record {
  window = 64240;
  peer_mss = 2;
  use_ts = true;
  snd_nxt = 4294967295;
  rcv_nxt = 7;
  ts_echo = 0;
  ip_id = 65535;
  read_buf = [];
  read_deadline = none;
  write_deadline = some 10;
  closed = false;
  got_fin = false;
  error = none;
  wire = [];
  moments =
      record { clock = 5; fault = none } ∷ record { clock = 5; fault = some connection_reset } ∷ [];
}

abbrev peer : Conn
peer = record fresh { snd_nxt = 7; rcv_nxt = 4294967295; write_deadline = none }

fresh-write :
    ((write fresh (1 ∷ 2 ∷ 3 ∷ []) 9).0.snd_nxt ≡ 1)
    × ((write fresh (1 ∷ 2 ∷ 3 ∷ []) 9).1 ≡ 2)
    × ((write fresh (1 ∷ 2 ∷ 3 ∷ []) 9).2 ≡ some connection_reset)
    × ((recv_loop peer (write fresh (1 ∷ 2 ∷ 3 ∷ []) 9).0.wire).read_buf ≡ 1 ∷ 2 ∷ [])
unfolding write recv_loop handle_segment curlu.Tcp.Defs.send_locked curlu.Tcp.Defs.note_echo
    curlu.Fingerprint.timestamp_echo curlu.Tcp.Defs.data_options curlu.Tcp.Defs.take_fin
    curlu.Tcp.Defs.take_payload curlu.Tcp.Defs.send_ack
fresh-write = (refl, refl, refl, refl)

write-Written_example :
    Written 2 fresh
      (1 ∷ 2 ∷ 3 ∷ [])
      (write fresh (1 ∷ 2 ∷ 3 ∷ []) 9).0
      (write fresh (1 ∷ 2 ∷ 3 ∷ []) 9).1
      (write fresh (1 ∷ 2 ∷ 3 ∷ []) 9).2
unfolding deadline_err
write-Written_example = write-Written fresh (1 ∷ 2 ∷ 3 ∷ []) 9 (omega arith) refl refl refl

write-recv_loop_example :
    (packets : List Segment) × ((write fresh (1 ∷ 2 ∷ 3 ∷ []) 9).0.wire ≡ [] ++ packets)
    × ((recv_loop peer packets).read_buf
        ≡ [] ++ take (write fresh (1 ∷ 2 ∷ 3 ∷ []) 9).1 (1 ∷ 2 ∷ 3 ∷ []))
    × ((recv_loop peer packets).rcv_nxt ≡ (write fresh (1 ∷ 2 ∷ 3 ∷ []) 9).0.snd_nxt)
unfolding deadline_err
write-recv_loop_example =
    write-recv_loop fresh peer (1 ∷ 2 ∷ 3 ∷ []) 9 (omega arith) refl refl refl refl refl

abbrev packet : ℕ → Bytes → Bool → Segment
packet n p last = record {
  seq = n;
  ack_number = 0;
  syn = false;
  ack = true;
  psh = false;
  fin = last;
  rst = false;
  window = 100;
  id = 0;
  options = [];
  payload = p;
}

-- The second packet comes first and is repeated.
abbrev events : List Event
events =
    arrives (packet 9 (30 ∷ []) true)
    ∷ arrives (packet 7 (10 ∷ 20 ∷ []) false)
    ∷ writes (1 ∷ []) 3
    ∷ arrives (packet 9 (30 ∷ []) true)
    ∷ wakes (some 4) 2 3 3
    ∷ wakes (some 3) 2 3 3
    ∷ reads 2 3
    ∷ arrives (packet 9 (30 ∷ []) true)
    ∷ closes
    ∷ []

abbrev stream : Bytes
stream = 10 ∷ 20 ∷ 30 ∷ []

tail-IsGenuine : IsGenuine stream 7 (packet 9 (30 ∷ []) true)
tail-IsGenuine = record {
  offset = 2;
  within = omega arith;
  seq = refl;
  payload = refl;
  fin_last = λ _. refl;
}

head-IsGenuine : IsGenuine stream 7 (packet 7 (10 ∷ 20 ∷ []) false)
head-IsGenuine = record {
  offset = 0;
  within = omega arith;
  seq = refl;
  payload = refl;
  fin_last = λ e. absurd (cc e);
}

fresh-Tracks : Tracks stream 7 [] fresh
fresh-Tracks = record {
  count = 0;
  within = omega arith;
  received = refl;
  awaits = refl;
  ended = λ e. absurd (cc e);
}

run-Tracks_example : Tracks stream 7 (run ([], fresh) events).0 (run ([], fresh) events).1
run-Tracks_example = run-Tracks stream 7 (omega arith) [] fresh events fresh-Tracks (
  tail-IsGenuine,
  (head-IsGenuine, (tt, (tail-IsGenuine, (tt, (tt, (tt, (tail-IsGenuine, (tt, tt)))))))),
)

-- A packet of another host and a plain acknowledgement arrive before the SYN-ACK.
abbrev ours : Endpoints
ours = record { src_ip = codes "1"; dst_ip = codes "2"; src_port = 5; dst_port = 80 }

abbrev theirs : Endpoints
theirs = record { src_ip = codes "2"; dst_ip = codes "1"; src_port = 80; dst_port = 5 }

abbrev synack : Segment
synack = record (bare 100 1000 true true 500 []) { id = 3 }

abbrev arrivals : List Arrival
arrivals =
    Arrival.packet ours synack
    ∷ unreadable
    ∷ Arrival.packet theirs (bare 100 1000 false true 500 [])
    ∷ Arrival.packet theirs synack
    ∷ []

abbrev fingerprint : Fingerprint
fingerprint = record { window = 64240; kinds = 2 ∷ []; mss = 1460; scale = 0 }

abbrev established : Conn
established = record {
  window = 64240;
  peer_mss = 1460;
  use_ts = false;
  snd_nxt = 1000;
  rcv_nxt = 101;
  ts_echo = 0;
  ip_id = 0;
  read_buf = [];
  read_deadline = none;
  write_deadline = none;
  closed = false;
  got_fin = false;
  error = none;
  wire =
      bare 999 0 true false 64240 (record { option_type = 2; option_data = 5 ∷ 180 ∷ [] } ∷ [])
      ∷ bare 1000 101 false true 64240 []
      ∷ [];
  moments = [];
}

shakes_hands :
    handshake fingerprint (some 999) (channel_closed none) (pump ours arrivals).0 []
    ≡ ok (established, [])
unfolding handshake tcp_options wait_synack pump match_reply same synack_conn synack_mss has_kind
    timestamp_echo data_options
shakes_hands = refl

handshake-Established_example : Established ours fingerprint 999 0 arrivals established []
handshake-Established_example =
    handshake-Established ours fingerprint 999 (channel_closed none) arrivals [] established []
      shakes_hands

-- The heading, a route to a network and the default route of /proc/net/route.
abbrev routes : Bytes
routes =
    codes "Iface Destination Gateway"
    ++ (10 ∷ [])
    ++ codes "eth0 0001A8C0 00000000"
    ++ (10 ∷ [])
    ++ codes "eth0 00000000 0101A8C0"

gateway_found : parse_proc_net_route_gateway routes ≡ ok (192 ∷ 168 ∷ 1 ∷ 1 ∷ [])
unfolding parse_proc_net_route_gateway split fields same parse_uint
gateway_found = refl

-- Data that arrives while a read waits is not returned once the deadline of the wait is over.
late_read :
    read_woken (record peer { read_buf = 1 ∷ [] }) (some 3) 4 3 3
    ≡ returns (record peer { read_buf = 1 ∷ [] }) [] (some deadline_exceeded)
unfolding read_woken deadline_err
late_read = refl

woken_read :
    read_woken (record peer { read_buf = 1 ∷ [] }) (some 3) 4 2 2 ≡ returns peer (1 ∷ []) none
unfolding read_woken deadline_err read
woken_read = refl
