-- ===== src/Tcp/Defs.antt =====
-- internal/curlu/tcpraw.go: `ja4tConn` and its methods, each under the lock and so one step.
-- A packet is the header that `serializeSegment` asks for, with the payload; its bytes are made by
-- gopacket. Time and the packet socket are outside: a state carries the moments to come, one for
-- each call of `sendLocked`, with the clock's reading and the error of that call, if there is one.
-- When the list is used up, every further send works and the clock reads 0.
use curlu.Base.{
  ℕ, zero, suc, Bool, true, false, not, ◌&&◌, Option, none, some, List, [], ◌∷◌, ◌++◌, ◌+◌, ◌%◌,
  ◌^◌, ltb, ◌==◌, if◌then◌else◌, Bytes, length, take, drop,
}
use curlu.Fingerprint.{TcpOption, put_uint32, timestamp_echo}

-- `uint32` addition.
abbrev pub word : ℕ
word = 2 ^ 32

abbrev pub add32 : ℕ → ℕ → ℕ
add32 a b = (a + b) % word

pub data ConnError : Type 0 where
  net_closed deadline_exceeded connection_reset eof : ConnError
  io_error : ℕ → ConnError

-- `layers.TCP`, as far as the source reads or writes it, with the payload.
pub record Segment : Type 0 where
  pub seq : ℕ
  pub ack_number : ℕ
  pub syn : Bool
  pub ack : Bool
  pub psh : Bool
  pub fin : Bool
  pub rst : Bool
  pub window : ℕ
  pub id : ℕ
  pub options : List TcpOption
  pub payload : Bytes

pub record Moment : Type 0 where
  pub clock : ℕ
  pub fault : Option ConnError

-- `ja4tConn`, without its addresses; `wire` is what `io.Write` was given, the first packet first.
-- A deadline is `none` where the source's is the zero time.
pub record Conn : Type 0 where
  pub window : ℕ
  pub peer_mss : ℕ
  pub use_ts : Bool
  pub snd_nxt : ℕ
  pub rcv_nxt : ℕ
  pub ts_echo : ℕ
  pub ip_id : ℕ
  pub read_buf : Bytes
  pub read_deadline : Option ℕ
  pub write_deadline : Option ℕ
  pub closed : Bool
  pub got_fin : Bool
  pub error : Option ConnError
  pub wire : List Segment
  pub moments : List Moment

unfoldable pub data_options : Bool → ℕ → ℕ → List TcpOption
unfolding put_uint32
data_options false clock echo = []
data_options true clock echo =
    record { option_type = 1; option_data = [] }
    ∷ record { option_type = 1; option_data = [] }
    ∷ record { option_type = 8; option_data = put_uint32 (clock % word) ++ put_uint32 echo }
    ∷ []

abbrev pub moment_now : List Moment → Moment
moment_now [] = record { clock = 0; fault = none }
moment_now (m ∷ _) = m

abbrev pub moments_later : List Moment → List Moment
moments_later [] = []
moments_later (_ ∷ ms) = ms

-- The header that `sendLocked` has serialised.
unfoldable pub outgoing : Conn → ℕ → Bool → Bool → Bool → Bool → Bytes → Segment
outgoing c id syn ack psh fin payload = record {
  seq = c.snd_nxt;
  ack_number = c.rcv_nxt;
  syn = syn;
  ack = ack;
  psh = psh;
  fin = fin;
  rst = false;
  window = c.window;
  id = id;
  options = data_options c.use_ts (moment_now c.moments).clock c.ts_echo;
  payload = payload;
}

-- The result of `io.Write`, or of a serialisation that failed before it.
abbrev written : Conn → Segment → Option ConnError → Conn × Option ConnError
written c seg none = (record c { wire = c.wire ++ seg ∷ [] }, none)
written c seg (some e) = (c, some e)

unfoldable pub send_locked : Conn → Bool → Bool → Bool → Bool → Bytes → Conn × Option ConnError
unfolding outgoing
send_locked c syn ack psh fin payload =
    let id = (c.ip_id + 1) % 2 ^ 16 in
    let seg = outgoing c id syn ack psh fin payload in
    written (record c { ip_id = id; moments = moments_later c.moments }) seg
      (moment_now c.moments).fault

-- `_ = c.sendLocked(false, true, false, false, nil)`.
unfoldable pub send_ack : Conn → Conn
unfolding send_locked
send_ack c = (send_locked c false true false false []).0

-- The three parts of `handleSegment` behind its test of `closed`.
unfoldable pub note_echo : Conn → ℕ → Conn
note_echo c echo = if echo == 0 then c else record c { ts_echo = echo }

unfoldable pub take_payload : Conn → Bytes → Conn
take_payload c [] = c
take_payload c (b ∷ payload) = send_ack (record c {
  read_buf = c.read_buf ++ b ∷ payload;
  rcv_nxt = add32 c.rcv_nxt (length (b ∷ payload));
})

unfoldable pub take_fin : Conn → Bool → Conn
take_fin c false = c
take_fin c true = send_ack (record c { rcv_nxt = add32 c.rcv_nxt 1; got_fin = true })

unfoldable pub handle_segment : Conn → Segment → Conn
handle_segment c tcp =
    let noted = note_echo c (timestamp_echo tcp.options) in
    if c.closed
    then c
    else if not (tcp.seq == noted.rcv_nxt)
    then send_ack noted
    else take_fin (take_payload noted tcp.payload) tcp.fin

unfoldable pub recv_loop : Conn → List Segment → Conn
recv_loop c [] = c
recv_loop c (seg ∷ segs) = recv_loop (handle_segment c seg) segs

-- `deadlineErr`.
unfoldable pub deadline_err : Option ℕ → ℕ → Option ConnError
deadline_err none now = none
deadline_err (some deadline) now = if ltb now deadline then none else some deadline_exceeded

-- One round of `Read`'s loop: `waits` is a `cond.Wait` with the deadline that `waitDeadline` was given.
pub data ReadResult : Type 0 where
  waits : Option ℕ → ReadResult
  returns : Conn → Bytes → Option ConnError → ReadResult

unfoldable pub nothing_to_read : Conn → Bool
nothing_to_read c = elim c.read_buf [
  | [] ↦ elim c.error [ none ↦ not c.got_fin && not c.closed | some _ ↦ false ]
  | _ ∷ _ ↦ false
]

abbrev wait_deadline : Conn → Option ConnError → ReadResult
wait_deadline c none = waits c.read_deadline
wait_deadline c (some e) = returns c [] (some e)

abbrev read_ready : Conn → ℕ → Bytes → Option ConnError → ReadResult
read_ready c n (b ∷ buf) e =
    returns (record c { read_buf = drop n (b ∷ buf) }) (take n (b ∷ buf)) none
read_ready c n [] (some e) = returns c [] (some e)
read_ready c n [] none = returns c [] (some eof)

-- `Read` into a slice of `n` bytes at the time `now`.
unfoldable pub read : Conn → ℕ → ℕ → ReadResult
unfolding nothing_to_read deadline_err
read c n now =
    if nothing_to_read c
    then wait_deadline c (deadline_err c.read_deadline now)
    else read_ready c n c.read_buf c.error

-- `Read` behind a wait: `waitDeadline` looks at its deadline again, at the time `woken`, and with that
-- one over nothing is read, whatever has arrived. Otherwise the loop goes on, at the time `now`.
abbrev pub woken_by : Conn → ℕ → ℕ → Option ConnError → ReadResult
woken_by c n now (some e) = returns c [] (some e)
woken_by c n now none = read c n now

unfoldable pub read_woken : Conn → Option ℕ → ℕ → ℕ → ℕ → ReadResult
read_woken c awaited n woken now = woken_by c n now (deadline_err awaited woken)

-- The loop of `Write` over what is left; `sent` bytes are gone. It returns the count and the error.
unfoldable pub write_loop : ℕ → ℕ → Conn → ℕ → Bytes → Conn × ℕ × Option ConnError
write_loop f mss c sent [] = (c, sent, none)
write_loop zero mss c sent (b ∷ rest) = (c, sent, none)
write_loop (suc f) mss c sent (b ∷ rest) =
    let chunk = take mss (b ∷ rest) in
    let (c', e) = send_locked c false true true false chunk in
    let onward =
      write_loop f mss (record c' { snd_nxt = add32 c'.snd_nxt (length chunk) })
        (sent + length chunk) (drop mss (b ∷ rest)) in
    elim e [ some e' ↦ (c', sent, some e') | none ↦ onward ]

abbrev pub segment_size : ℕ → ℕ
segment_size zero = 1460
segment_size (suc n) = suc n

abbrev write_open : Conn → Bytes → Bool → Option ConnError → Conn × ℕ × Option ConnError
write_open c p true e = (c, 0, some net_closed)
write_open c p false (some e) = (c, 0, some e)
write_open c p false none = write_loop (length p) (segment_size c.peer_mss) c 0 p

abbrev write_live : Conn → Bytes → ℕ → Option ConnError → Conn × ℕ × Option ConnError
write_live c p now (some e) = (c, 0, some e)
write_live c p now none = write_open c p c.closed (deadline_err c.write_deadline now)

unfoldable pub write : Conn → Bytes → ℕ → Conn × ℕ × Option ConnError
unfolding write_loop deadline_err
write c p now = write_live c p now c.error

-- The FIN that `Close` sends, unless the connection is closed already or has an error.
unfoldable pub say_fin : Conn → Bool → Option ConnError → Conn
say_fin c true e = c
say_fin c false (some _) = c
say_fin c false none =
    let sent = (send_locked c false true false true []).0 in
    record sent { snd_nxt = add32 sent.snd_nxt 1 }

-- `Close`, without the call of `stop` and of `io.Close`.
unfoldable pub close : Conn → Conn
unfolding say_fin
close c = record (say_fin c c.closed c.error) { closed = true }

unfoldable pub fail_conn : Conn → ConnError → Conn
fail_conn c e = elim c.error [ none ↦ record c { error = some e } | some _ ↦ c ]
