-- ===== src/Tcp/Delivery.antt =====
-- internal/curlu/tcpraw.go: `Write` of one connection and `recvLoop` of another.
use mathlib.Core.Path.{subst}
use curlu.Base.{
  ℕ, false, ◌||◌, none, List, [], ◌∷◌, ◌++◌, ◌+◌, ◌<◌, ◌≡◌, refl, sym, ap, ◌∙◌, arith, Bytes,
  length, length-append, length-take, take, All,
}
use curlu.Tcp.Defs.{
  word, Segment, Conn, handle_segment, recv_loop, deadline_err, segment_size, write,
}
use curlu.Tcp.Write.{Carries, nil, cons, IsData, write-Written}
use curlu.Tcp.Receive.{fin_size, Moves, Moves-trans, Moves-none, or_false, handle_segment_in_order}

-- Packets in order, each taken whole.
recv_loop-Moves :
    (mss : ℕ) (c : Conn) (gs : List Segment) {seq : ℕ} {p : Bytes}
    → c.closed ≡ false
    → c.rcv_nxt < word
    → seq ≡ c.rcv_nxt
    → All (IsData mss) gs
    → Carries seq gs p
    → Moves c (recv_loop c gs) p (length p) c.got_fin
unfolding recv_loop
recv_loop-Moves mss c [] is_open w e are_data nil = Moves-none w refl refl refl refl
recv_loop-Moves mss c (g ∷ gs) {seq} {p} is_open w e ((_, _, _, _, no_fin), later)
      (cons {rest} here carries whole) =
    let first =
      subst
        (λ b.
          Moves c (handle_segment c g) g.payload (length g.payload + fin_size b) (c.got_fin || b))
        no_fin (handle_segment_in_order c w g is_open (here ∙ e)) in
    let w' : (handle_segment c g).rcv_nxt < word = omega (arith, first.rcv_nxt) in
    let more =
      recv_loop-Moves mss (handle_segment c g) gs (first.closed ∙ is_open) w'
        (omega (arith, first.rcv_nxt, e)) later carries in
    let both = Moves-trans first more in
    record {
      read_buf = both.read_buf ∙ ap (λ q. c.read_buf ++ q) (sym whole);
      rcv_nxt = omega (arith, both.rcv_nxt, ap length whole, length-append g.payload rest);
      closed = both.closed;
      got_fin = both.got_fin ∙ first.got_fin ∙ or_false c.got_fin;
    }

-- When every packet that `Write` of `p` puts on the wire reaches a peer in order, the peer being open
-- and awaiting the writer's next number, the peer's buffer grows by exactly the bytes that `Write`
-- counted, and the peer awaits the writer's new number. The writer is open, has no error and is
-- within its deadline.
pub write-recv_loop :
    (c peer : Conn) (p : Bytes) (now : ℕ)
    → c.snd_nxt < word
    → c.error ≡ none
    → c.closed ≡ false
    → deadline_err c.write_deadline now ≡ none
    → peer.closed ≡ false
    → peer.rcv_nxt ≡ c.snd_nxt
    → (packets : List Segment) × ((write c p now).0.wire ≡ c.wire ++ packets)
      × ((recv_loop peer packets).read_buf ≡ peer.read_buf ++ take (write c p now).1 p)
      × ((recv_loop peer packets).rcv_nxt ≡ (write c p now).0.snd_nxt)
write-recv_loop c peer p now w no_error is_open in_time peer_open synced =
    let r = write-Written c p now w no_error is_open in_time in
    let m =
      recv_loop-Moves (segment_size c.peer_mss) peer r.packets peer_open (omega (arith, synced))
        (sym synced) r.are_data r.carries in
    let size = length-take (write c p now).1 p in
    (r.packets, r.wire, m.read_buf, omega (arith, m.rcv_nxt, r.advanced, synced, r.counted, size))
