-- ===== src/Tcp/Events.antt =====
-- Runs of a connection: segments, reads, writes, deadlines, errors and closing in any order.
use curlu.Base.{
  ℕ, zero, suc, Bool, true, false, Option, none, some, List, [], ◌∷◌, ◌++◌, ◌+◌, ◌<◌, ◌≡◌, refl,
  sym, ap, ◌∙◌, arith, Bytes, length, take, drop, All, Option-cases, inl, inr, append-nil,
}
use curlu.Tcp.Defs.{
  word, ConnError, Segment, Conn, send_locked, handle_segment, ReadResult, waits, returns, read,
  read_woken, deadline_err, woken_by, write_loop, segment_size, write, say_fin, close, fail_conn,
}
use curlu.Tcp.Write.{moved, write_loop-sent, write_loop_failed, send_locked-Keeps}
use curlu.Tcp.Transfer.{IsGenuine, Tracks, handle_segment-Tracks, read-Tracks}

-- What the peer, the program and the socket do. A read or a write comes with the clock's reading, a
-- read that wakes up with the deadline that it waited for and the two readings of the clock.
pub data Event : Type 0 where
  arrives : Segment → Event
  reads : ℕ → ℕ → Event
  wakes : Option ℕ → ℕ → ℕ → ℕ → Event
  writes : Bytes → ℕ → Event
  read_deadline : Option ℕ → Event
  write_deadline : Option ℕ → Event
  deadline : Option ℕ → Event
  breaks : ConnError → Event
  closes : Event

-- The bytes that were read so far, and the connection.
abbrev pub View : Type 0
View = Bytes × Conn

abbrev after_read : View → ReadResult → View
after_read v (waits _) = v
after_read (was_read, c) (returns d b e) = (was_read ++ b, d)

unfoldable pub perform : View → Event → View
perform (was_read, c) (arrives g) = (was_read, handle_segment c g)
perform (was_read, c) (reads n now) = after_read (was_read, c) (read c n now)
perform (was_read, c) (wakes awaited n woken now) =
    after_read (was_read, c) (read_woken c awaited n woken now)
perform (was_read, c) (writes p now) = (was_read, (write c p now).0)
perform (was_read, c) (read_deadline t) = (was_read, record c { read_deadline = t })
perform (was_read, c) (write_deadline t) = (was_read, record c { write_deadline = t })
perform (was_read, c) (deadline t) = (was_read, record c { read_deadline = t; write_deadline = t })
perform (was_read, c) (breaks e) = (was_read, fail_conn c e)
perform (was_read, c) closes = (was_read, close c)

unfoldable pub run : View → List Event → View
unfolding perform
run v [] = v
run v (e ∷ es) = run (perform v e) es

abbrev pub FromPeer : Bytes → ℕ → Event → Type 0
FromPeer stream start (arrives g) = IsGenuine stream start g
FromPeer stream start _ = Unit

-- The receiving half of a connection.
record SameView (c d : Conn) : Type 0 where
  read_buf : d.read_buf ≡ c.read_buf
  rcv_nxt : d.rcv_nxt ≡ c.rcv_nxt
  got_fin : d.got_fin ≡ c.got_fin

SameView-refl : (c : Conn) → SameView c c
SameView-refl c = record { read_buf = refl; rcv_nxt = refl; got_fin = refl }

Tracks-SameView :
    {stream : Bytes} {start : ℕ} {was_read : Bytes} {c d : Conn}
    → Tracks stream start was_read c
    → SameView c d
    → Tracks stream start was_read d
Tracks-SameView {start} {was_read} t s = record {
  count = t.count;
  within = t.within;
  received = ap (λ b. was_read ++ b) s.read_buf ∙ t.received;
  awaits = rw s.got_fin (s.rcv_nxt ∙ t.awaits);
  ended = λ e. t.ended (sym s.got_fin ∙ e);
}

write_loop-SameView :
    (f mss : ℕ) (c : Conn) (sent : ℕ) (rest : Bytes) → SameView c (write_loop f mss c sent rest).0
write_loop-SameView f mss c sent [] = unfold write_loop in SameView-refl c
write_loop-SameView zero mss c sent (b ∷ rest) = unfold write_loop in SameView-refl c
write_loop-SameView (suc f) mss c sent (b ∷ rest) =
    let chunk = take mss (b ∷ rest) in
    let k = send_locked-Keeps c false true true false chunk in
    elim (Option-cases (send_locked c false true true false chunk).1) [
      | inl e ↦
          let s =
            write_loop-SameView f mss (moved f mss c sent b rest) (sent + length chunk)
              (drop mss (b ∷ rest)) in
          rw (write_loop-sent f mss c sent b rest e) (record {
            read_buf = s.read_buf ∙ k.read_buf;
            rcv_nxt = s.rcv_nxt ∙ k.rcv_nxt;
            got_fin = s.got_fin ∙ k.got_fin;
          })
      | inr (x, e) ↦
          rw (write_loop_failed f mss c sent b rest x e)
            (record { read_buf = k.read_buf; rcv_nxt = k.rcv_nxt; got_fin = k.got_fin })
    ]

write-SameView : (c : Conn) (p : Bytes) (now : ℕ) → SameView c (write c p now).0
unfolding write
write-SameView c p now =
    ground (arith, write_loop-SameView (length p) (segment_size c.peer_mss) c 0 p)

say_fin-SameView : (c : Conn) (b : Bool) (e : Option ConnError) → SameView c (say_fin c b e)
unfolding say_fin
say_fin-SameView c true e = SameView-refl c
say_fin-SameView c false (some x) = SameView-refl c
say_fin-SameView c false none =
    let k = send_locked-Keeps c false true false true [] in
    record { read_buf = k.read_buf; rcv_nxt = k.rcv_nxt; got_fin = k.got_fin }

close-SameView : (c : Conn) → SameView c (close c)
unfolding close
close-SameView c =
    let s = say_fin-SameView c c.closed c.error in
    record { read_buf = s.read_buf; rcv_nxt = s.rcv_nxt; got_fin = s.got_fin }

fail_conn-SameView : (c : Conn) (e : ConnError) → SameView c (fail_conn c e)
unfolding fail_conn
fail_conn-SameView c e = ground arith

module _ (stream : Bytes) (start : ℕ) (short : length stream + 1 < word) where
  after_read-Tracks :
      (was_read : Bytes) (c : Conn) (n now : ℕ)
      → Tracks stream start was_read c
      → Tracks stream start
          (after_read (was_read, c) (read c n now)).0
          (after_read (was_read, c) (read c n now)).1
  after_read-Tracks was_read c n now t = by_result (read c n now) refl
    where
      by_result :
          (r : ReadResult)
          → read c n now ≡ r
          → Tracks stream start (after_read (was_read, c) r).0 (after_read (was_read, c) r).1
      by_result (waits _) h = t
      by_result (returns d b e) h = read-Tracks stream start short n now t h

  after_woken-Tracks :
      (was_read : Bytes) (c : Conn) (awaited : Option ℕ) (n woken now : ℕ)
      → Tracks stream start was_read c
      → Tracks stream start
          (after_read (was_read, c) (read_woken c awaited n woken now)).0
          (after_read (was_read, c) (read_woken c awaited n woken now)).1
  unfolding read_woken
  after_woken-Tracks was_read c awaited n woken now t = by_error (deadline_err awaited woken)
    where
      by_error :
          (e : Option ConnError)
          → Tracks stream start
              (after_read (was_read, c) (woken_by c n now e)).0
              (after_read (was_read, c) (woken_by c n now e)).1
      by_error (some e) = rw (append-nil was_read) t
      by_error none = after_read-Tracks was_read c n now t

  perform-Tracks :
      (was_read : Bytes) (c : Conn) (e : Event)
      → Tracks stream start was_read c
      → FromPeer stream start e
      → Tracks stream start (perform (was_read, c) e).0 (perform (was_read, c) e).1
  unfolding perform
  perform-Tracks was_read c (arrives g) t from = handle_segment-Tracks stream start short t from
  perform-Tracks was_read c (reads n now) t _ = after_read-Tracks was_read c n now t
  perform-Tracks was_read c (wakes awaited n woken now) t _ =
      after_woken-Tracks was_read c awaited n woken now t
  perform-Tracks was_read c (writes p now) t _ = Tracks-SameView t (write-SameView c p now)
  perform-Tracks was_read c (read_deadline d) t _ =
      Tracks-SameView t (record { read_buf = refl; rcv_nxt = refl; got_fin = refl })
  perform-Tracks was_read c (write_deadline d) t _ =
      Tracks-SameView t (record { read_buf = refl; rcv_nxt = refl; got_fin = refl })
  perform-Tracks was_read c (deadline d) t _ =
      Tracks-SameView t (record { read_buf = refl; rcv_nxt = refl; got_fin = refl })
  perform-Tracks was_read c (breaks e) t _ = Tracks-SameView t (fail_conn-SameView c e)
  perform-Tracks was_read c closes t _ = Tracks-SameView t (close-SameView c)

  -- A peer sends one stream of fewer than 2^32 - 1 bytes, and its segments arrive in any order, any
  -- number of times or not at all, between reads, writes, deadlines, errors and closing. If what was
  -- read and then what is buffered is the first bytes of the stream, the next number that is awaited
  -- is the one behind them, and the end was seen only with all of them there, then this is so after
  -- any such sequence too.
  pub run-Tracks :
      (was_read : Bytes) (c : Conn) (es : List Event)
      → Tracks stream start was_read c
      → All (FromPeer stream start) es
      → Tracks stream start (run (was_read, c) es).0 (run (was_read, c) es).1
  unfolding run
  run-Tracks was_read c [] t _ = t
  run-Tracks was_read c (e ∷ es) t (from, later) =
      let (r, d) = perform (was_read, c) e in
      run-Tracks r d es (perform-Tracks was_read c e t from) later
