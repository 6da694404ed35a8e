-- ===== src/Tcp/Transfer.antt =====
-- internal/curlu/tcpraw.go: a peer's byte stream against what `handleSegment` and `Read` keep of it.
use native.Mathlib.Decide.{ℕ_discrete}
use mathlib.Core.Path.{ap₂}
use curlu.Base.{
  take_rest, ℕ, Bool, true, false, ◌||◌, Option, [], ◌++◌, append_assoc, append-nil, ◌+◌, ◌≤◌, ◌<◌,
  ◌≡◌, refl, sym, ap, ◌∙◌, arith, Bytes, length, length-take, take-append-drop, take, drop,
  Bool-cases, inl, inr,
}
use curlu.Tcp.Defs.{word, add32, ConnError, Segment, Conn, handle_segment, returns, read}
use curlu.Tcp.Receive.{fin_size, Moves, handle_segment_in_order, handle_segment_other}

-- A packet of a peer that sends `stream` from the number `start` on: some run of it, with the FIN
-- flag at most at its end.
pub record IsGenuine (stream : Bytes) (start : ℕ) (g : Segment) : Type 0 where
  pub offset : ℕ
  pub within : offset + length g.payload ≤ length stream
  pub seq : g.seq ≡ add32 start offset
  pub payload : g.payload ≡ take (length g.payload) (drop offset stream)
  pub fin_last : g.fin ≡ true → offset + length g.payload ≡ length stream

-- The bytes that were read and those in the buffer are the first `count` of the stream, and the
-- next number that is awaited is the one behind them, and behind the FIN once it was taken.
pub record Tracks (stream : Bytes) (start : ℕ) (was_read : Bytes) (c : Conn) : Type 0 where
  pub count : ℕ
  pub within : count ≤ length stream
  pub received : was_read ++ c.read_buf ≡ take count stream
  pub awaits : c.rcv_nxt ≡ add32 start (count + fin_size c.got_fin)
  pub ended : c.got_fin ≡ true → count ≡ length stream

-- What `Read` returns came off the front of the buffer.
read_view :
    (c : Conn) (n now : ℕ) (d : Conn) (b : Bytes) (e : Option ConnError)
    → read c n now ≡ returns d b e
    → (b ++ d.read_buf ≡ c.read_buf) × (d.rcv_nxt ≡ c.rcv_nxt) × (d.got_fin ≡ c.got_fin)
unfolding read
read_view c n now d b e h = ground (arith, take-append-drop n c.read_buf)

module _ (stream : Bytes) (start : ℕ) (short : length stream + 1 < word) where
  Tracks-none :
      {was_read : Bytes} {c d : Conn}
      → Tracks stream start was_read c
      → Moves c d [] 0 c.got_fin
      → Tracks stream start was_read d
  Tracks-none {was_read} {c} t m = record {
    count = t.count;
    within = t.within;
    received = ap (λ b. was_read ++ b) (m.read_buf ∙ append-nil c.read_buf) ∙ t.received;
    awaits = rw m.got_fin (omega (arith, m.rcv_nxt, t.awaits));
    ended = λ e. t.ended (sym m.got_fin ∙ e);
  }

  -- Only one offset fits the number that is awaited, and none after the FIN.
  fits_offset :
      (count : ℕ) (fin : Bool) (offset : ℕ)
      → count ≤ length stream
      → (fin ≡ true → count ≡ length stream)
      → offset ≤ length stream
      → add32 start offset ≡ add32 start (count + fin_size fin)
      → (offset ≡ count) × (fin ≡ false)
  fits_offset count true offset a b c e = absurd (omega (arith, b refl))
  fits_offset count false offset a b c e = (omega arith, refl)

  Tracks-in_order :
      {was_read : Bytes} {c d : Conn} {g : Segment}
      → Tracks stream start was_read c
      → IsGenuine stream start g
      → g.seq ≡ c.rcv_nxt
      → Moves c d g.payload (length g.payload + fin_size g.fin) (c.got_fin || g.fin)
      → Tracks stream start was_read d
  Tracks-in_order {was_read} {c} {g} t genuine e m =
      let (here, still_open) =
        fits_offset t.count c.got_fin genuine.offset t.within t.ended
          (omega (arith, genuine.within)) (sym genuine.seq ∙ e ∙ t.awaits) in
      let finished = m.got_fin ∙ ap (λ b. b || g.fin) still_open in
      record {
        count = t.count + length g.payload;
        within = omega (arith, genuine.within);
        received =
            ap (λ b. was_read ++ b) m.read_buf
            ∙ sym (append_assoc was_read c.read_buf g.payload)
            ∙ ap₂ ◌++◌ t.received
                (genuine.payload ∙ ap (λ o. take (length g.payload) (drop o stream)) here)
            ∙ take_rest t.count (length g.payload) stream
            ∙ ap (λ k. take (k + length g.payload) stream)
                (omega (arith, length-take t.count stream, t.within));
        awaits = rw finished (omega (arith, m.rcv_nxt, t.awaits, ap fin_size still_open));
        ended = λ h. omega (arith, genuine.fin_last (sym finished ∙ h), here);
      }

  pub handle_segment-Tracks :
      {was_read : Bytes} {c : Conn} {g : Segment}
      → Tracks stream start was_read c
      → IsGenuine stream start g
      → Tracks stream start was_read (handle_segment c g)
  handle_segment-Tracks {was_read} {c} {g} t genuine =
      let w : c.rcv_nxt < word = omega (arith, t.awaits) in
      elim (Bool-cases c.closed) [
        | inl shut ↦ Tracks-none t (handle_segment_other c w g (inl shut))
        | inr is_open ↦ elim (ℕ_discrete g.seq c.rcv_nxt) [
          | no other ↦ Tracks-none t (handle_segment_other c w g (inr (is_open, other)))
          | yes e ↦ Tracks-in_order t genuine e (handle_segment_in_order c w g is_open e)
        ]
      ]

  pub read-Tracks :
      {was_read : Bytes} {c d : Conn} {b : Bytes} {e : Option ConnError} (n now : ℕ)
      → Tracks stream start was_read c
      → read c n now ≡ returns d b e
      → Tracks stream start (was_read ++ b) d
  read-Tracks {was_read} {c} {d} {b} {e} n now t h =
      let v = read_view c n now d b e h in
      record {
        count = t.count;
        within = t.within;
        received = append_assoc was_read b d.read_buf ∙ ap (λ x. was_read ++ x) v.0 ∙ t.received;
        awaits = rw v.2 (v.1 ∙ t.awaits);
        ended = λ f. t.ended (sym v.2 ∙ f);
      }
