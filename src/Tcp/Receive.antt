-- ===== src/Tcp/Receive.antt =====
-- internal/curlu/tcpraw.go: the steps of `handleSegment`, as the reader sees them.
use mathlib.Core.Path.{subst, subst₂}
use curlu.Base.{
  ℕ, Bool, true, false, ◌||◌, [], ◌∷◌, ◌++◌, append_assoc, append-nil, ◌+◌, ◌<◌, ◌≡◌, ◌≢◌, ◌⊎◌,
  refl, sym, ap, ◌∙◌, arith, Bytes, length, Bool-cases, inl, inr, ◌==◌, ==_iff,
}
use curlu.Fingerprint.{timestamp_echo}
use curlu.Tcp.Defs.{
  word, add32, Segment, Conn, send_ack, note_echo, take_payload, take_fin, handle_segment,
}
use curlu.Tcp.Write.{Keeps, send_locked-Keeps}

abbrev pub fin_size : Bool → ℕ
fin_size true = 1
fin_size false = 0

-- What the reader sees of a step: its bytes, the next number that is awaited, and the two flags.
pub record Moves (c d : Conn) (added : Bytes) (count : ℕ) (finished : Bool) : Type 0 where
  pub read_buf : d.read_buf ≡ c.read_buf ++ added
  pub rcv_nxt : d.rcv_nxt ≡ add32 c.rcv_nxt count
  pub closed : d.closed ≡ c.closed
  pub got_fin : d.got_fin ≡ finished

send_ack-Keeps : (c : Conn) → Keeps c (send_ack c)
unfolding send_ack
send_ack-Keeps c = send_locked-Keeps c false true false false []

pub or_false : (b : Bool) → (b || false) ≡ b
or_false true = refl
or_false false = refl

or_true : (b : Bool) → (b || true) ≡ true
or_true true = refl
or_true false = refl

-- A step that keeps the reader's view.
pub Moves-none :
    {c d : Conn}
    → c.rcv_nxt < word
    → d.read_buf ≡ c.read_buf
    → d.rcv_nxt ≡ c.rcv_nxt
    → d.closed ≡ c.closed
    → d.got_fin ≡ c.got_fin
    → Moves c d [] 0 c.got_fin
Moves-none {c} w b r cl f = record {
  read_buf = b ∙ sym (append-nil c.read_buf);
  rcv_nxt = omega arith;
  closed = cl;
  got_fin = f;
}

pub Moves-trans :
    {c d e : Conn} {a b : Bytes} {m n : ℕ} {f f' : Bool}
    → Moves c d a m f
    → Moves d e b n f'
    → Moves c e (a ++ b) (m + n) f'
Moves-trans {c} {a} {b} x y = record {
  read_buf = y.read_buf ∙ ap (λ s. s ++ b) x.read_buf ∙ append_assoc c.read_buf a b;
  rcv_nxt = omega (arith, x.rcv_nxt, y.rcv_nxt);
  closed = y.closed ∙ x.closed;
  got_fin = y.got_fin;
}

module _ (c : Conn) (w : c.rcv_nxt < word) where
  take_payload-Moves :
      (payload : Bytes) → Moves c (take_payload c payload) payload (length payload) c.got_fin
  unfolding take_payload
  take_payload-Moves [] = record {
    read_buf = sym (append-nil c.read_buf);
    rcv_nxt = omega arith;
    closed = refl;
    got_fin = refl;
  }
  take_payload-Moves (b ∷ payload) =
      let k = send_ack-Keeps _ in
      record { read_buf = k.read_buf; rcv_nxt = k.rcv_nxt; closed = k.closed; got_fin = k.got_fin }

  take_fin-Moves : (fin : Bool) → Moves c (take_fin c fin) [] (fin_size fin) (c.got_fin || fin)
  unfolding take_fin
  take_fin-Moves false = rw (or_false c.got_fin) (Moves-none w refl refl refl refl)
  take_fin-Moves true =
      let k = send_ack-Keeps (record c { rcv_nxt = add32 c.rcv_nxt 1; got_fin = true }) in
      record {
        read_buf = k.read_buf ∙ sym (append-nil c.read_buf);
        rcv_nxt = k.rcv_nxt;
        closed = k.closed;
        got_fin = k.got_fin ∙ sym (or_true c.got_fin);
      }

  note_echo-Moves : (echo : ℕ) → Moves c (note_echo c echo) [] 0 c.got_fin
  unfolding note_echo
  note_echo-Moves echo = elim (Bool-cases (echo == 0)) [
    | inl e ↦ rw e (Moves-none w refl refl refl refl)
    | inr e ↦ rw e (Moves-none w refl refl refl refl)
  ]

note_echo-rcv_nxt : (c : Conn) (echo : ℕ) → (note_echo c echo).rcv_nxt ≡ c.rcv_nxt
unfolding note_echo
note_echo-rcv_nxt c echo = ground arith

note_echo-got_fin : (c : Conn) (echo : ℕ) → (note_echo c echo).got_fin ≡ c.got_fin
unfolding note_echo
note_echo-got_fin c echo = ground arith

send_ack-Moves : (c : Conn) → c.rcv_nxt < word → Moves c (send_ack c) [] 0 c.got_fin
send_ack-Moves c w =
    let k = send_ack-Keeps c in Moves-none w k.read_buf k.rcv_nxt k.closed k.got_fin

module _ (c : Conn) (w : c.rcv_nxt < word) (g : Segment) where
  abbrev noted : Conn
  noted = note_echo c (timestamp_echo g.options)

  handles_in_order :
      c.closed ≡ false
      → g.seq ≡ c.rcv_nxt
      → handle_segment c g ≡ take_fin (take_payload noted g.payload) g.fin
  unfolding handle_segment
  handles_in_order is_open in_order =
      let test : (g.seq == noted.rcv_nxt) ≡ true =
        (==_iff g.seq noted.rcv_nxt).1
          (in_order ∙ sym (note_echo-rcv_nxt c (timestamp_echo g.options))) in
      simp (is_open, test)

  handles_other : c.closed ≡ false → g.seq ≢ c.rcv_nxt → handle_segment c g ≡ send_ack noted
  unfolding handle_segment
  handles_other is_open other =
      let test : (g.seq == noted.rcv_nxt) ≡ false =
        ground (arith, note_echo-rcv_nxt c (timestamp_echo g.options)) in
      simp (is_open, test)

  handles_closed : c.closed ≡ true → handle_segment c g ≡ c
  unfolding handle_segment
  handles_closed shut = simp shut

  -- A segment that arrives in order is taken whole.
  pub handle_segment_in_order :
      c.closed ≡ false
      → g.seq ≡ c.rcv_nxt
      → Moves c
          (handle_segment c g)
          g.payload
          (length g.payload + fin_size g.fin)
          (c.got_fin || g.fin)
  handle_segment_in_order is_open in_order =
      let w' : noted.rcv_nxt < word =
        omega (arith, note_echo-rcv_nxt c (timestamp_echo g.options)) in
      let m = note_echo-Moves c w (timestamp_echo g.options) in
      let p = take_payload-Moves noted w' g.payload in
      let w'' : (take_payload noted g.payload).rcv_nxt < word = omega (arith, p.rcv_nxt) in
      let f = take_fin-Moves (take_payload noted g.payload) w'' g.fin in
      rw (handles_in_order is_open in_order) (
        subst
          (λ b.
            Moves c (take_fin (take_payload noted g.payload) g.fin) b
              (length g.payload + fin_size g.fin) (c.got_fin || g.fin))
          (append-nil g.payload)
          (subst₂
            (λ n x.
              Moves c (take_fin (take_payload noted g.payload) g.fin) (g.payload ++ []) n
                (x || g.fin))
            (omega arith) (p.got_fin ∙ m.got_fin) (Moves-trans m (Moves-trans p f))))

  -- Any other segment leaves the reader's view alone.
  pub handle_segment_other :
      (c.closed ≡ true) ⊎ ((c.closed ≡ false) × (g.seq ≢ c.rcv_nxt))
      → Moves c (handle_segment c g) [] 0 c.got_fin
  handle_segment_other (inl shut) = rw (handles_closed shut) (Moves-none w refl refl refl refl)
  handle_segment_other (inr (is_open, other)) =
      let w' : noted.rcv_nxt < word =
        omega (arith, note_echo-rcv_nxt c (timestamp_echo g.options)) in
      rw (handles_other is_open other) (
        subst (λ x. Moves c (send_ack noted) [] 0 x)
          (note_echo-got_fin c (timestamp_echo g.options))
          (Moves-trans (note_echo-Moves c w (timestamp_echo g.options)) (send_ack-Moves noted w')))
