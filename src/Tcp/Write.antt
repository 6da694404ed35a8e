-- ===== src/Tcp/Write.antt =====
-- internal/curlu/tcpraw.go: `Write` and `sendLocked`.
use mathlib.Core.Path.{ap₂, subst₂}
use curlu.Base.{
  take_rest, ℕ, zero, suc, Bool, true, false, Option, none, some, List, [], ◌∷◌, ◌++◌, append_assoc,
  append-nil, ◌+◌, ◌%◌, ◌^◌, ◌≤◌, ◌<◌, ◌≡◌, refl, sym, ap, ◌∙◌, arith, Bytes, length, length-take,
  length-drop, take, drop, All, Option-cases, inl, inr,
}
use curlu.Tcp.Defs.{
  word, add32, ConnError, Segment, Conn, moment_now, outgoing, send_locked, deadline_err,
  write_loop, segment_size, write,
}

-- What a send leaves alone, whether it works or not.
pub record Keeps (c d : Conn) : Type 0 where
  pub window : d.window ≡ c.window
  pub peer_mss : d.peer_mss ≡ c.peer_mss
  pub use_ts : d.use_ts ≡ c.use_ts
  pub snd_nxt : d.snd_nxt ≡ c.snd_nxt
  pub rcv_nxt : d.rcv_nxt ≡ c.rcv_nxt
  pub ts_echo : d.ts_echo ≡ c.ts_echo
  pub read_buf : d.read_buf ≡ c.read_buf
  pub closed : d.closed ≡ c.closed
  pub got_fin : d.got_fin ≡ c.got_fin
  pub error : d.error ≡ c.error

pub send_locked-Keeps :
    (c : Conn) (syn ack psh fin : Bool) (payload : Bytes)
    → Keeps c (send_locked c syn ack psh fin payload).0
unfolding send_locked
send_locked-Keeps c syn ack psh fin payload = elim (Option-cases (moment_now c.moments).fault) [
  | inl e ↦ ground arith
  | inr (x, e) ↦ ground arith
]

-- A send that works puts one packet on the wire, with the numbers of the state.
record Sends (c d : Conn) (seg : Segment) (payload : Bytes) : Type 0 where
  wire : d.wire ≡ c.wire ++ seg ∷ []
  seq : seg.seq ≡ c.snd_nxt
  ack_number : seg.ack_number ≡ c.rcv_nxt
  carries : seg.payload ≡ payload

sent_segment : Conn → Bool → Bool → Bool → Bool → Bytes → Segment
sent_segment c = outgoing c ((c.ip_id + 1) % 2 ^ 16)

send_locked-Sends :
    (c : Conn) (syn ack psh fin : Bool) (payload : Bytes)
    → (send_locked c syn ack psh fin payload).1 ≡ none
    → Sends c
        (send_locked c syn ack psh fin payload).0
        (sent_segment c syn ack psh fin payload)
        payload
unfolding send_locked sent_segment
send_locked-Sends c syn ack psh fin payload h = record {
  wire = ground arith;
  seq = refl;
  ack_number = refl;
  carries = refl;
}

-- Consecutive packets that carry `data` from the sequence number `seq` on.
pub data Carries : ℕ → List Segment → Bytes → Type 0 where
  nil : {seq : ℕ} → Carries seq [] []
  cons :
      {seq : ℕ} {g : Segment} {gs : List Segment} {rest data' : Bytes}
      → g.seq ≡ seq
      → Carries (add32 seq (length g.payload)) gs rest
      → data' ≡ g.payload ++ rest
      → Carries seq (g ∷ gs) data'

-- Plain data packets of one to `mss` bytes.
abbrev pub IsData : ℕ → Segment → Type 0
IsData mss g =
    (0 < length g.payload)
    × (length g.payload ≤ mss)
    × (g.syn ≡ false)
    × (g.ack ≡ true)
    × (g.fin ≡ false)

-- What a `Write` of `p` has done when it returns `n` and `e`.
pub record Written (mss : ℕ) (c : Conn) (p : Bytes) (d : Conn) (n : ℕ) (e : Option ConnError)
    : Type 0 where
  pub packets : List Segment
  pub wire : d.wire ≡ c.wire ++ packets
  pub carries : Carries c.snd_nxt packets (take n p)
  pub are_data : All (IsData mss) packets
  pub counted : n ≤ length p
  pub complete : e ≡ none → n ≡ length p
  pub advanced : d.snd_nxt ≡ add32 c.snd_nxt n
  pub received : d.rcv_nxt ≡ c.rcv_nxt
  pub still_open : d.closed ≡ c.closed

add32-add32 : (a b c : ℕ) → add32 (add32 a b) c ≡ add32 a (b + c)
add32-add32 a b c = omega arith

-- One chunk that was sent, and the loop's work on what is left.
Written-cons :
    (mss : ℕ) (c d : Conn) (p : Bytes) (d' : Conn) (k : ℕ) (e : Option ConnError) (seg : Segment)
    → 0 < mss
    → 0 < length p
    → Keeps c d
    → Sends c d seg (take mss p)
    → IsData mss seg
    → c.snd_nxt < word
    → Written mss (record d { snd_nxt = add32 d.snd_nxt (length (take mss p)) }) (drop mss p) d' k e
    → Written mss c p d' (length (take mss p) + k) e
Written-cons mss c d p d' k e seg pos some_bytes keeps sends is_data w r = record {
  packets = seg ∷ r.packets;
  wire = r.wire ∙ ap (λ x. x ++ r.packets) sends.wire ∙ append_assoc c.wire (seg ∷ []) r.packets;
  carries =
      cons sends.seq
        (subst₂ (λ s q. Carries s r.packets q)
          (ap₂ (λ a b. add32 a (length b)) keeps.snd_nxt (sym sends.carries)) refl r.carries)
        (sym (take_rest mss k p) ∙ ap (λ x. x ++ take k (drop mss p)) (sym sends.carries));
  are_data = (is_data, r.are_data);
  counted = omega (arith, r.counted, length-drop mss p, length-take mss p);
  complete = λ none_left. omega (arith, r.complete none_left, length-drop mss p, length-take mss p);
  advanced =
      r.advanced
      ∙ ap (λ x. add32 (add32 x (length (take mss p))) k) keeps.snd_nxt
      ∙ add32-add32 c.snd_nxt (length (take mss p)) k;
  received = r.received ∙ keeps.rcv_nxt;
  still_open = r.still_open ∙ keeps.closed;
}

segment_size_pos : (n : ℕ) → 0 < segment_size n
segment_size_pos zero = omega arith
segment_size_pos (suc n) = omega arith

sent_segment-IsData :
    (c : Conn) (mss : ℕ) (chunk : Bytes)
    → 0 < length chunk
    → length chunk ≤ mss
    → IsData mss (sent_segment c false true true false chunk)
unfolding sent_segment outgoing
sent_segment-IsData c mss chunk pos small = (pos, small, refl, refl, refl)

send_locked-failed :
    (c : Conn) (syn ack psh fin : Bool) (payload : Bytes) {x : ConnError}
    → (send_locked c syn ack psh fin payload).1 ≡ some x
    → (send_locked c syn ack psh fin payload).0.wire ≡ c.wire
unfolding send_locked
send_locked-failed c syn ack psh fin payload h = ground arith

-- One round of the loop.
module _ (f mss : ℕ) (c : Conn) (sent b : ℕ) (rest : Bytes) where
  abbrev pub tried : Conn × Option ConnError
  tried = send_locked c false true true false (take mss (b ∷ rest))

  abbrev pub moved : Conn
  moved = record (tried.0) { snd_nxt = add32 tried.0.snd_nxt (length (take mss (b ∷ rest))) }

  pub write_loop-sent :
      tried.1 ≡ none
      → write_loop (suc f) mss c sent (b ∷ rest)
        ≡ write_loop f mss moved (sent + length (take mss (b ∷ rest))) (drop mss (b ∷ rest))
  unfolding write_loop
  write_loop-sent h = rw (h, write_loop)

  pub write_loop_failed :
      (e : ConnError)
      → tried.1 ≡ some e
      → write_loop (suc f) mss c sent (b ∷ rest) ≡ (tried.0, sent, some e)
  unfolding write_loop
  write_loop_failed e h = rw (h, write_loop)

module _ (mss : ℕ) (mss_pos : 0 < mss) where
  -- The loop has sent `k` more bytes when it returns.
  write_loop-Written :
      (f : ℕ) (c : Conn) (sent : ℕ) (rest : Bytes)
      → length rest ≤ f
      → c.snd_nxt < word
      → (k : ℕ) × ((write_loop f mss c sent rest).1 ≡ sent + k)
        × Written mss c rest (write_loop f mss c sent rest).0 k (write_loop f mss c sent rest).2
  unfolding write_loop
  write_loop-Written f c sent [] h w = (
    0,
    omega arith,
    record {
      packets = [];
      wire = sym (append-nil c.wire);
      carries = nil;
      are_data = tt;
      counted = omega arith;
      complete = λ _. refl;
      advanced = omega arith;
      received = refl;
      still_open = refl;
    },
  )
  write_loop-Written zero c sent (b ∷ rest) h w = absurd (omega arith)
  write_loop-Written (suc f) c sent (b ∷ rest) h w =
      let chunk = take mss (b ∷ rest) in
      let d = (send_locked c false true true false chunk).0 in
      let seg = sent_segment c false true true false chunk in
      let keeps = send_locked-Keeps c false true true false chunk in
      let size = length-take mss (b ∷ rest) in
      elim (Option-cases (send_locked c false true true false chunk).1) [
        | inl e ↦
            let next = record d { snd_nxt = add32 d.snd_nxt (length chunk) } in
            let (k, count, r) =
              write_loop-Written f next (sent + length chunk) (drop mss (b ∷ rest))
                (omega (arith, length-drop mss (b ∷ rest))) (omega arith) in
            rw (write_loop-sent f mss c sent b rest e) (
              length chunk + k,
              omega (arith, count),
              Written-cons mss c d (b ∷ rest) _ k _ seg mss_pos (omega arith) keeps
                  (send_locked-Sends c false true true false chunk e)
                  (sent_segment-IsData c mss chunk (omega arith) (omega arith)) w r,
            )
        | inr (x, e) ↦ rw (write_loop_failed f mss c sent b rest x e) (
          0,
          omega arith,
          record {
            packets = [];
            wire = send_locked-failed c false true true false chunk e ∙ sym (append-nil c.wire);
            carries = nil;
            are_data = tt;
            counted = omega arith;
            complete = λ bad. absurd (cc bad);
            advanced = omega (arith, keeps.snd_nxt);
            received = keeps.rcv_nxt;
            still_open = keeps.closed;
          },
        )
      ]

write_runs :
    (c : Conn) (p : Bytes) (now : ℕ)
    → c.error ≡ none
    → c.closed ≡ false
    → deadline_err c.write_deadline now ≡ none
    → write c p now ≡ write_loop (length p) (segment_size c.peer_mss) c 0 p
unfolding write
write_runs c p now no_error is_open in_time = simp (no_error, is_open, in_time)

-- What `Write` does with `p` on a connection that has no error, is not closed and is within its
-- deadline: it has put `n` bytes of `p` on the wire, in consecutive data packets of at most the
-- peer's segment size, advanced the send sequence number by `n`, and `n` is all of `p` unless it
-- reports an error.
pub write-Written :
    (c : Conn) (p : Bytes) (now : ℕ)
    → c.snd_nxt < word
    → c.error ≡ none
    → c.closed ≡ false
    → deadline_err c.write_deadline now ≡ none
    → Written (segment_size c.peer_mss) c p (write c p now).0 (write c p now).1 (write c p now).2
write-Written c p now w no_error is_open in_time =
    let (k, count, r) =
      write_loop-Written (segment_size c.peer_mss) (segment_size_pos c.peer_mss) (length p) c 0 p
        (omega arith) w in
    let whole = write_runs c p now no_error is_open in_time in
    let e : k ≡ (write c p now).1 = omega (arith, count, ap (λ x. x.1) whole) in
    subst₂ (λ x j. Written (segment_size c.peer_mss) c p x.0 j x.2) (sym whole) e r
