-- ===== src/Response/Reply.antt =====
-- internal/curlu/client.go: `readResponse`, from the reader to the output.
use curlu.Base.{
  ℕ, zero, suc, Bool, true, false, not, none, some, List, [], ◌++◌, append_assoc, append-nil, ◌≡◌,
  ◌≢◌, ◌⊎◌, refl, sym, ap, ◌∙◌, arith, Bytes, length, ◌==◌, Option-cases, Bool-cases, Result-cases,
  inl, inr, Result, ok, err,
}
use curlu.Fault.{Fault}
use curlu.Response.Defs.{
  Slice, Reader, HeaderResult, block_read, block_failed, read_header_block, Writer, copy, Response,
  receive_error, is_interim, Received, received, failed, out_of_fuel, copy_body, write_block,
  after_header, response_round, read_response,
}
use curlu.Response.Output.{concat, write_all-Wrote, copy-all}

-- What `--include` shows of a header block.
abbrev pub shown : Bool → Bytes → Bytes
shown true block = block
shown false block = []

-- A reader that holds a response, with what is put out for it, the reader behind it and whether the
-- connection may be used again. Interim responses in front are shown, and have no body.
pub data Replies (parse : Bytes → Reader → Result Fault Response) (include : Bool)
    : Reader → Bytes → Reader → Bool → Type 0 where
  final :
      {reader next : Reader} {text : Bytes} {reuse : Bool} (block : Bytes) (slices : List Slice)
      (response : Response)
      → read_header_block reader ≡ block_read block slices
      → parse block (record reader { slices = slices }) ≡ ok response
      → is_interim response.status_code ≡ false
      → response.status_code ≢ 101
      → response.body_end ≡ none
      → text ≡ shown include block ++ concat response.body
      → next ≡ response.next
      → reuse ≡ not response.close
      → Replies parse include reader text next reuse
  interim :
      {reader next : Reader} {text : Bytes} {reuse : Bool} (block : Bytes) (slices : List Slice)
      (response : Response) (rest : Bytes)
      → read_header_block reader ≡ block_read block slices
      → parse block (record reader { slices = slices }) ≡ ok response
      → is_interim response.status_code ≡ true
      → text ≡ shown include block ++ rest
      → Replies parse include response.next rest next reuse
      → Replies parse include reader text next reuse

pub write_block-all :
    (include : Bool) (w : Writer) (block : Bytes)
    → (write_block include w block).1 ≡ none
    → (write_block include w block).0.out ≡ w.out ++ shown include block
unfolding write_block
write_block-all false w block h = sym (append-nil w.out)
write_block-all true w block h =
    let r = write_all-Wrote w block in r.out ∙ ap (λ x. w.out ++ x) (r.all h)

-- A body that was copied to its end.
record CopiesBody (w : Writer) (response : Response) (next : Reader) (reuse : Bool) (w' : Writer)
    : Type 0 where
  body_end : response.body_end ≡ none
  next_is : next ≡ response.next
  reuse_is : reuse ≡ not response.close
  out : w'.out ≡ w.out ++ concat response.body

copy_body-received :
    (w : Writer) (response : Response) (expired : Bool) {next : Reader} {reuse : Bool} {w' : Writer}
    → copy_body w response expired ≡ received next reuse w'
    → CopiesBody w response next reuse w'
unfolding copy_body
copy_body-received w response expired {w'} h =
    let c = copy w response.body response.body_end in
    elim (Option-cases c.tracker_error) [
      | inr (x, e) ↦ absurd (cc (rw (e, copy_body) at h))
      | inl e ↦
          let (a, b) = copy-all w response.body response.body_end e in
          elim (Option-cases c.copy_error) [
            | inr (x, e') ↦ absurd (cc (rw (e, e', copy_body) at h))
            | inl e' ↦
                let done = rw (e, e', copy_body) at h in
                let writer_is : c.writer ≡ w' = cc done in
                record {
                  body_end = sym a ∙ e';
                  next_is = cc done;
                  reuse_is = cc done;
                  out = sym (ap (λ (x : Writer). x.out) writer_is) ∙ b;
                }
          ]
    ]

-- How a round goes on when the response is received in the end.
data GoesOn (include expired : Bool) (w : Writer) (block : Bytes)
    (onward : Writer → Reader → Received) (response : Response) (r : Received) : Type 0 where
  more :
      is_interim response.status_code ≡ true
      → onward (write_block include w block).0 response.next ≡ r
      → GoesOn include expired w block onward response r
  last :
      is_interim response.status_code ≡ false
      → response.status_code ≢ 101
      → copy_body (write_block include w block).0 response expired ≡ r
      → GoesOn include expired w block onward response r

after_header-received :
    (include expired : Bool) (w : Writer) (block : Bytes) (onward : Writer → Reader → Received)
    (response : Response) {next : Reader} {reuse : Bool} {w' : Writer}
    → after_header include expired w block onward (ok response) ≡ received next reuse w'
    → ((write_block include w block).1 ≡ none)
      × GoesOn include expired w block onward response (received next reuse w')
unfolding after_header
after_header-received include expired w block onward response h =
    elim (Option-cases (write_block include w block).1) [
      | inr (x, e) ↦ ground (arith, rw (e, after_header) at h)
      | inl e ↦ elim (Bool-cases (is_interim response.status_code)) [
        | inl i ↦ (e, more i (rw (e, i, after_header) at h))
        | inr i ↦ elim (Bool-cases (response.status_code == 101)) [
          | inl s ↦ absurd (cc (rw (e, i, s, after_header) at h))
          | inr s ↦ (e, last i (ground arith) (rw (e, i, s, after_header) at h))
        ]
      ]
    ]

pub HeaderResult-cases :
    (r : HeaderResult)
    → ((block : Bytes) × (slices : List Slice) × (r ≡ block_read block slices))
      ⊎ ((block : Bytes) × (e : Fault) × (r ≡ block_failed block e))
HeaderResult-cases (block_read block slices) = inl (block, slices, refl)
HeaderResult-cases (block_failed block e) = inr (block, e, refl)

module _ (parse : Bytes → Reader → Result Fault Response) (include expired : Bool) (w : Writer)
    (reader : Reader) (f : ℕ) where
  -- The rounds of `readResponse`, by what the header block and its reading are.
  pub block_failed_round :
      {block : Bytes} {e : Fault}
      → read_header_block reader ≡ block_failed block e
      → read_response (suc f) parse include expired w reader
        ≡ failed (receive_error e expired (some (length block))) w
  unfolding read_response response_round
  block_failed_round h = rw (h, response_round) refl

  pub parsed_round :
      {block : Bytes} {slices : List Slice}
      → read_header_block reader ≡ block_read block slices
      → read_response (suc f) parse include expired w reader
        ≡ after_header include expired w block
            (read_response f parse include expired)
            (parse block (record reader { slices = slices }))
  unfolding read_response response_round
  parsed_round h = rw (h, response_round) refl

pub after_header-err :
    (include expired : Bool) (w : Writer) (block : Bytes) (onward : Writer → Reader → Received)
    (e : Fault)
    → after_header include expired w block onward (err e) ≡ failed (receive_error e expired none) w
unfolding after_header
after_header-err include expired w block onward e = refl

read_response-zero :
    (parse : Bytes → Reader → Result Fault Response) (include expired : Bool) (w : Writer)
    (reader : Reader)
    → read_response 0 parse include expired w reader ≡ out_of_fuel
unfolding read_response
read_response-zero parse include expired w reader = refl

-- What `readResponse` has put out when it receives a response is exactly what belongs to the response:
-- the header blocks of the interim responses and of the response itself if they are to be shown,
-- and its body, whole, in order and once, whatever the output takes at a time. The response is
-- neither interim nor a switch of protocols, its body ended without an error, and the connection is
-- reported free for another request unless the response closes it.
pub read_response-Replies :
    (f : ℕ) (parse : Bytes → Reader → Result Fault Response) (include expired : Bool) (w : Writer)
    (reader : Reader) {next : Reader} {reuse : Bool} {w' : Writer}
    → read_response f parse include expired w reader ≡ received next reuse w'
    → (text : Bytes) × Replies parse include reader text next reuse × (w'.out ≡ w.out ++ text)
read_response-Replies zero parse include expired w reader h =
    absurd (cc (h, read_response-zero parse include expired w reader))
read_response-Replies (suc f) parse include expired w reader {next} {reuse} {w'} h =
    elim (HeaderResult-cases (read_header_block reader)) [
      | inr (block, e, eb) ↦ absurd (cc (h, block_failed_round parse include expired w reader f eb))
      | inl (block, slices, eb) ↦
          let here : Reader = record reader { slices = slices } in
          let stepped = parsed_round parse include expired w reader f eb in
          elim (Result-cases (parse block here)) [
            | inr (e, ep) ↦
                let bad =
                  ap (after_header include expired w block (read_response f parse include expired))
                    ep
                  ∙ after_header-err include expired w block (read_response f parse include expired)
                      e in
                absurd (cc (h, stepped, bad))
            | inl (response, ep) ↦
                let (fine, on) =
                  after_header-received include expired w block
                    (read_response f parse include expired) response
                    (sym (
                        ap
                          (after_header include expired w block
                            (read_response f parse include expired))
                          ep)
                      ∙ sym stepped
                      ∙ h) in
                let w1 = (write_block include w block).0 in
                let block_out = write_block-all include w block fine in
                elim on [
                  | more i next_round ↦
                      let (rest, replies, out) =
                        read_response-Replies f parse include expired w1 response.next next_round in
                      (
                        shown include block ++ rest,
                        interim block slices response rest eb ep i refl replies,
                        out
                            ∙ ap (λ o. o ++ rest) block_out
                            ∙ append_assoc w.out (shown include block) rest,
                      )
                  | last i status copied ↦
                      let c = copy_body-received w1 response expired copied in
                      (
                        shown include block ++ concat response.body,
                        final block slices response eb ep i status c.body_end refl c.next_is
                            c.reuse_is,
                        c.out
                            ∙ ap (λ o. o ++ concat response.body) block_out
                            ∙ append_assoc w.out (shown include block) (concat response.body),
                      )
                ]
          ]
    ]
