-- ===== src/Response/Fuel.antt =====
-- internal/curlu/client.go: the rounds of `readResponse`, each of which reads a header block.
use curlu.Base.{
  ℕ, zero, suc, Bool, List, [], ◌∷◌, ◌++◌, ◌≤◌, ◌<◌, ◌≡◌, ◌≢◌, sym, ap, ◌∙◌, arith, Bytes, length,
  Result-cases, inl, inr, Result, ok,
}
use curlu.Fault.{Fault}
use curlu.Response.Defs.{
  Slice, found, full, Reader, block_read, header_loop, read_header_block, Writer, Response,
  Received, out_of_fuel, copy_body, write_block, after_header, read_response,
}
use curlu.Response.Reply.{HeaderResult-cases, block_failed_round, parsed_round, after_header-err}

-- A block takes one slice at least.
header_loop_shorter :
    (limit : ℕ) (rest : Bytes) (fault : Fault) (block line : Bytes) (slices : List Slice)
    {out : Bytes} {after : List Slice}
    → header_loop limit rest fault block line slices ≡ block_read out after
    → length after < length slices
unfolding header_loop
header_loop_shorter limit rest fault block line [] h = absurd (ground arith)
header_loop_shorter limit rest fault block line (full b ∷ slices) {out} {after} h = ground (
  arith,
  header_loop_shorter limit rest fault (block ++ b) (line ++ b) slices {out = out} {after = after},
)
header_loop_shorter limit rest fault block line (found b ∷ slices) {out} {after} h =
    ground (
      arith,
      header_loop_shorter limit rest fault (block ++ b) [] slices {out = out} {after = after},
    )

copy_body-ne-fuel :
    (w : Writer) (response : Response) (expired : Bool) → copy_body w response expired ≢ out_of_fuel
unfolding copy_body
copy_body-ne-fuel w response expired = ground arith

after_header-ne-fuel :
    (include expired : Bool) (w : Writer) (block : Bytes) (onward : Writer → Reader → Received)
    (response : Response)
    → ((w' : Writer) → onward w' response.next ≢ out_of_fuel)
    → after_header include expired w block onward (ok response) ≢ out_of_fuel
unfolding after_header
after_header-ne-fuel include expired w block onward response h = ground (
  arith,
  h (write_block include w block).0,
  copy_body-ne-fuel (write_block include w block).0 response expired,
)

read_header_block_shorter :
    (reader : Reader) {block : Bytes} {after : List Slice}
    → read_header_block reader ≡ block_read block after
    → length after < length reader.slices
unfolding read_header_block
read_header_block_shorter reader h =
    header_loop_shorter _ reader.rest reader.fault [] [] reader.slices h

-- `readResponse` ends, with a response or an exit code, however many interim responses arrive:
-- with more fuel than the reader has slices the model never runs out. `http.ReadResponse` hands on a
-- reader with no more slices than it was given.
pub read_response-ne-fuel :
    (f : ℕ) (parse : Bytes → Reader → Result Fault Response) (include expired : Bool) (w : Writer)
    (reader : Reader)
    → ((block : Bytes) (r : Reader) (response : Response)
        → parse block r ≡ ok response
        → length response.next.slices ≤ length r.slices)
    → length reader.slices < f
    → read_response f parse include expired w reader ≢ out_of_fuel
read_response-ne-fuel zero parse include expired w reader lawful enough bad = absurd (omega arith)
read_response-ne-fuel (suc f) parse include expired w reader lawful enough bad =
    elim (HeaderResult-cases (read_header_block reader)) [
      | inr (block, e, eb) ↦ cc (bad, block_failed_round parse include expired w reader f eb)
      | inl (block, slices, eb) ↦
          let here : Reader = record reader { slices = slices } in
          let onward = read_response f parse include expired in
          let stepped = parsed_round parse include expired w reader f eb in
          elim (Result-cases (parse block here)) [
            | inr (e, ep) ↦ cc (
              bad,
              stepped,
              ap (after_header include expired w block onward) ep,
              after_header-err include expired w block onward e,
            )
            | inl (response, ep) ↦
                let smaller = lawful block here response ep in
                let shorter = read_header_block_shorter reader eb in
                after_header-ne-fuel include expired w block onward response
                  (λ w'.
                    read_response-ne-fuel f parse include expired w' response.next lawful
                      (omega (arith, smaller, shorter)))
                  (sym (ap (after_header include expired w block onward) ep) ∙ sym stepped ∙ bad)
          ]
    ]
