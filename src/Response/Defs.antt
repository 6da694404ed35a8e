-- ===== src/Response/Defs.antt =====
-- internal/curlu/client.go: `readHeaderBlock`, `readNextResponse`, `readResponse`, `receiveError`,
-- `writeAll` and `trackingWriter`. An exit error is its code; the trace is left out.
use curlu.Base.{
  ℕ, zero, suc, Bool, true, false, not, ◌&&◌, ◌||◌, Option, none, some, List, [], ◌∷◌, ◌++◌, ◌+◌,
  leb, ltb, ◌==◌, if◌then◌else◌, Bytes, length, take, drop, Result, ok, err, same,
}
use curlu.Fault.{Fault, other_fault, headers_too_large, is_timeout}

-- What `ReadSlice('\n')` of a `bufio.Reader` returns while it returns no other error: a text up to
-- and with a line feed, or the full buffer with `ErrBufferFull`.
pub data Slice : Type 0 where
  found : Bytes → Slice
  full : Bytes → Slice

-- A `bufio.Reader` by the slices that are still to come, and the text and the error behind them.
pub record Reader : Type 0 where
  pub slices : List Slice
  pub rest : Bytes
  pub fault : Fault

abbrev pub max_response_header_bytes : ℕ
max_response_header_bytes = 1048576

abbrev pub is_blank : Bytes → Bool
is_blank line = same line (13 ∷ 10 ∷ []) || same line (10 ∷ [])

-- `readHeaderBlock` ends with the block and the slices behind it, or with the bytes that it returns
-- beside the error. `line` is the block from `lineStart` on.
pub data HeaderResult : Type 0 where
  block_read : Bytes → List Slice → HeaderResult
  block_failed : Bytes → Fault → HeaderResult

abbrev pub too_large : HeaderResult
too_large = block_failed [] headers_too_large

unfoldable pub header_loop : ℕ → Bytes → Fault → Bytes → Bytes → List Slice → HeaderResult
header_loop limit rest fault block line [] =
    if leb limit (length block)
    then too_large
    else if ltb limit (length block + length rest)
    then too_large
    else block_failed (block ++ rest) fault
header_loop limit rest fault block line (full fragment ∷ slices) =
    let onward = header_loop limit rest fault (block ++ fragment) (line ++ fragment) slices in
    if leb limit (length block)
    then too_large
    else if ltb limit (length block + length fragment)
    then too_large
    else onward
header_loop limit rest fault block line (found fragment ∷ slices) =
    let onward = header_loop limit rest fault (block ++ fragment) [] slices in
    if leb limit (length block)
    then too_large
    else if ltb limit (length block + length fragment)
    then too_large
    else if is_blank (line ++ fragment)
    then block_read (block ++ fragment) slices
    else onward

unfoldable pub read_header_block : Reader → HeaderResult
unfolding header_loop
read_header_block reader =
    header_loop max_response_header_bytes reader.rest reader.fault [] [] reader.slices

-- An `io.Writer`: what it was given so far, and for each of its next calls how much it takes and the
-- error. It takes no more than it is given. Behind the list it takes everything.
pub record Writer : Type 0 where
  pub out : Bytes
  pub answers : List (ℕ × Option Fault)

unfoldable pub write_loop : Bytes → Bytes → List (ℕ × Option Fault) → Writer × Option Fault
write_loop out [] answers = (record { out = out; answers = answers }, none)
write_loop out (b ∷ data') [] = (record { out = out ++ b ∷ data'; answers = [] }, none)
write_loop out (b ∷ data') ((k, some e) ∷ answers) =
    (record { out = out ++ take k (b ∷ data'); answers = answers }, some e)
write_loop out (b ∷ data') ((zero, none) ∷ answers) =
    (record { out = out; answers = answers }, some other_fault)
write_loop out (b ∷ data') ((suc k, none) ∷ answers) =
    write_loop (out ++ take (suc k) (b ∷ data')) (drop (suc k) (b ∷ data')) answers

unfoldable pub write_all : Writer → Bytes → Writer × Option Fault
unfolding write_loop
write_all w text = write_loop w.out text w.answers

-- `trackingWriter.Write`: the error is `io.ErrShortWrite` if less was taken without one.
abbrev pub tracked :
    Bytes → Bytes → ℕ → Option Fault → List (ℕ × Option Fault) → Writer × Option Fault
tracked out text k (some e) answers =
    (record { out = out ++ take k text; answers = answers }, some e)
tracked out text k none answers = (
  record { out = out ++ take k text; answers = answers },
  if ltb k (length text) then some other_fault else none,
)

unfoldable pub tracking_write : Writer → Bytes → Writer × Option Fault
tracking_write w text = elim w.answers [
  | [] ↦ (record { out = w.out ++ text; answers = [] }, none)
  | (k, e) ∷ answers ↦ tracked w.out text k e answers
]

-- `io.Copy` from a body that comes in pieces and ends with an error or at its end: the writer with
-- its error, and the error of the copy.
pub record Copied : Type 0 where
  pub writer : Writer
  pub tracker_error : Option Fault
  pub copy_error : Option Fault

unfoldable pub copy : Writer → List Bytes → Option Fault → Copied
copy w [] end = record { writer = w; tracker_error = none; copy_error = end }
copy w (piece ∷ pieces) end =
    let (w', e) = tracking_write w piece in
    let onward = copy w' pieces end in
    elim e [
      | some x ↦ record { writer = w'; tracker_error = some x; copy_error = some x }
      | none ↦ onward
    ]

-- What `http.ReadResponse` makes of a header block and the reader behind it.
pub record Response : Type 0 where
  pub status_code : ℕ
  pub close : Bool
  pub body : List Bytes
  pub body_end : Option Fault
  pub next : Reader

unfoldable pub receive_error : Fault → Bool → Option ℕ → ℕ
receive_error e expired header_error = if is_timeout e || expired then 28 else elim header_error [
  | some n ↦ if e.is_headers_too_large then 8 else if e.is_eof && n == 0 then 52 else 56
  | none ↦ 8
]

abbrev pub is_interim : ℕ → Bool
is_interim status = leb 100 status && ltb status 200 && not (status == 101)

-- `readResponse` ends with the reader behind the response and whether the connection may be used
-- again, or with an exit code.
pub data Received : Type 0 where
  received : Reader → Bool → Writer → Received
  failed : ℕ → Writer → Received
  out_of_fuel : Received

unfoldable pub body_failed : Fault → Bool → ℕ
body_failed e expired =
    if is_timeout e || expired then 28 else if e.is_unexpected_eof then 18 else 56

unfoldable pub copy_body : Writer → Response → Bool → Received
copy_body w response expired =
    let c = copy w response.body response.body_end in
    elim c.tracker_error [
      | some _ ↦ failed 23 c.writer
      | none ↦ elim c.copy_error [
        | some e ↦ failed (body_failed e expired) c.writer
        | none ↦ received response.next (not response.close) c.writer
      ]
    ]

-- `if include { writeAll(stdout, headerBlock) }`.
unfoldable pub write_block : Bool → Writer → Bytes → Writer × Option Fault
write_block false w block = (w, none)
write_block true w block = write_all w block

-- One round of `readResponse` behind its header block; `onward` is the next round.
unfoldable pub after_header :
    Bool → Bool → Writer → Bytes → (Writer → Reader → Received) → Result Fault Response → Received
after_header include expired w block onward (err e) = failed (receive_error e expired none) w
after_header include expired w block onward (ok response) =
    let (w', e) = write_block include w block in
    if is_interim response.status_code
    then elim e [ some _ ↦ failed 23 w' | none ↦ onward w' response.next ]
    else if response.status_code == 101
    then failed 8 w
    else elim e [ some _ ↦ failed 23 w' | none ↦ copy_body w' response expired ]

unfoldable pub response_round :
    (Bytes → Reader → Result Fault Response)
    → Bool
    → Bool
    → Writer
    → Reader
    → (Writer → Reader → Received)
    → HeaderResult
    → Received
response_round parse include expired w reader onward (block_failed block e) =
    failed (receive_error e expired (some (length block))) w
response_round parse include expired w reader onward (block_read block slices) =
    after_header include expired w block onward (parse block (record reader { slices = slices }))

-- `readResponse`; `parse` is `http.ReadResponse`, and `expired` is `ctx.Err() != nil`, which is asked
-- once at most.
unfoldable pub read_response :
    ℕ → (Bytes → Reader → Result Fault Response) → Bool → Bool → Writer → Reader → Received
read_response zero parse include expired w reader = out_of_fuel
read_response (suc f) parse include expired w reader =
    response_round parse include expired w reader (read_response f parse include expired)
      (read_header_block reader)
