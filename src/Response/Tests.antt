-- ===== src/Response/Tests.antt =====
-- A response behind an interim one, cut into slices, and the theorems there.
use curlu.Base.{
  true, false, none, List, [], ◌∷◌, ◌++◌, ◌≤◌, ◌≡◌, ◌≢◌, ◌↔◌, refl, arith, Bytes, codes, length,
  Result, ok, same, if◌then◌else◌,
}
use curlu.Text.{Lacks}
use curlu.Fault.{Fault, eof_fault}
use curlu.Response.Defs.{
  Slice, found, full, Reader, block_read, max_response_header_bytes, read_header_block, Writer,
  write_all, Response, Received, received, out_of_fuel, read_response,
}
use curlu.Response.Block.{IsReader, IsBlock, stream}
use curlu.Response.Header.{read_header_block_iff}
use curlu.Response.Reply.{Replies, read_response-Replies}
use curlu.Response.Fuel.{read_response-ne-fuel}

abbrev behind : Reader
behind = record { slices = []; rest = []; fault = eof_fault }

abbrev final_slices : List Slice
final_slices = full (codes "HTTP/1") ∷ found (codes ".1 200" ++ 10 ∷ []) ∷ found (13 ∷ 10 ∷ []) ∷ []

abbrev answer : Reader
answer = record { slices = final_slices; rest = []; fault = eof_fault }

abbrev interim_first : Reader
interim_first = record answer {
  slices = found (codes "HTTP/1.1 100" ++ 10 ∷ []) ∷ found (10 ∷ []) ∷ final_slices;
}

abbrev block : Bytes
block = codes "HTTP/1.1 200" ++ 10 ∷ 13 ∷ 10 ∷ []

-- A status line of a single digit behind the version, and a body of two pieces.
abbrev parse : Bytes → Reader → Result Fault Response
parse text reader =
    if same text block
    then ok (record {
      status_code = 200;
      close = true;
      body = codes "ab" ∷ codes "c" ∷ [];
      body_end = none;
      next = reader;
    })
    else ok (record { status_code = 100; close = false; body = []; body_end = none; next = reader })

-- An output that takes one byte, two bytes and then everything.
abbrev slow : Writer
slow = record { out = codes ">"; answers = (1, none) ∷ (2, none) ∷ [] }

status_line : Lacks 10 (codes ".1 200")
status_line =
    (omega arith, (omega arith, (omega arith, (omega arith, (omega arith, (omega arith, tt))))))

answer-IsReader : IsReader answer
answer-IsReader = record {
  slices = (
    (omega arith, (omega arith, (omega arith, (omega arith, (omega arith, (omega arith, tt)))))),
    ((codes ".1 200", refl, status_line), ((13 ∷ [], refl, (omega arith, tt)), tt)),
  );
  rest = tt;
}

read_header_block_iff_example :
    ((after : List Slice) × (read_header_block answer ≡ block_read block after)
      × (stream after [] ≡ []))
    ↔ (IsBlock block
        × (length block ≤ max_response_header_bytes)
        × (stream final_slices [] ≡ block ++ []))
read_header_block_iff_example = read_header_block_iff answer block [] answer-IsReader

abbrev written : Writer
written = record { out = codes ">HTTP/1.1 100" ++ 10 ∷ 10 ∷ block ++ codes "abc"; answers = [] }

response_read : read_response 6 parse true false slow interim_first ≡ received behind false written
unfolding read_response curlu.Response.Defs.response_round read_header_block same
    curlu.Response.Defs.after_header curlu.Response.Defs.write_block write_all
    curlu.Response.Defs.copy_body curlu.Response.Defs.copy curlu.Response.Defs.tracking_write
response_read = refl

read_response-Replies_example :
    (text : Bytes) × Replies parse true interim_first text behind false
    × (written.out ≡ codes ">" ++ text)
read_response-Replies_example =
    read_response-Replies 6 parse true false slow interim_first response_read

parse_keeps :
    (text : Bytes) (r : Reader) (response : Response)
    → parse text r ≡ ok response
    → length response.next.slices ≤ length r.slices
parse_keeps text r response h = ground arith

read_response-ne-fuel_example : read_response 6 parse true false slow interim_first ≢ out_of_fuel
read_response-ne-fuel_example =
    read_response-ne-fuel 6 parse true false slow interim_first parse_keeps (omega arith)
