-- ===== src/Tcp/Route.antt =====
-- internal/curlu/tcpraw.go: `parseProcNetRouteGateway`.
use curlu.Base.{
  ℕ, List, [], ◌∷◌, ◌/◌, ◌%◌, ◌^◌, ◌==◌, if◌then◌else◌, Option, none, some, Bytes, codes, Result,
  ok, err, same,
}
use curlu.Text.{split, fields}
use curlu.Number.{parse_uint, max_u32}

pub data RouteError : Type 0 where
  bad_address no_gateway : RouteError

-- The bytes of the address in network order, the lowest byte of the number first.
unfoldable pub address_bytes : ℕ → Bytes
address_bytes raw =
    raw % 2 ^ 8 ∷ raw / 2 ^ 8 % 2 ^ 8 ∷ raw / 2 ^ 16 % 2 ^ 8 ∷ raw / 2 ^ 24 % 2 ^ 8 ∷ []

-- A line of the table: the result, or that the loop goes on.
abbrev pub gateway_field : Bytes → Option (Result RouteError Bytes)
gateway_field text = elim (parse_uint 16 max_u32 text) [
  | none ↦ some (err bad_address)
  | some raw ↦ if raw == 0 then none else some (ok (address_bytes raw))
]

abbrev pub route_fields : List Bytes → Option (Result RouteError Bytes)
route_fields (_ ∷ destination ∷ gateway ∷ _) =
    if same destination (codes "00000000") then gateway_field gateway else none
route_fields _ = none

unfoldable pub route_lines : List Bytes → Result RouteError Bytes
route_lines [] = err no_gateway
route_lines (line ∷ lines) =
    let onward = route_lines lines in
    elim (route_fields (fields line)) [ some r ↦ r | none ↦ onward ]

abbrev pub rows : List Bytes → List Bytes
rows [] = []
rows (_ ∷ lines) = lines

unfoldable pub parse_proc_net_route_gateway : Bytes → Result RouteError Bytes
unfolding route_lines address_bytes
parse_proc_net_route_gateway text = route_lines (rows (split 10 text))
