-- ===== src/Connect/Quic.antt =====
-- internal/curlu/http3.go: `connectQUIC`, `splitDeadline`, `quicAddresses`, `quicPeerAnswered` and
-- `quicConnectFailure`. Times are counted from one moment on; an exit error is its code.
use curlu.Base.{
  ℕ, suc, Bool, true, false, ◌||◌, Option, none, some, List, [], ◌∷◌, ◌-◌, ◌/◌, if◌then◌else◌,
  Bytes, codes, length, Result, ok, err,
}
use curlu.Fault.{Fault, is_cert_verify_error}
use curlu.Options.{Options, Outside}
use curlu.Resolve.{lookup_resolve}
use curlu.Connect.Dial.{Attempt, family_network, last_error, connect_failure}

-- What the system and quic-go do: `LookupIP` in a network by the texts of its addresses, and the
-- attempt with a number at an address, with its budget, and the time behind it.
pub record QuicNet (C : Type 0) : Type 0 where
  pub lookup_ip : Bytes → Bytes → Result Fault (List Bytes)
  pub dial_quic : ℕ → Bytes → Option ℕ → Attempt C
  pub time_behind : ℕ → ℕ

-- The budget of an attempt, from the deadline of the context if it has one. Behind the deadline the
-- source's is negative, and the attempt fails at once, as it does with nothing left.
unfoldable pub split_deadline : Option ℕ → ℕ → ℕ → Option ℕ
split_deadline none now remaining = none
split_deadline (some deadline) now remaining = some ((deadline - now) / remaining)

unfoldable pub quic_peer_answered : Fault → Bool
quic_peer_answered e =
    is_cert_verify_error e || elim e.transport [ none ↦ false | some _ ↦ true ] || e.application

unfoldable pub quic_connect_failure : Fault → Bool → ℕ
quic_connect_failure e expired = if is_cert_verify_error e then 60 else elim e.transport [
  | some is_crypto ↦ if is_crypto then 35 else 96
  | none ↦ if e.application then 96 else if expired then 28 else connect_failure e
]

module _ {C : Type 0} (x : Outside) (net : QuicNet C) where
  -- The addresses of the rules, or the host if it is one, or those that are looked up.
  abbrev pub or_looked_up : Options → Bytes → List Bytes → Result Fault (List Bytes)
  or_looked_up o host (addr ∷ addrs) = ok (addr ∷ addrs)
  or_looked_up o host [] = elim (x.parse_ip host) [
    | some _ ↦ ok (host ∷ [])
    | none ↦ net.lookup_ip (family_network o (codes "ip")) host
  ]

  unfoldable pub quic_addresses : Options → Bytes → Bytes → Result Fault (List Bytes)
  quic_addresses o host port = or_looked_up o host (lookup_resolve x o.resolve host port)

  -- An attempt that failed ends the loop if the context is done or the server itself answered.
  abbrev pub quic_tried : Attempt C → (Fault → Result Fault C) → Result Fault C
  quic_tried a onward = elim a.outcome [
    | ok conn ↦ ok conn
    | err e ↦ if a.expired || quic_peer_answered e then err e else onward e
  ]

  -- The loop of `connectQUIC`, at the attempt `i` and the time `now`, with `lastErr`.
  unfoldable pub quic_each : Option ℕ → ℕ → ℕ → Option Fault → List Bytes → Result Fault C
  quic_each deadline i now last [] = err (last_error last)
  quic_each deadline i now last (addr ∷ addrs) =
      quic_tried (net.dial_quic i addr (split_deadline deadline now (length (addr ∷ addrs))))
        (λ e. quic_each deadline (suc i) (net.time_behind i) (some e) addrs)

  abbrev pub quic_connected : Bool → Result Fault C → Result ℕ C
  quic_connected expired (ok conn) = ok conn
  quic_connected expired (err e) = err (quic_connect_failure e expired)

  abbrev pub quic_looked_up : Option ℕ → ℕ → Bool → Result Fault (List Bytes) → Result ℕ C
  quic_looked_up deadline now expired (err e) = err (connect_failure e)
  quic_looked_up deadline now expired (ok addrs) =
      quic_connected expired (quic_each deadline 0 now none addrs)

  -- `expired` is `ctx.Err() != nil` behind the loop.
  unfoldable pub connect_quic : Options → Bytes → Bytes → Option ℕ → ℕ → Bool → Result ℕ C
  connect_quic o host port deadline now expired =
      quic_looked_up deadline now expired (quic_addresses o host port)
