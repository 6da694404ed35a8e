-- ===== src/Connect/Dial.antt =====
-- internal/curlu/client.go: `dial`, `dialResolved`, `connect` and `connectFailure`; tcpraw.go:
-- `lookupIPv4` and `dialJA4TAddrs`. An exit error is its code.
use curlu.Base.{
  ℕ, suc, Bool, not, ◌&&◌, Option, none, some, List, [], ◌∷◌, ◌++◌, if◌then◌else◌, Bytes, codes,
  Result, ok, err, ◌>>=◌, same,
}
use curlu.Text.{contains_byte}
use curlu.Number.{parse_uint, max_u16}
use curlu.Fault.{Fault, other_fault, ipv4_only, is_timeout}
use curlu.Fingerprint.{Fingerprint}
use curlu.Options.{Options, Outside}
use curlu.Request.{Url}
use curlu.Resolve.{lookup_resolve}
use curlu.Hello.{tls_server_name}
use curlu.Connect.Defs.{https, target_port}

-- An attempt to connect, with `ctx.Err() != nil` behind it.
pub record Attempt (C : Type 0) : Type 0 where
  pub outcome : Result Fault C
  pub expired : Bool

-- What the system does: attempts to connect by their number, network and address, those with a
-- crafted SYN by their number, address and port, and `LookupIP` by the texts of its addresses.
pub record Net (C : Type 0) : Type 0 where
  pub dial_context : ℕ → Bytes → Bytes → Attempt C
  pub start_ja4t : ℕ → Bytes → ℕ → Fingerprint → Attempt C
  pub lookup_ip4 : Bytes → Result Fault (List Bytes)

-- `net.JoinHostPort`.
unfoldable pub join_host_port : Bytes → Bytes → Bytes
join_host_port host port =
    if contains_byte b':' host
    then (b'[' ∷ []) ++ host ++ (b']' ∷ b':' ∷ []) ++ port
    else host ++ (b':' ∷ []) ++ port

unfoldable pub family_network : Options → Bytes → Bytes
family_network o network = network ++ o.ip_family

-- `ip.To4() != nil`, for an address that `String` has printed.
unfoldable pub is_ipv4 : Bytes → Bool
is_ipv4 ip = not (contains_byte b':' ip)

unfoldable pub keep_ipv4 : List Bytes → List Bytes
keep_ipv4 [] = []
keep_ipv4 (ip ∷ ips) = if is_ipv4 ip then ip ∷ keep_ipv4 ips else keep_ipv4 ips

abbrev pub some_address : List Bytes → Result Fault (List Bytes)
some_address [] = err ipv4_only
some_address (addr ∷ addrs) = ok (addr ∷ addrs)

-- `ip.To4()` of a parsed address.
unfoldable pub to4 : Outside → Bytes → Option Bytes
to4 x addr = elim (x.parse_ip addr) [ none ↦ none | some ip ↦ if is_ipv4 ip then some ip else none ]

-- An attempt that failed ends the loop if the context is done.
abbrev pub tried : {C : Type 0} → Attempt C → (Fault → Result Fault C) → Result Fault C
tried a onward = elim a.outcome [
  | ok conn ↦ ok conn
  | err e ↦ if a.expired then err e else onward e
]

abbrev pub last_error : Option Fault → Fault
last_error none = other_fault
last_error (some e) = e

module _ {C : Type 0} (x : Outside) (net : Net C) where
  unfoldable pub lookup_ipv4 : Bytes → Result Fault (List Bytes)
  lookup_ipv4 host = elim (x.parse_ip host) [
    | some ip ↦ if is_ipv4 ip then ok (ip ∷ []) else err ipv4_only
    | none ↦ net.lookup_ip4 host >>= λ ips. some_address (keep_ipv4 ips)
  ]

  -- The loop of `dialResolved`, at the attempt `i`, with `lastErr`.
  unfoldable pub dial_each : Bytes → Bytes → ℕ → Option Fault → List Bytes → Result Fault C
  dial_each network port i last [] = err (last_error last)
  dial_each network port i last (addr ∷ addrs) =
      tried (net.dial_context i network (join_host_port addr port))
        (λ e. dial_each network port (suc i) (some e) addrs)

  unfoldable pub dial_resolved : Bytes → List Bytes → Bytes → Result Fault C
  dial_resolved network addrs port = dial_each network port 0 none addrs

  -- The loop of `dialJA4TAddrs`. `last` is there once an IPv4 address was seen.
  unfoldable pub dial_ja4t_each : ℕ → Fingerprint → ℕ → Option Fault → List Bytes → Result Fault C
  dial_ja4t_each port fp i none [] = err ipv4_only
  dial_ja4t_each port fp i (some e) [] = err e
  dial_ja4t_each port fp i last (addr ∷ addrs) = elim (to4 x addr) [
    | none ↦ dial_ja4t_each port fp i last addrs
    | some ip ↦
        tried (net.start_ja4t i ip port fp) (λ e. dial_ja4t_each port fp (suc i) (some e) addrs)
  ]

  unfoldable pub dial_ja4t_addrs : List Bytes → Bytes → Fingerprint → Result Fault C
  dial_ja4t_addrs addrs port fp = elim (parse_uint 10 max_u16 port) [
    | none ↦ err other_fault
    | some n ↦ dial_ja4t_each n fp 0 none addrs
  ]

  -- The addresses of the rules if there are some, and else those that are looked up.
  abbrev pub or_lookup : List Bytes → Result Fault (List Bytes) → Result Fault (List Bytes)
  or_lookup [] looked_up = looked_up
  or_lookup (addr ∷ addrs) looked_up = ok (addr ∷ addrs)

  abbrev pub dial_plain : Bytes → Bytes → Bytes → List Bytes → Result Fault C
  dial_plain network host port [] = (net.dial_context 0 network (join_host_port host port)).outcome
  dial_plain network host port (addr ∷ addrs) = dial_resolved network (addr ∷ addrs) port

  unfoldable pub dial_by : Option Fingerprint → Options → Bytes → Bytes → Result Fault C
  dial_by none o host port =
      dial_plain (family_network o (codes "tcp")) host port (lookup_resolve x o.resolve host port)
  dial_by (some fp) o host port =
      or_lookup (lookup_resolve x o.resolve host port) (lookup_ipv4 host) >>= λ addrs.
      dial_ja4t_addrs addrs port fp

  unfoldable pub dial : Options → Bytes → Bytes → Result Fault C
  unfolding dial_by
  dial o host port = dial_by o.ja4t o host port

unfoldable pub connect_failure : Fault → ℕ
connect_failure e =
    if is_timeout e then 28 else if e.is_ipv4_only then 2 else if e.dns then 6 else 7

-- What `connect` returns, with the connections that it has closed.
pub record Connected (C : Type 0) : Type 0 where
  pub outcome : Result ℕ (C × Bytes)
  pub closed : List C

module _ {C : Type 0} (x : Outside) (net : Net C) where
  -- The deadline of the transfer: `set_deadline` says whether setting it fails.
  abbrev pub with_deadline : Bool → (C → Bool) → C → Bytes → Connected C
  with_deadline has_deadline set_deadline conn proto =
      if has_deadline && set_deadline conn
      then record { outcome = err 55; closed = conn ∷ [] }
      else record { outcome = ok (conn, proto); closed = [] }

  abbrev pub handshaken : Bool → (C → Bool) → C → Result ℕ (C × Bytes) → Connected C
  handshaken has_deadline set_deadline conn (err code) = record {
    outcome = err code;
    closed = conn ∷ [];
  }
  handshaken has_deadline set_deadline conn (ok (tls_conn, proto)) =
      with_deadline has_deadline set_deadline tls_conn proto

  -- `handshake` is `handshakeUTLS` on a connection, for a server name.
  unfoldable pub connect :
      Options → Url → (C → Bytes → Result ℕ (C × Bytes)) → Bool → (C → Bool) → Connected C
  connect o target handshake has_deadline set_deadline =
      elim (dial x net o target.hostname (target_port target)) [
        | err e ↦ record { outcome = err (connect_failure e); closed = [] }
        | ok conn ↦
            if same target.scheme https
            then handshaken has_deadline set_deadline conn
                (handshake conn (tls_server_name x target.hostname o.insecure))
            else with_deadline has_deadline set_deadline conn []
      ]
