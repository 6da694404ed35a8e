-- ===== src/Connect/Reach.antt =====
-- internal/curlu/client.go and tcpraw.go: `dial`, by the attempts that it makes.
use curlu.Base.{
  ℕ, suc, Option, none, some, List, [], ◌∷◌, ◌≡◌, inl, inr, ◌↔◌, Bytes, codes, ok, >>=-eq-ok,
  Option-cases,
}
use curlu.Number.{parse_uint, max_u16}
use curlu.Fault.{Fault}
use curlu.Fingerprint.{Fingerprint}
use curlu.Options.{Options, Outside}
use curlu.Resolve.{lookup_resolve}
use curlu.Connect.Dial.{
  Attempt, Net, join_host_port, family_network, to4, lookup_ipv4, dial_each, dial_resolved,
  dial_ja4t_each, dial_ja4t_addrs, or_lookup, dial_plain, dial_by, dial,
}
use curlu.Connect.Attempts.{
  Reached, tried-ok, tried_answers, tried_onward, Reached-first, Reached-later, Reached-cases,
  Reached-none,
}

-- The IPv4 addresses among those that are given.
abbrev pub or_skip : Option Bytes → List Bytes → List Bytes
or_skip none ips = ips
or_skip (some ip) ips = ip ∷ ips

unfoldable pub ipv4_of : Outside → List Bytes → List Bytes
ipv4_of x [] = []
ipv4_of x (addr ∷ addrs) = or_skip (to4 x addr) (ipv4_of x addrs)

module _ {C : Type 0} (x : Outside) (net : Net C) where
  abbrev pub plain_attempt : Bytes → Bytes → ℕ → Bytes → Attempt C
  plain_attempt network port i addr = net.dial_context i network (join_host_port addr port)

  abbrev pub crafted_attempt : ℕ → Fingerprint → ℕ → Bytes → Attempt C
  crafted_attempt port fp i ip = net.start_ja4t i ip port fp

  dial_each-Reached :
      (network port : Bytes) (i : ℕ) (last : Option Fault) (addrs : List Bytes) {conn : C}
      → dial_each x net network port i last addrs ≡ ok conn
      → Reached (plain_attempt network port) i addrs conn
  unfolding dial_each
  dial_each-Reached network port i last [] h = absurd (cc h)
  dial_each-Reached network port i last (addr ∷ addrs) h =
      let attempt = plain_attempt network port in
      elim (tried-ok (attempt i addr) _ h) [
        | inl k ↦ Reached-first attempt i addr addrs k
        | inr (f, (e, k)) ↦
            Reached-later attempt i addr addrs f
              (dial_each-Reached network port (suc i) (some e) addrs k)
      ]

  dial_each_complete :
      (network port : Bytes) (i : ℕ) (last : Option Fault) (addrs : List Bytes) {conn : C}
      → Reached (plain_attempt network port) i addrs conn
      → dial_each x net network port i last addrs ≡ ok conn
  unfolding dial_each
  dial_each_complete network port i last [] r =
      absurd (Reached-none (plain_attempt network port) i r)
  dial_each_complete network port i last (addr ∷ addrs) r =
      let attempt = plain_attempt network port in
      elim (Reached-cases attempt i addr addrs r.front r.back r.addr r.whole r.failed r.answers) [
        | inl k ↦ tried_answers (attempt i addr) _ k
        | inr (f, later) ↦
            tried_onward (attempt i addr) _ f
              (λ e. dial_each_complete network port (suc i) (some e) addrs later)
      ]

  dial_ja4t_each-Reached :
      (port : ℕ) (fp : Fingerprint) (i : ℕ) (last : Option Fault) (addrs : List Bytes) {conn : C}
      → dial_ja4t_each x net port fp i last addrs ≡ ok conn
      → Reached (crafted_attempt port fp) i (ipv4_of x addrs) conn
  unfolding dial_ja4t_each ipv4_of
  dial_ja4t_each-Reached port fp i none [] h = absurd (cc h)
  dial_ja4t_each-Reached port fp i (some e) [] h = absurd (cc h)
  dial_ja4t_each-Reached port fp i last (addr ∷ addrs) h = elim (Option-cases (to4 x addr)) [
    | inl k ↦
        rw (k, ipv4_of) (dial_ja4t_each-Reached port fp i last addrs (rw (k, dial_ja4t_each) at h))
    | inr (ip, k) ↦
        let attempt = crafted_attempt port fp in
        rw (k, ipv4_of)
          (elim (tried-ok (attempt i ip) _ (rw (k, dial_ja4t_each) at h)) [
            | inl a ↦ Reached-first attempt i ip (ipv4_of x addrs) a
            | inr (f, (e, a)) ↦
                Reached-later attempt i ip (ipv4_of x addrs) f
                  (dial_ja4t_each-Reached port fp (suc i) (some e) addrs a)
          ])
  ]

  dial_ja4t_each_complete :
      (port : ℕ) (fp : Fingerprint) (i : ℕ) (last : Option Fault) (addrs : List Bytes) {conn : C}
      → Reached (crafted_attempt port fp) i (ipv4_of x addrs) conn
      → dial_ja4t_each x net port fp i last addrs ≡ ok conn
  unfolding dial_ja4t_each ipv4_of
  dial_ja4t_each_complete port fp i last [] r = absurd (Reached-none (crafted_attempt port fp) i r)
  dial_ja4t_each_complete port fp i last (addr ∷ addrs) {conn} r =
      elim (Option-cases (to4 x addr)) [
        | inl k ↦
            rw (k, dial_ja4t_each)
              (dial_ja4t_each_complete port fp i last addrs (rw (k, ipv4_of) at r))
        | inr (ip, k) ↦
            let attempt = crafted_attempt port fp in
            let q : Reached attempt i (ip ∷ ipv4_of x addrs) conn = rw (k, ipv4_of) at r in
            rw (k, dial_ja4t_each)
              (elim (Reached-cases attempt i ip (ipv4_of x addrs) q.front q.back q.addr q.whole
                q.failed q.answers) [
                  | inl a ↦ tried_answers (attempt i ip) _ a
                  | inr (f, later) ↦
                      tried_onward (attempt i ip) _ f
                        (λ e. dial_ja4t_each_complete port fp (suc i) (some e) addrs later)
                ])
      ]

  abbrev pub or_host : Bytes → List Bytes → List Bytes
  or_host host [] = host ∷ []
  or_host host (addr ∷ addrs) = addr ∷ addrs

  dial_ja4t_addrs_complete :
      (addrs : List Bytes) (port : Bytes) (fp : Fingerprint) {n : ℕ} {conn : C}
      → parse_uint 10 max_u16 port ≡ some n
      → Reached (crafted_attempt n fp) 0 (ipv4_of x addrs) conn
      → dial_ja4t_addrs x net addrs port fp ≡ ok conn
  unfolding dial_ja4t_addrs
  dial_ja4t_addrs_complete addrs port fp {n} e r =
      rw (e, dial_ja4t_addrs) (dial_ja4t_each_complete n fp 0 none addrs r)

  -- How a connection to a host and port comes about: an IP address by a crafted SYN if there is a
  -- fingerprint, and else any address by the system.
  abbrev pub DialsBy : Option Fingerprint → Options → Bytes → Bytes → C → Type 0
  DialsBy none o host port conn =
      Reached (plain_attempt (family_network o (codes "tcp")) port) 0
        (or_host host (lookup_resolve x o.resolve host port)) conn
  DialsBy (some fp) o host port conn =
      (n : ℕ) × (addrs : List Bytes) × (parse_uint 10 max_u16 port ≡ some n)
      × (or_lookup x net (lookup_resolve x o.resolve host port) (lookup_ipv4 x net host) ≡ ok addrs)
      × Reached (crafted_attempt n fp) 0 (ipv4_of x addrs) conn

  dial_plain_iff :
      (network host port : Bytes) (addrs : List Bytes) {conn : C}
      → (dial_plain x net network host port addrs ≡ ok conn)
        ↔ Reached (plain_attempt network port) 0 (or_host host addrs) conn
  unfolding dial_resolved
  dial_plain_iff network host port [] = (
    λ h. Reached-first (plain_attempt network port) 0 host [] h,
    λ r.
        elim (Reached-cases (plain_attempt network port) 0 host [] r.front r.back r.addr r.whole
          r.failed r.answers) [
            | inl k ↦ k
            | inr (_, later) ↦ absurd (Reached-none (plain_attempt network port) 1 later)
          ],
  )
  dial_plain_iff network host port (addr ∷ addrs) = (
    dial_each-Reached network port 0 none (addr ∷ addrs),
    dial_each_complete network port 0 none (addr ∷ addrs),
  )

  dial_ja4t_addrs_sound :
      (addrs : List Bytes) (port : Bytes) (fp : Fingerprint) {conn : C}
      → dial_ja4t_addrs x net addrs port fp ≡ ok conn
      → (n : ℕ) × (parse_uint 10 max_u16 port ≡ some n)
        × Reached (crafted_attempt n fp) 0 (ipv4_of x addrs) conn
  unfolding dial_ja4t_addrs
  dial_ja4t_addrs_sound addrs port fp h = elim (Option-cases (parse_uint 10 max_u16 port)) [
    | inl e ↦ absurd (let h' = rw (e, dial_ja4t_addrs) at h in cc h')
    | inr (n, e) ↦ (n, e, dial_ja4t_each-Reached n fp 0 none addrs (rw (e, dial_ja4t_addrs) at h))
  ]

  dial_by_iff :
      (m : Option Fingerprint) (o : Options) (host port : Bytes) (conn : C)
      → (dial_by x net m o host port ≡ ok conn) ↔ DialsBy m o host port conn
  unfolding dial_by
  dial_by_iff none o host port conn =
      dial_plain_iff (family_network o (codes "tcp")) host port
        (lookup_resolve x o.resolve host port)
  dial_by_iff (some fp) o host port conn =
      let candidates =
        or_lookup x net (lookup_resolve x o.resolve host port) (lookup_ipv4 x net host) in
      (
        λ h.
            let (addrs, found, reached) = >>=-eq-ok candidates _ h in
            let (n, number, r) = dial_ja4t_addrs_sound addrs port fp reached in
            (n, addrs, number, found, r),
        λ (n, addrs, number, found, r). rw found (dial_ja4t_addrs_complete addrs port fp number r),
      )

  -- `dial` connects if and only if one of its candidates answers, and then to the first one that does,
  -- in their order, where those before it failed and the context was alive behind each. Without a
  -- fingerprint the candidates are the addresses of the rules, or the host itself if they say nothing,
  -- in the network of the chosen family; with one they are the IPv4 addresses among those of the rules
  -- or, if these say nothing, of a successful look-up, and the port is a number up to 65535.
  pub dial_iff :
      (o : Options) (host port : Bytes) (conn : C)
      → (dial x net o host port ≡ ok conn) ↔ DialsBy o.ja4t o host port conn
  unfolding dial
  dial_iff o host port conn = dial_by_iff o.ja4t o host port conn
