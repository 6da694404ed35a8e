-- ===== src/Muxed/Loop.antt =====
-- internal/curlu/http2.go: a round of the loop of `buildMuxedRequest`, and the loop.
use curlu.Base.{
  Bool, true, false, not, ◌&&◌, ◌||◌, List, [], ◌∷◌, ◌++◌, append-nil, ◌≡◌, ◌⊎◌, inl, inr, refl,
  sym, ap, ◌∙◌, arith, if◌then◌else◌, if-by, Bytes, codes, same, same_iff, same_refl, Bool-cases,
}
use curlu.Text.{to_lower, lower_byte, trim_space}
use curlu.Request.{Url, RequestHeader, request_host}
use curlu.Muxed.Defs.{
  set_header, add_header, hop_by_hop_header, MuxedRequest, user_agent, apply_header,
}
use curlu.Muxed.Values.{under, under-set, under-add}

-- The ways a header is applied.
pub data Applied (target : Url) (req : MuxedRequest) (h : RequestHeader)
    : MuxedRequest → Type 0 where
  to_host :
      same (to_lower h.name) (codes "host") ≡ true
      → Applied target req h
          (record req { host = if h.suppress then request_host target else trim_space h.value })
  dropped :
      same (to_lower h.name) (codes "host") ≡ false
      → (h.suppress ≡ true) ⊎ (hop_by_hop_header (to_lower h.name) ≡ true)
      → Applied target req h req
  to_agent :
      h.suppress ≡ false
      → same (to_lower h.name) (codes "host") ≡ false
      → same (to_lower h.name) (codes "user-agent") ≡ true
      → Applied target req h
          (record req { header = set_header user_agent (trim_space h.value) req.header })
  added :
      h.suppress ≡ false
      → same (to_lower h.name) (codes "host") ≡ false
      → same (to_lower h.name) (codes "user-agent") ≡ false
      → hop_by_hop_header (to_lower h.name) ≡ false
      → Applied target req h
          (record req { header = add_header h.name (trim_space h.value) req.header })

pub apply_header-Applied :
    (target : Url) (req : MuxedRequest) (h : RequestHeader)
    → Applied target req h (apply_header target req h)
unfolding apply_header
apply_header-Applied target req h =
    if-by (Applied target req h) (same (to_lower h.name) (codes "host")) (λ e. to_host e)
      (λ e.
        if-by (Applied target req h) (h.suppress || hop_by_hop_header (to_lower h.name))
          (λ d. dropped e (ground (arith, d)))
          (λ d.
            if-by (Applied target req h) (same (to_lower h.name) (codes "user-agent"))
              (λ a. to_agent (ground (arith, d)) e a)
              (λ a. added (ground (arith, d)) e a (ground (arith, d)))))

abbrev pub given_one : Bytes → RequestHeader → List Bytes
given_one n h =
    if not h.suppress && same (to_lower h.name) (to_lower n) then trim_space h.value ∷ [] else []

-- The values given for a name, whatever its case, in order.
unfoldable pub given : Bytes → List RequestHeader → List Bytes
given n [] = []
given n (h ∷ headers) = given_one n h ++ given n headers

-- A name that is sent under its own key.
pub record IsOrdinary (n : Bytes) : Type 0 where
  pub not_host : same (to_lower n) (codes "host") ≡ false
  pub not_agent : same (to_lower n) (codes "user-agent") ≡ false
  pub not_hop : hop_by_hop_header (to_lower n) ≡ false

-- Texts that a test tells apart.
apart : (f : Bytes → Bool) (a b : Bytes) → f a ≡ true → f b ≡ false → same a b ≡ false
apart f a b yes_a no_b = elim (Bool-cases (same a b)) [
  | inl e ↦ let e' = ap f ((same_iff a b).0 e) in absurd (cc (yes_a, no_b, e'))
  | inr e ↦ e
]

not_given :
    (n : Bytes) (h : RequestHeader)
    → (h.suppress ≡ true) ⊎ (same (to_lower h.name) (to_lower n) ≡ false)
    → given_one n h ≡ []
not_given n h (inl s) = ground (arith, s)
not_given n h (inr d) = ground (arith, d)

nothing_given :
    (n : Bytes) (h : RequestHeader) (vs : List Bytes)
    → (h.suppress ≡ true) ⊎ (same (to_lower h.name) (to_lower n) ≡ false)
    → vs ≡ vs ++ given_one n h
nothing_given n h vs d = rw (not_given n h d) (sym (append-nil vs))

abbrev pub is_host : Bytes → Bool
is_host name = same name (codes "host")

abbrev is_agent : Bytes → Bool
is_agent name = same name (codes "user-agent")

agent-lower : to_lower user_agent ≡ codes "user-agent"
unfolding to_lower lower_byte
agent-lower = refl

-- User-Agent is set for no other name.
agent_apart :
    (n : Bytes) → is_agent (to_lower n) ≡ false → same (to_lower user_agent) (to_lower n) ≡ false
agent_apart n d =
    apart is_agent (to_lower user_agent) (to_lower n)
      (rw agent-lower (same_refl (codes "user-agent"))) d

pub Applied-ordinary :
    {target : Url} {req : MuxedRequest} {h : RequestHeader} (n : Bytes) (r : MuxedRequest)
    → IsOrdinary n
    → Applied target req h r
    → under n r.header ≡ under n req.header ++ given_one n h
Applied-ordinary {req} {h} n r o (to_host e) =
    nothing_given n h (under n req.header)
      (inr (apart is_host (to_lower h.name) (to_lower n) e o.not_host))
Applied-ordinary {h} n r o (dropped e (inl s)) = nothing_given n h (under n r.header) (inl s)
Applied-ordinary {h} n r o (dropped e (inr k)) =
    nothing_given n h (under n r.header)
      (inr (apart hop_by_hop_header (to_lower h.name) (to_lower n) k o.not_hop))
Applied-ordinary {req} {h} n r o (to_agent s e a) =
    under-set user_agent n (trim_space h.value) req.header
    ∙ (rw (agent_apart n o.not_agent) (
        nothing_given n h (under n req.header)
          (inr (apart is_agent (to_lower h.name) (to_lower n) a o.not_agent))))
Applied-ordinary {req} {h} n r o (added s e a k) =
    under-add h.name n (trim_space h.value) req.header
    ∙ elim (Bool-cases (same (to_lower h.name) (to_lower n))) [
      | inl d ↦ ground (arith, d, s)
      | inr d ↦ ground (arith, d, s, append-nil (under n req.header))
    ]

-- A name that is never sent under its own key.
abbrev pub IsWithheld : Bytes → Type 0
IsWithheld n = (is_host (to_lower n) ≡ true) ⊎ (hop_by_hop_header (to_lower n) ≡ true)

agent_ne_hop : hop_by_hop_header (codes "user-agent") ≡ false
unfolding hop_by_hop_header same
agent_ne_hop = refl

agent_ne_host : is_host (codes "user-agent") ≡ false
unfolding same
agent_ne_host = refl

-- A withheld name is not User-Agent.
withheld_apart : (n : Bytes) → IsWithheld n → is_agent (to_lower n) ≡ false
withheld_apart n w = elim (Bool-cases (is_agent (to_lower n))) [
  | inr e ↦ e
  | inl e ↦
      let lowered = (same_iff (to_lower n) (codes "user-agent")).0 e in
      absurd (elim w [
        | inl k ↦ let k' = ap is_host lowered in cc (k, k', agent_ne_host)
        | inr k ↦ let k' = ap hop_by_hop_header lowered in cc (k, k', agent_ne_hop)
      ])
]

pub Applied-withheld :
    {target : Url} {req : MuxedRequest} {h : RequestHeader} (n : Bytes) (r : MuxedRequest)
    → IsWithheld n
    → Applied target req h r
    → under n r.header ≡ under n req.header
Applied-withheld n r w (to_host e) = refl
Applied-withheld n r w (dropped e d) = refl
Applied-withheld {req} {h} n r w (to_agent s e a) =
    under-set user_agent n (trim_space h.value) req.header
    ∙ (rw (agent_apart n (withheld_apart n w)) refl)
Applied-withheld {req} {h} n r w (added s e a k) =
    let other : same (to_lower h.name) (to_lower n) ≡ false =
      elim (Bool-cases (same (to_lower h.name) (to_lower n))) [
        | inr d ↦ d
        | inl d ↦
            let lowered = (same_iff (to_lower h.name) (to_lower n)).0 d in
            absurd (elim w [
              | inl q ↦ cc (q, lowered, e)
              | inr q ↦ let q' = ap hop_by_hop_header lowered in cc (q, q', k)
            ])
      ] in
    under-add h.name n (trim_space h.value) req.header ∙ (rw other refl)

-- The last of the values, or those that stood before.
abbrev pub last_of : List Bytes → List Bytes → List Bytes
last_of vs [] = vs
last_of vs (w ∷ ws) = last_of (w ∷ []) ws

pub last_of-append : (vs ws us : List Bytes) → last_of vs (ws ++ us) ≡ last_of (last_of vs ws) us
last_of-append vs [] us = refl
last_of-append vs (w ∷ ws) us = last_of-append (w ∷ []) ws us

pub Applied-agent :
    {target : Url} {req : MuxedRequest} {h : RequestHeader} (r : MuxedRequest)
    → Applied target req h r
    → under user_agent r.header ≡ last_of (under user_agent req.header) (given_one user_agent h)
Applied-agent {req} {h} r (to_host e) =
    let d =
      apart is_host (to_lower h.name) (to_lower user_agent) e (rw agent-lower agent_ne_host) in
    sym (ap (last_of (under user_agent req.header)) (not_given user_agent h (inr d)))
Applied-agent {h} r (dropped e (inl s)) =
    sym (ap (last_of (under user_agent r.header)) (not_given user_agent h (inl s)))
Applied-agent {h} r (dropped e (inr k)) =
    let d =
      apart hop_by_hop_header (to_lower h.name) (to_lower user_agent) k
        (rw agent-lower agent_ne_hop) in
    sym (ap (last_of (under user_agent r.header)) (not_given user_agent h (inr d)))
Applied-agent {req} {h} r (to_agent s e a) =
    let d : same (to_lower h.name) (to_lower user_agent) ≡ true = rw agent-lower a in
    let one : given_one user_agent h ≡ trim_space h.value ∷ [] = ground (arith, s, d) in
    under-set user_agent user_agent (trim_space h.value) req.header
    ∙ (rw (same_refl (to_lower user_agent)) (sym (ap (last_of (under user_agent req.header)) one)))
Applied-agent {req} {h} r (added s e a k) =
    let d : same (to_lower h.name) (to_lower user_agent) ≡ false = rw agent-lower a in
    under-add h.name user_agent (trim_space h.value) req.header
    ∙ ap
        (λ b.
          if b
          then under user_agent req.header ++ trim_space h.value ∷ []
          else under user_agent req.header)
        d
    ∙ sym (ap (last_of (under user_agent req.header)) (not_given user_agent h (inr d)))
