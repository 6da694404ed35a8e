-- ===== src/Muxed/Defaults.antt =====
-- internal/curlu/http2.go: the headers that `buildMuxedRequest` sends by default.
use curlu.Base.{
  ℕ, Bool, true, false, List, [], ◌∷◌, ◌++◌, ◌≡◌, inl, inr, refl, ap, ◌∙◌, arith, if◌then◌else◌,
  Bytes, codes, same, same_iff, Bool-cases,
}
use mathlib.Core.Path.{subst}
use curlu.Text.{to_lower, lower_byte}
use curlu.Request.{suppressed, safe_version}
use curlu.Muxed.Defs.{
  canonical_key, Field, values_of, put, set_header, hop_by_hop_header, user_agent, accept,
  default_header,
}
use curlu.Muxed.Values.{under, under-set}
use curlu.Muxed.Loop.{is_host, IsWithheld}

-- The values that a name has by default, whatever its case.
abbrev pub default_of : (Bytes → ℕ) → List Bytes → Bytes → Bytes → List Bytes
default_of tail names version n =
    if same (codes "accept") (to_lower n)
    then (if suppressed (codes "accept") names then [] else codes "*/*" ∷ [])
    else if same (codes "user-agent") (to_lower n)
    then (if suppressed (codes "user-agent") names
        then []
        else (codes "curlu/" ++ safe_version tail version) ∷ [])
    else []

agent_default :
    (b : Bool) (n value : Bytes)
    → under n (if b then put user_agent [] [] else set_header user_agent value [])
      ≡ (if same (codes "user-agent") (to_lower n) then (if b then [] else value ∷ []) else [])
unfolding put values_of to_lower lower_byte
agent_default true n value = elim (Bool-cases (same user_agent (canonical_key n))) [
  | inl e ↦ ground (arith, e)
  | inr e ↦ ground (arith, e)
]
agent_default false n value = under-set user_agent n value []

accept_default :
    (b : Bool) (n value : Bytes) (agent : List Field)
    → under n (if b then agent else set_header accept value agent) ≡ (
        if same (codes "accept") (to_lower n)
        then (if b then under n agent else value ∷ [])
        else under n agent)
unfolding to_lower lower_byte
accept_default true n value agent = ground arith
accept_default false n value agent = under-set accept n value agent

pick :
    (is_accept is_agent without : Bool) (vs ds star : List Bytes)
    → (is_accept ≡ true → is_agent ≡ false)
    → vs ≡ (if is_agent then ds else [])
    → (if is_accept then (if without then vs else star) else vs)
      ≡ (if is_accept then (if without then [] else star) else if is_agent then ds else [])
pick true is_agent without vs ds star one e = let f = one refl in ground (arith, f, e)
pick false is_agent without vs ds star one e = e

accept_ne_agent : same (codes "user-agent") (codes "accept") ≡ false
unfolding same
accept_ne_agent = refl

-- A name that is neither the host's nor a hop-by-hop one.
sent_apart :
    (d n : Bytes)
    → is_host d ≡ false
    → hop_by_hop_header d ≡ false
    → IsWithheld n
    → same d (to_lower n) ≡ false
sent_apart d n not_host not_hop w = elim (Bool-cases (same d (to_lower n))) [
  | inr e ↦ e
  | inl e ↦
      let same_text = (same_iff d (to_lower n)).0 e in
      absurd (elim w [
        | inl k ↦ let k' = ap is_host same_text in cc (k, k', not_host)
        | inr k ↦ let k' = ap hop_by_hop_header same_text in cc (k, k', not_hop)
      ])
]

pub default_of_withheld :
    (tail : Bytes → ℕ) (names : List Bytes) (version n : Bytes)
    → IsWithheld n
    → default_of tail names version n ≡ []
unfolding same hop_by_hop_header
default_of_withheld tail names version n w =
    let a = sent_apart (codes "accept") n refl refl w in
    let b = sent_apart (codes "user-agent") n refl refl w in ground (arith, a, b)

not_both : (n : Bytes) → same (codes "accept") n ≡ true → same (codes "user-agent") n ≡ false
not_both n e =
    let is_accept : codes "accept" ≡ n = (same_iff (codes "accept") n).0 e in
    subst (λ m. same (codes "user-agent") m ≡ false) is_accept accept_ne_agent

pub default_header-under :
    (tail : Bytes → ℕ) (names : List Bytes) (version n : Bytes)
    → under n (default_header tail names version) ≡ default_of tail names version n
unfolding default_header
default_header-under tail names version n =
    accept_default (suppressed (codes "accept") names) n (codes "*/*") _
    ∙ pick (same (codes "accept") (to_lower n)) (same (codes "user-agent") (to_lower n))
        (suppressed (codes "accept") names) _ _ (codes "*/*" ∷ []) (not_both (to_lower n))
        (agent_default (suppressed (codes "user-agent") names) n
          (codes "curlu/" ++ safe_version tail version))
