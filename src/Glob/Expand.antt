-- ===== src/Glob/Expand.antt =====
-- The loop of `expandGlob` against the grammar.
use mathlib.Core.Path.{ap₂, subst}
use curlu.Base.{
  ℕ, map, List, [], ◌∷◌, ◌++◌, ◌≡◌, refl, sym, ap, ◌∙◌, arith, Bytes, ok, Option-cases, Bool-cases,
  inl, inr, ◌⊎◌, >>=-eq-ok, append_assoc,
}
use curlu.Text.{cut, cut_sound, Lacks}
use curlu.Glob.Defs.{backslash, is_special, combine, flush, Round, group_items, group, escape, step}
use curlu.Glob.Range.{expand_range_sound}
use native.Mathlib.Decide.{ℕ_discrete}
use curlu.Glob.Grammar.{
  Piece, IsPlain, literal, Reads, escaped, lone_backslash, plain, set, range, denote, joined,
}
use curlu.Glob.Product.{combine_assoc, combine-unit, flush-combine}

combine-joined :
    (p ts : List Bytes) → joined (map (λ choice. map (λ text. choice ++ text) ts) p) ≡ combine p ts
unfolding combine
combine-joined [] ts = refl
combine-joined (x ∷ p) ts = ap (λ us. map (λ text. x ++ text) ts ++ us) (combine-joined p ts)

pub denote-combine : (p : Piece) (ps : List Piece) → denote (p ∷ ps) ≡ combine p (denote ps)
unfolding denote
denote-combine p ps = combine-joined p (denote ps)

-- The texts read so far, continued by those of the pieces to come.
abbrev pub whole : List Bytes → Bytes → List Piece → List Bytes
whole out lit ps = combine (flush out lit) (denote ps)

flush-flush : (out : List Bytes) (a b : Bytes) → flush (flush out a) b ≡ flush out (a ++ b)
flush-flush [] a b = refl
flush-flush (o ∷ out) a b = ap₂ ◌∷◌ (append_assoc o a b) (flush-flush out a b)

flush-nil : (out : List Bytes) → flush out [] ≡ out
flush-nil out = flush-combine out [] ∙ combine-unit out

module _ (out : List Bytes) (lit : Bytes) where
  pub whole-done : whole out lit [] ≡ flush out lit
  unfolding denote
  whole-done = combine-unit (flush out lit)

  -- A literal byte may be kept back in `lit`.
  pub whole-literal :
      (c : ℕ) (ps : List Piece) → whole out lit (literal c ∷ ps) ≡ whole out (lit ++ c ∷ []) ps
  whole-literal c ps =
      ap (combine (flush out lit)) (denote-combine (literal c) ps)
      ∙ sym (combine_assoc (flush out lit) ((c ∷ []) ∷ []) (denote ps))
      ∙ ap (λ o. combine o (denote ps))
          (sym (flush-combine (flush out lit) (c ∷ [])) ∙ flush-flush out lit (c ∷ []))

  pub whole-group :
      (p : Piece) (ps : List Piece)
      → whole out lit (p ∷ ps) ≡ whole (combine (flush out lit) p) [] ps
  whole-group p ps =
      ap (combine (flush out lit)) (denote-combine p ps)
      ∙ sym (combine_assoc (flush out lit) p (denote ps))
      ∙ ap (λ o. combine o (denote ps)) (sym (flush-nil (combine (flush out lit) p)))

-- What a run of the loop from this state may return.
pub record Runs (src : Bytes) (out : List Bytes) (lit : Bytes) (urls : List Bytes) : Type 0 where
  pub pieces : List Piece
  pub reads : Reads src pieces
  pub denotes : urls ≡ whole out lit pieces

Runs-literal :
    {src s : Bytes} {out : List Bytes} {lit : Bytes} {urls : List Bytes} (c : ℕ)
    → ((ps : List Piece) → Reads s ps → Reads src (literal c ∷ ps))
    → Runs s out (lit ++ c ∷ []) urls
    → Runs src out lit urls
Runs-literal {out} {lit} c f r = record {
  pieces = literal c ∷ r.pieces;
  reads = f r.pieces r.reads;
  denotes = r.denotes ∙ sym (whole-literal out lit c r.pieces);
}

Runs-group :
    {src s : Bytes} {out : List Bytes} {lit : Bytes} {urls : List Bytes} (p : Piece)
    → ((ps : List Piece) → Reads s ps → Reads src (p ∷ ps))
    → Runs s (combine (flush out lit) p) [] urls
    → Runs src out lit urls
Runs-group {out} {lit} p f r = record {
  pieces = p ∷ r.pieces;
  reads = f r.pieces r.reads;
  denotes = r.denotes ∙ sym (whole-group out lit p r.pieces);
}

-- The source's tests on one byte, as cases.
pub data ByteCase (c : ℕ) : Type 0 where
  is_backslash : c ≡ backslash → ByteCase c
  is_open_set : c ≡ b'{' → ByteCase c
  is_open_range : c ≡ b'[' → ByteCase c
  is_close : (c ≡ b'}') ⊎ (c ≡ b']') → ByteCase c
  is_plain : IsPlain c → ByteCase c

pub byte_case : (c : ℕ) → ByteCase c
byte_case c = elim (ℕ_discrete c backslash) [
  | yes e ↦ is_backslash e
  | no n1 ↦ elim (ℕ_discrete c b'{') [
    | yes e ↦ is_open_set e
    | no n2 ↦ elim (ℕ_discrete c b'[') [
      | yes e ↦ is_open_range e
      | no n3 ↦ elim (ℕ_discrete c b'}') [
        | yes e ↦ is_close (inl e)
        | no n4 ↦ elim (ℕ_discrete c b']') [
          | yes e ↦ is_close (inr e)
          | no n5 ↦ is_plain (record {
            not_backslash = n1;
            not_open_set = n2;
            not_open_range = n3;
            not_close_set = n4;
            not_close_range = n5;
          })
        ]
      ]
    ]
  ]
]

set_mk :
    (src body s : Bytes) (items : List Bytes) (ps : List Piece)
    → Lacks b'}' body
    → src ≡ body ++ b'}' ∷ s
    → group_items b'{' body ≡ ok items
    → Reads s ps
    → Reads (b'{' ∷ src) (items ∷ ps)
unfolding group_items
set_mk src body s items ps l e g r =
    subst (λ x. Reads (b'{' ∷ src) (x ∷ ps)) (cc) (set body s l e r)

range_mk :
    (src body s : Bytes) (items : List Bytes) (ps : List Piece)
    → Lacks b']' body
    → src ≡ body ++ b']' ∷ s
    → group_items b'[' body ≡ ok items
    → Reads s ps
    → Reads (b'[' ∷ src) (items ∷ ps)
unfolding group_items
range_mk src body s items ps l e g r = range body s l e (expand_range_sound body g) r

-- Soundness of one round, from that of the rounds that follow.
module _ (next : Round) {urls : List Bytes}
    (ih : (s : Bytes) (o : List Bytes) (l : Bytes) → next s o l ≡ ok urls → Runs s o l urls) where
  escape_sound :
      (rest : Bytes) (out : List Bytes) (lit : Bytes)
      → escape next rest out lit ≡ ok urls
      → Runs (backslash ∷ rest) out lit urls
  unfolding escape
  escape_sound [] out lit h = Runs-literal backslash (λ ps. lone_backslash tt) (ih _ _ _ h)
  escape_sound (e ∷ rest) out lit h = elim (Bool-cases (is_special e)) [
    | inl t ↦ Runs-literal e (λ ps. escaped t) (ih _ _ _ (rw t at h))
    | inr f ↦ Runs-literal backslash (λ ps. lone_backslash f) (ih _ _ _ (rw f at h))
  ]

  group_sound :
      (c closer : ℕ)
      → ((src body s : Bytes) (items : List Bytes) (ps : List Piece)
          → Lacks closer body
          → src ≡ body ++ closer ∷ s
          → group_items c body ≡ ok items
          → Reads s ps
          → Reads (c ∷ src) (items ∷ ps))
      → (rest : Bytes) (out : List Bytes) (lit : Bytes)
      → group next c (cut closer rest) out lit ≡ ok urls
      → Runs (c ∷ rest) out lit urls
  unfolding group
  group_sound c closer mk rest out lit h = elim (Option-cases (cut closer rest)) [
    | inl e ↦ absurd (cc (rw e at h))
    | inr ((body, s), e) ↦
        let (items, got, h') = >>=-eq-ok (group_items c body) _ (rw e at h) in
        let (spells, lacks) = cut_sound closer rest e in
        Runs-group items (λ ps. mk rest body s items ps lacks spells got)
          (ih s (combine (flush out lit) items) [] (ground arith))
  ]

  pub step_sound :
      (c : ℕ) (rest : Bytes) (out : List Bytes) (lit : Bytes)
      → step next c rest out lit ≡ ok urls
      → Runs (c ∷ rest) out lit urls
  unfolding step
  step_sound c rest out lit = elim (byte_case c) [
    | is_backslash e ↦
        subst (λ x. step next x rest out lit ≡ ok urls → Runs (x ∷ rest) out lit urls) (sym e)
          (escape_sound rest out lit)
    | is_open_set e ↦
        subst (λ x. step next x rest out lit ≡ ok urls → Runs (x ∷ rest) out lit urls) (sym e)
          (group_sound b'{' b'}' set_mk rest out lit)
    | is_open_range e ↦
        subst (λ x. step next x rest out lit ≡ ok urls → Runs (x ∷ rest) out lit urls) (sym e)
          (group_sound b'[' b']' range_mk rest out lit)
    | is_close e ↦ λ h. absurd (ground arith)
    | is_plain p ↦ λ h. Runs-literal c (λ ps. plain p) (ih _ _ _ (ground arith))
  ]
