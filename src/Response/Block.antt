-- ===== src/Response/Block.antt =====
-- The bytes of a reader, and header blocks in them.
use mathlib.Core.Path.{subst}
use curlu.Base.{
  true, List, [], ◌∷◌, ◌++◌, ◌≡◌, ◌≢◌, ◌⊎◌, ◌↔◌, refl, ap, arith, Bytes, same_iff, All, inl, inr,
}
use curlu.Text.{Lacks}
use curlu.Response.Defs.{Slice, found, full, Reader, is_blank}

-- The bytes that a slice holds, and those of several, with what follows.
abbrev pub slice_bytes : Slice → Bytes
slice_bytes (found b) = b
slice_bytes (full b) = b

abbrev pub stream : List Slice → Bytes → Bytes
stream [] rest = rest
stream (s ∷ slices) rest = slice_bytes s ++ stream slices rest

-- What `ReadSlice` documents: a line feed ends a slice that was found, and stands nowhere else.
abbrev pub IsSlice : Slice → Type 0
IsSlice (found b) = (g : Bytes) × (b ≡ g ++ 10 ∷ []) × Lacks 10 g
IsSlice (full b) = Lacks 10 b

pub record IsReader (reader : Reader) : Type 0 where
  pub slices : All IsSlice reader.slices
  pub rest : Lacks 10 reader.rest

-- A header block: lines that are not blank, and then a blank one.
pub data IsBlock : Bytes → Type 0 where
  crlf : {b : Bytes} → b ≡ 13 ∷ 10 ∷ [] → IsBlock b
  lf : {b : Bytes} → b ≡ 10 ∷ [] → IsBlock b
  line :
      {b : Bytes} (g rest : Bytes)
      → Lacks 10 g
      → g ≢ []
      → g ≢ 13 ∷ []
      → b ≡ g ++ 10 ∷ rest
      → IsBlock rest
      → IsBlock b

-- Where a text without line feeds ends.
pub skip_prefix :
    (f s p q : Bytes)
    → Lacks 10 f
    → f ++ s ≡ p ++ 10 ∷ q
    → (p' : Bytes) × (p ≡ f ++ p') × (s ≡ p' ++ 10 ∷ q)
skip_prefix [] s p q h e = (p, refl, e)
skip_prefix (c ∷ f) s [] q (ne, h) e = absurd (ne (cc e))
skip_prefix (c ∷ f) s (d ∷ p) q (ne, h) e =
    let (p', a, b) = skip_prefix f s p q h (cc e) in (p', cc (a, e), b)

pub same_line :
    (g s p q : Bytes) → Lacks 10 g → Lacks 10 p → g ++ 10 ∷ s ≡ p ++ 10 ∷ q → (g ≡ p) × (s ≡ q)
same_line [] s [] q h k e = (refl, cc e)
same_line [] s (d ∷ p) q h (ne, k) e = absurd (ne (cc e))
same_line (c ∷ g) s [] q (ne, h) k e = absurd (ne (cc e))
same_line (c ∷ g) s (d ∷ p) q (_, h) (_, k) e =
    let (a, b) = same_line g s p q h k (cc e) in (cc (a, e), b)

pub Lacks-ne-append : (p q : Bytes) → ¬ (Lacks 10 (p ++ 10 ∷ q))
Lacks-ne-append [] q (ne, _) = ne refl
Lacks-ne-append (c ∷ p) q (_, h) = Lacks-ne-append p q h

-- The first line of a block, which ends it or not.
record FirstLine (b : Bytes) : Type 0 where
  first : Bytes
  others : Bytes
  whole : b ≡ first ++ 10 ∷ others
  lacks : Lacks 10 first
  ends :
      (((first ≡ []) ⊎ (first ≡ 13 ∷ [])) × (others ≡ []))
      ⊎ ((first ≢ []) × (first ≢ 13 ∷ []) × IsBlock others)

IsBlock-first : {b : Bytes} → IsBlock b → FirstLine b
IsBlock-first (crlf e) = record {
  first = 13 ∷ [];
  others = [];
  whole = e;
  lacks = (omega arith, tt);
  ends = inl (inr refl, refl);
}
IsBlock-first (lf e) = record {
  first = [];
  others = [];
  whole = e;
  lacks = tt;
  ends = inl (inl refl, refl);
}
IsBlock-first (line g rest h a b e k) = record {
  first = g;
  others = rest;
  whole = e;
  lacks = h;
  ends = inr (a, b, k);
}

pub blank_line : (g : Bytes) → (is_blank (g ++ 10 ∷ []) ≡ true) ↔ ((g ≡ []) ⊎ (g ≡ 13 ∷ []))
blank_line [] = ground (arith, same_iff (10 ∷ []) (10 ∷ []))
blank_line (c ∷ []) =
    ground (arith, same_iff (c ∷ 10 ∷ []) (13 ∷ 10 ∷ []), same_iff (c ∷ 10 ∷ []) (10 ∷ []))
blank_line (c ∷ d ∷ []) =
    ground (arith, same_iff (c ∷ d ∷ 10 ∷ []) (13 ∷ 10 ∷ []), same_iff (c ∷ d ∷ 10 ∷ []) (10 ∷ []))
blank_line (c ∷ d ∷ x ∷ g) = ground (
  arith,
  same_iff (c ∷ d ∷ x ∷ g ++ 10 ∷ []) (13 ∷ 10 ∷ []),
  same_iff (c ∷ d ∷ x ∷ g ++ 10 ∷ []) (10 ∷ []),
)

pub blank_text : (g : Bytes) → is_blank (g ++ 10 ∷ []) ≡ true → IsBlock (g ++ 10 ∷ [])
blank_text g h = elim ((blank_line g).0 h) [
  | inl e ↦ lf (ap (λ x. x ++ 10 ∷ []) e)
  | inr e ↦ crlf (ap (λ x. x ++ 10 ∷ []) e)
]

-- The rest of a line that has begun.
pub record OpenLine (line' b : Bytes) : Type 0 where
  pub piece : Bytes
  pub others : Bytes
  pub whole : b ≡ piece ++ 10 ∷ others
  pub lacks : Lacks 10 piece
  pub ends :
      (((line' ++ piece ≡ []) ⊎ (line' ++ piece ≡ 13 ∷ [])) × (others ≡ []))
      ⊎ ((line' ++ piece ≢ []) × (line' ++ piece ≢ 13 ∷ []) × IsBlock others)

Lacks-tail : (a b : Bytes) → Lacks 10 (a ++ b) → Lacks 10 b
Lacks-tail [] b h = h
Lacks-tail (c ∷ a) b (_, h) = Lacks-tail a b h

pub IsBlock-open : (line' b : Bytes) → Lacks 10 line' → IsBlock (line' ++ b) → OpenLine line' b
IsBlock-open line' b h k =
    let f = IsBlock-first k in
    let (piece, e, whole) = skip_prefix line' b f.first f.others h f.whole in
    record {
      piece = piece;
      others = f.others;
      whole = whole;
      lacks = Lacks-tail line' piece (subst (Lacks 10) e f.lacks);
      ends =
          subst
            (λ x.
              (((x ≡ []) ⊎ (x ≡ 13 ∷ [])) × (f.others ≡ []))
              ⊎ ((x ≢ []) × (x ≢ 13 ∷ []) × IsBlock f.others))
            e f.ends;
    }
