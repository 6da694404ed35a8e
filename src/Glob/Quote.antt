-- ===== src/Glob/Quote.antt =====
-- Backslashes in the paths of `expandGlob`.
use native.Mathlib.Decide.{ℕ_discrete}
use mathlib.Core.Path.{subst}
use curlu.Base.{
  ℕ, false, List, [], ◌∷◌, ◌++◌, ◌≡◌, refl, sym, ap, ◌∙◌, arith, Bytes, ok, length, Bool-cases, inl,
  inr, if◌then◌else◌, append_assoc, append-nil, All-append,
}
use curlu.Glob.Defs.{backslash, is_special, combine, expand_path}
use curlu.Glob.Grammar.{
  Piece, literal, StartsPlain, Reads, done, escaped, lone_backslash, plain, set, denote,
}
use curlu.Text.{Lacks, split, split-append, split-Lacks}
use curlu.Glob.Complete.{loop_complete}

-- A backslash in front of each special byte.
abbrev pub quote : Bytes → Bytes
quote [] = []
quote (c ∷ s) = if is_special c then backslash ∷ c ∷ quote s else c ∷ quote s

abbrev literals : Bytes → List Piece
literals [] = []
literals (c ∷ s) = literal c ∷ literals s

denote-literals : (s : Bytes) → denote (literals s) ≡ s ∷ []
unfolding denote combine
denote-literals [] = refl
denote-literals (c ∷ s) = rw (denote-literals s)

-- A quoted text never begins with a special byte.
quote-StartsPlain : (s : Bytes) → StartsPlain (quote s)
quote-StartsPlain [] = tt
quote-StartsPlain (c ∷ s) = elim (Bool-cases (is_special c)) [
  | inl t ↦ rw t (unfold is_special in refl)
  | inr f ↦ rw f f
]

quote_plain :
    (c : ℕ) (s : Bytes)
    → is_special c ≡ false
    → Reads (quote s) (literals s)
    → Reads (c ∷ quote s) (literal c ∷ literals s)
quote_plain c s f r = elim (ℕ_discrete c backslash) [
  | yes e ↦
      subst (λ x. Reads (x ∷ quote s) (literal x ∷ literals s)) (sym e)
        (lone_backslash (quote-StartsPlain s) r)
  | no n ↦
      unfold is_special in
      plain
        (record {
          not_backslash = n;
          not_open_set = ground arith;
          not_open_range = ground arith;
          not_close_set = ground arith;
          not_close_range = ground arith;
        })
        r
]

quote-Reads : (s : Bytes) → Reads (quote s) (literals s)
quote-Reads [] = done
quote-Reads (c ∷ s) = elim (Bool-cases (is_special c)) [
  | inl t ↦ rw t (escaped t (quote-Reads s))
  | inr f ↦ rw f (quote_plain c s f (quote-Reads s))
]

-- A quoted path stands for itself alone, whatever bytes it holds, and backslashes too.
pub expand_path-quote :
    (prefix path : Bytes) → expand_path prefix (quote path) ≡ ok ((prefix ++ path) ∷ [])
unfolding expand_path combine
expand_path-quote prefix path =
    loop_complete (length (quote path)) (prefix ∷ []) [] (quote-Reads path) (omega arith)
      (rw denote-literals (omega arith))
    ∙ rw (append-nil prefix, denote-literals)

split-two :
    (a b : Bytes)
    → Lacks b',' a
    → Lacks b',' b
    → split b',' (a ++ backslash ∷ b',' ∷ b) ≡ (a ++ backslash ∷ []) ∷ b ∷ []
split-two a b ha hb =
    ap (split b',') (sym (append_assoc a (backslash ∷ []) (b',' ∷ b)))
    ∙ split-append b',' (a ++ backslash ∷ []) b (All-append _ a (backslash ∷ []) ha (omega arith))
    ∙ ap (◌∷◌ (a ++ backslash ∷ [])) (split-Lacks b',' b hb)

-- Inside a set a backslash escapes nothing: `{a\,b}` offers `a\` and `b`.
pub expand_path_set_comma :
    (prefix a b : Bytes)
    → Lacks b'}' (a ++ backslash ∷ b',' ∷ b)
    → Lacks b',' a
    → Lacks b',' b
    → expand_path prefix (b'{' ∷ ((a ++ backslash ∷ b',' ∷ b) ++ b'}' ∷ []))
      ≡ ok ((prefix ++ (a ++ backslash ∷ [])) ∷ (prefix ++ b) ∷ [])
unfolding expand_path combine denote
expand_path_set_comma prefix a b closed ha hb =
    let body = a ++ backslash ∷ b',' ∷ b in
    let items = split-two a b ha hb in
    loop_complete (length (b'{' ∷ (body ++ b'}' ∷ []))) (prefix ∷ []) []
      (set body [] closed refl done) (omega arith) (rw items (omega arith))
    ∙ rw items (rw (append-nil prefix, append-nil (a ++ backslash ∷ []), append-nil b))
