-- ===== src/Glob/Grammar.antt =====
-- What a URL path with globs stands for, with no order of reading in it: a grammar of paths, and
-- the texts that a sequence of pieces denotes.
use curlu.Base.{ℕ, true, false, List, [], ◌∷◌, ◌++◌, ◌≡◌, ◌≢◌, ◌≤◌, Bytes, length, map}
use curlu.Text.{Lacks, split}
use curlu.Glob.Range.{IsRange}
use curlu.Glob.Defs.{backslash, is_special, split_url, max_glob_urls}

-- The texts that one piece may stand for: a single literal text, or the items of a group.
abbrev pub Piece : Type 0
Piece = List Bytes

abbrev pub literal : ℕ → Piece
literal c = (c ∷ []) ∷ []

-- The next byte, if there is one, is not special.
abbrev pub StartsPlain : Bytes → Type 0
StartsPlain [] = Unit
StartsPlain (e ∷ _) = is_special e ≡ false

abbrev pub IsPlain : ℕ → Type 0
IsPlain c = record {
  not_backslash : c ≢ backslash;
  not_open_set : c ≢ b'{';
  not_open_range : c ≢ b'[';
  not_close_set : c ≢ b'}';
  not_close_range : c ≢ b']';
}

pub data Reads : Bytes → List Piece → Type 0 where
  done : Reads [] []
  escaped :
      {e : ℕ} {s : Bytes} {ps : List Piece}
      → is_special e ≡ true
      → Reads s ps
      → Reads (backslash ∷ e ∷ s) (literal e ∷ ps)
  lone_backslash :
      {s : Bytes} {ps : List Piece}
      → StartsPlain s
      → Reads s ps
      → Reads (backslash ∷ s) (literal backslash ∷ ps)
  plain :
      {c : ℕ} {s : Bytes} {ps : List Piece}
      → IsPlain c
      → Reads s ps
      → Reads (c ∷ s) (literal c ∷ ps)
  set :
      {src : Bytes} (body s : Bytes) {ps : List Piece}
      → Lacks b'}' body
      → src ≡ body ++ b'}' ∷ s
      → Reads s ps
      → Reads (b'{' ∷ src) (split b',' body ∷ ps)
  range :
      {src : Bytes} (body s : Bytes) {items : List Bytes} {ps : List Piece}
      → Lacks b']' body
      → src ≡ body ++ b']' ∷ s
      → IsRange body items
      → Reads s ps
      → Reads (b'[' ∷ src) (items ∷ ps)

-- The texts of the lists, one list behind another.
abbrev pub joined : List (List Bytes) → List Bytes
joined [] = []
joined (texts ∷ more) = texts ++ joined more

-- One text from each piece, in order: for each choice from the first piece, one behind another, all
-- that the other pieces denote. So the rightmost choice varies fastest.
unfoldable pub denote : List Piece → List Bytes
denote [] = [] ∷ []
denote (p ∷ ps) = joined (map (λ choice. map (λ text. choice ++ text) (denote ps)) p)

-- The URLs that `raw` stands for: its scheme and authority as they are, then the path's texts.
pub record Expands (raw : Bytes) (urls : List Bytes) : Type 0 where
  pub pieces : List Piece
  pub reads : Reads (split_url raw).1 pieces
  pub denotes : urls ≡ map (λ t. (split_url raw).0 ++ t) (denote pieces)
  pub bounded : length urls ≤ max_glob_urls
