-- ===== src/Glob/Complete.antt =====
-- Completeness of the loop, its bounds, and the theorem about `expandGlob` as a whole.
use curlu.Base.{
  ℕ, zero, suc, ◌*◌, ◌≤◌, ◌<◌, true, List, [], ◌∷◌, ◌++◌, ◌≡◌, ◌↔◌, refl, sym, ap, ◌∙◌, arith,
  Bytes, ok, length, length-append, map, append-nil, length-map,
}
use curlu.Text.{cut, Lacks, cut-append, split, split-ne-nil}
use curlu.Glob.Defs.{
  backslash, is_special, combine, flush, split_url, max_glob_urls, Round, group_items, group,
  escape, step, loop, expand_glob,
}
use curlu.Glob.Grammar.{
  Piece, IsPlain, literal, StartsPlain, Reads, done, escaped, lone_backslash, plain, set, range,
  denote, Expands,
}
use curlu.Glob.Product.{length-combine}
use curlu.Glob.Range.{IsRange, expand_range_complete}
use curlu.Glob.Bound.{loop_bound}
use curlu.Glob.Expand.{
  denote-combine, whole, whole-done, whole-literal, whole-group, Runs, step_sound,
}

loop_sound :
    (f : ℕ) (src : Bytes) (out : List Bytes) (lit : Bytes) {urls : List Bytes}
    → loop f src out lit ≡ ok urls
    → Runs src out lit urls
unfolding loop
loop_sound f [] out lit h = record { pieces = []; reads = done; denotes = cc (whole-done out lit) }
loop_sound zero (c ∷ src) out lit h = absurd (cc h)
loop_sound (suc f) (c ∷ src) out lit h =
    step_sound (loop f) (λ s o l. loop_sound f s o l) c src out lit h

items_pos : {body : Bytes} {items : List Bytes} → IsRange body items → 0 < length items
items_pos r = omega (arith, r.counts)

split_pos : (sep : ℕ) (s : Bytes) → 0 < length (split sep s)
split_pos sep s = grind (arith, split-ne-nil sep s)

pub denote_pos : {src : Bytes} {ps : List Piece} → Reads src ps → 0 < length (denote ps)
unfolding denote
denote_pos done = omega arith
denote_pos (escaped h r) = rw (denote-combine, length-combine) (omega (arith, denote_pos r))
denote_pos (lone_backslash h r) = rw (denote-combine, length-combine) (omega (arith, denote_pos r))
denote_pos (plain h r) = rw (denote-combine, length-combine) (omega (arith, denote_pos r))
denote_pos (set body s l e r) =
    rw (denote-combine, length-combine) (grind (arith, denote_pos r, split_pos b',' body))
denote_pos (range body s l e g r) =
    rw (denote-combine, length-combine) (grind (arith, denote_pos r, items_pos g))

mul_below : (a b d n : ℕ) → a * (b * d) ≤ n → 0 < d → a * b ≤ n
mul_below a b zero n h p = absurd (omega arith)
mul_below a b (suc d) n h p = omega arith

length-flush : (out : List Bytes) (lit : Bytes) → length (flush out lit) ≡ length out
length-flush out lit = length-map (λ o. o ++ lit) out

abbrev Fits : List Bytes → List Piece → Type 0
Fits out ps = length out * length (denote ps) ≤ max_glob_urls

Fits-literal :
    (out : List Bytes) (c : ℕ) (ps : List Piece) → Fits out (literal c ∷ ps) → Fits out ps
unfolding denote
Fits-literal out c ps h = omega (arith, rw (denote-combine, length-combine) at h)

Fits-group :
    (out : List Bytes) (lit : Bytes) (p : Piece) (ps : List Piece)
    → 0 < length (denote ps)
    → Fits out (p ∷ ps)
    → (length out * length p ≤ max_glob_urls) × Fits (combine (flush out lit) p) ps
unfolding denote
Fits-group out lit p ps pos h =
    let h' = rw (denote-combine, length-combine) at h in
    (
      mul_below (length out) (length p) (length (denote ps)) _ h' pos,
      rw (length-combine (flush out lit) p, length-flush out lit) (omega (arith, h')),
    )

-- One round, on each kind of piece.
module _ (next : Round) (s : Bytes) (out : List Bytes) (lit : Bytes) where
  step_escaped :
      (e : ℕ)
      → is_special e ≡ true
      → step next backslash (e ∷ s) out lit ≡ next s out (lit ++ e ∷ [])
  unfolding step escape
  step_escaped e t = rw t

  step_plain : (c : ℕ) → IsPlain c → step next c s out lit ≡ next s out (lit ++ c ∷ [])
  unfolding step
  step_plain c p = ground arith

  group_complete :
      (c closer : ℕ) (body : Bytes) (p : Piece)
      → Lacks closer body
      → group_items c body ≡ ok p
      → length out * length p ≤ max_glob_urls
      → group next c (cut closer (body ++ closer ∷ s)) out lit
        ≡ next s (combine (flush out lit) p) []
  unfolding group
  group_complete c closer body p lacks got fits =
      rw (cut-append closer body s lacks, got) (ground arith)

step_lone :
    (next : Round) (s : Bytes) (out : List Bytes) (lit : Bytes)
    → StartsPlain s
    → step next backslash s out lit ≡ next s out (lit ++ backslash ∷ [])
unfolding step escape
step_lone next [] out lit t = refl
step_lone next (e ∷ s) out lit t = rw t

shorter :
    {src : Bytes} {f : ℕ} (body s : Bytes) (c : ℕ)
    → suc (length src) ≤ suc f
    → src ≡ body ++ c ∷ s
    → length s ≤ f
shorter body s c h e = omega (arith, ap length e, length-append body (c ∷ s))

pub loop_complete :
    (f : ℕ) (out : List Bytes) (lit : Bytes) {src : Bytes} {ps : List Piece}
    → Reads src ps
    → length src ≤ f
    → Fits out ps
    → loop f src out lit ≡ ok (whole out lit ps)
unfolding loop
loop_complete f out lit done h b = ap ok (sym (whole-done out lit))
loop_complete zero out lit (escaped t r) h b = absurd (omega arith)
loop_complete zero out lit (lone_backslash t r) h b = absurd (omega arith)
loop_complete zero out lit (plain p r) h b = absurd (omega arith)
loop_complete zero out lit (set body s l e r) h b = absurd (omega arith)
loop_complete zero out lit (range body s l e g r) h b = absurd (omega arith)
loop_complete (suc f) out lit (escaped {e} {s} {ps} t r) h b =
    step_escaped (loop f) s out lit e t
    ∙ loop_complete f out (lit ++ e ∷ []) r (omega arith) (Fits-literal out e ps b)
    ∙ ap ok (sym (whole-literal out lit e ps))
loop_complete (suc f) out lit (lone_backslash {s} {ps} t r) h b =
    step_lone (loop f) s out lit t
    ∙ loop_complete f out (lit ++ backslash ∷ []) r (omega arith) (Fits-literal out backslash ps b)
    ∙ ap ok (sym (whole-literal out lit backslash ps))
loop_complete (suc f) out lit (plain {c} {s} {ps} p r) h b =
    step_plain (loop f) s out lit c p
    ∙ loop_complete f out (lit ++ c ∷ []) r (omega arith) (Fits-literal out c ps b)
    ∙ ap ok (sym (whole-literal out lit c ps))
loop_complete (suc f) out lit (set body s {ps} l e r) h b =
    let items = split b',' body in
    let (few, b') = Fits-group out lit items ps (denote_pos r) b in
    rw e
      (unfold step group_items in group_complete (loop f) s out lit b'{' b'}' body items l refl few)
    ∙ loop_complete f (combine (flush out lit) items) [] r (shorter body s b'}' h e) b'
    ∙ ap ok (sym (whole-group out lit items ps))
loop_complete (suc f) out lit (range body s {items} {ps} l e g r) h b =
    let (few, b') = Fits-group out lit items ps (denote_pos r) b in
    rw e (
      unfold step group_items in
      group_complete (loop f) s out lit b'[' b']' body items l (expand_range_complete g) few)
    ∙ loop_complete f (combine (flush out lit) items) [] r (shorter body s b']' h e) b'
    ∙ ap ok (sym (whole-group out lit items ps))

whole-start :
    (prefix : Bytes) (ps : List Piece)
    → whole (prefix ∷ []) [] ps ≡ map (λ t. prefix ++ t) (denote ps)
unfolding combine
whole-start prefix ps = rw (append-nil prefix, append-nil)

expand_glob_sound : (raw : Bytes) {urls : List Bytes} → expand_glob raw ≡ ok urls → Expands raw urls
unfolding expand_glob
expand_glob_sound raw h =
    let (prefix, path) = split_url raw in
    let r = loop_sound (length path) path (prefix ∷ []) [] h in
    record {
      pieces = r.pieces;
      reads = r.reads;
      denotes = r.denotes ∙ whole-start prefix r.pieces;
      bounded = loop_bound (length path) path (prefix ∷ []) [] (omega arith) h;
    }

expand_glob_complete :
    {raw : Bytes} {urls : List Bytes} → Expands raw urls → expand_glob raw ≡ ok urls
unfolding expand_glob
expand_glob_complete {raw} e =
    let (prefix, path) = split_url raw in
    loop_complete (length path) (prefix ∷ []) [] e.reads (omega arith) (
      omega
        (arith, e.bounded, ap length e.denotes, length-map (λ t. prefix ++ t) (denote e.pieces)))
    ∙ ap ok (whole-start prefix e.pieces ∙ sym e.denotes)

pub expand_glob_iff :
    (raw : Bytes) (urls : List Bytes) → (expand_glob raw ≡ ok urls) ↔ Expands raw urls
expand_glob_iff raw urls = (expand_glob_sound raw, expand_glob_complete)
