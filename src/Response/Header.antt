-- ===== src/Response/Header.antt =====
-- internal/curlu/client.go: `readHeaderBlock` against the bytes of its reader.
use mathlib.Core.Path.{subst}
use curlu.Base.{
  ℕ, suc, true, false, List, [], ◌∷◌, ◌++◌, append_assoc, append-nil, ◌+◌, ◌≤◌, ◌<◌, ◌≡◌, ◌≢◌, ◌⊎◌,
  ◌↔◌, sym, ap, ◌∙◌, arith, Bytes, length, length-append, if◌then◌else◌, All, All-append,
  Bool-cases, inl, inr,
}
use curlu.Text.{Lacks}
use curlu.Fault.{Fault}
use curlu.Response.Defs.{
  Slice, found, full, Reader, max_response_header_bytes, is_blank, block_read, header_loop,
  read_header_block,
}
use curlu.Response.Block.{
  stream, IsSlice, IsReader, IsBlock, line, skip_prefix, same_line, Lacks-ne-append, blank_line,
  blank_text, IsBlock-open,
}

-- The limit is met at the start of a round and behind its slice.
step_found :
    (limit : ℕ) (rest : Bytes) (fault : Fault) (block line' b : Bytes) (slices : List Slice)
    → length block < limit
    → length block + length b ≤ limit
    → header_loop limit rest fault block line' (found b ∷ slices) ≡ (
        if is_blank (line' ++ b)
        then block_read (block ++ b) slices
        else header_loop limit rest fault (block ++ b) [] slices)
unfolding header_loop
step_found limit rest fault block line' b slices h k = ground arith

step_full :
    (limit : ℕ) (rest : Bytes) (fault : Fault) (block line' b : Bytes) (slices : List Slice)
    → length block < limit
    → length block + length b ≤ limit
    → header_loop limit rest fault block line' (full b ∷ slices)
      ≡ header_loop limit rest fault (block ++ b) (line' ++ b) slices
unfolding header_loop
step_full limit rest fault block line' b slices h k = ground arith

-- A loop that reads a block kept to the limit at its start and behind its first slice.
guards_found :
    (limit : ℕ) (rest : Bytes) (fault : Fault) (block line' b : Bytes) (slices : List Slice)
    {out : Bytes} {after : List Slice}
    → header_loop limit rest fault block line' (found b ∷ slices) ≡ block_read out after
    → (length block < limit) × (length block + length b ≤ limit)
unfolding header_loop
guards_found limit rest fault block line' b slices h = ground arith

guards_full :
    (limit : ℕ) (rest : Bytes) (fault : Fault) (block line' b : Bytes) (slices : List Slice)
    {out : Bytes} {after : List Slice}
    → header_loop limit rest fault block line' (full b ∷ slices) ≡ block_read out after
    → (length block < limit) × (length block + length b ≤ limit)
unfolding header_loop
guards_full limit rest fault block line' b slices h = ground arith

no_block :
    (limit : ℕ) (rest : Bytes) (fault : Fault) (block line' : Bytes) {out : Bytes}
    {after : List Slice}
    → ¬ (header_loop limit rest fault block line' [] ≡ block_read out after)
unfolding header_loop
no_block limit rest fault block line' h = ground arith

-- What was read behind `block`, whose last line so far is `line'`.
record Reads (limit : ℕ) (rest block line' : Bytes) (slices : List Slice) (out : Bytes)
    (after : List Slice) : Type 0 where
  text : Bytes
  out_is : out ≡ block ++ text
  is_block : IsBlock (line' ++ text)
  from : stream slices rest ≡ text ++ stream after rest
  small : length out ≤ limit
  later : All IsSlice after

block_read_injective :
    {a b : Bytes} {x y : List Slice} → block_read a x ≡ block_read b y → (a ≡ b) × (x ≡ y)
block_read_injective h = (cc h, cc h)

header_loop-Reads :
    (limit : ℕ) (rest : Bytes) (fault : Fault) (block line' : Bytes) (slices : List Slice)
    {out : Bytes} {after : List Slice}
    → All IsSlice slices
    → Lacks 10 line'
    → header_loop limit rest fault block line' slices ≡ block_read out after
    → Reads limit rest block line' slices out after
header_loop-Reads limit rest fault block line' [] _ _ h =
    absurd (no_block limit rest fault block line' h)
header_loop-Reads limit rest fault block line' (full f ∷ slices) {out} {after} (lacks, is) lacks'
      h =
    let (a, b) = guards_full limit rest fault block line' f slices h in
    let r =
      header_loop-Reads limit rest fault (block ++ f) (line' ++ f) slices is
        (All-append (λ c. c ≢ 10) line' f lacks' lacks)
        (sym (step_full limit rest fault block line' f slices a b) ∙ h) in
    record {
      text = f ++ r.text;
      out_is = r.out_is ∙ append_assoc block f r.text;
      is_block = subst IsBlock (append_assoc line' f r.text) r.is_block;
      from = ap (λ s. f ++ s) r.from ∙ sym (append_assoc f r.text (stream after rest));
      small = r.small;
      later = r.later;
    }
header_loop-Reads limit rest fault block line' (found f ∷ slices) {out} {after} ((g, e, lacks), is)
      lacks' h =
    let (a, b) = guards_found limit rest fault block line' f slices h in
    let step = sym (step_found limit rest fault block line' f slices a b) ∙ h in
    let whole = ap (λ x. line' ++ x) e ∙ sym (append_assoc line' g (10 ∷ [])) in
    let all_lacks = All-append (λ c. c ≢ 10) line' g lacks' lacks in
    elim (Bool-cases (is_blank (line' ++ f))) [
      | inl blank ↦
          let ended = rw blank at step in
          let (out_is, after_is) = block_read_injective ended in
          record {
            text = f;
            out_is = sym out_is;
            is_block =
                subst IsBlock (sym whole)
                  (blank_text (line' ++ g) (sym (ap is_blank whole) ∙ blank));
            from = ap (λ x. f ++ stream x rest) after_is;
            small = omega (arith, ap length out_is, length-append block f);
            later = subst (All IsSlice) after_is is;
          }
      | inr filled ↦
          let r =
            header_loop-Reads limit rest fault (block ++ f) [] slices is tt (rw filled at step) in
          let full_line : ¬ ((line' ++ g ≡ []) ⊎ (line' ++ g ≡ 13 ∷ [])) =
            λ bad. cc (filled, ap is_blank whole, (blank_line (line' ++ g)).1 bad) in
          let more : line' ++ (f ++ r.text) ≡ (line' ++ g) ++ 10 ∷ r.text =
            sym (append_assoc line' f r.text)
            ∙ ap (λ x. x ++ r.text) whole
            ∙ append_assoc (line' ++ g) (10 ∷ []) r.text in
          record {
            text = f ++ r.text;
            out_is = r.out_is ∙ append_assoc block f r.text;
            is_block =
                line (line' ++ g) r.text all_lacks (λ bad. full_line (inl bad))
                  (λ bad. full_line (inr bad)) more r.is_block;
            from = ap (λ x. f ++ x) r.from ∙ sym (append_assoc f r.text (stream after rest));
            small = r.small;
            later = r.later;
          }
    ]

Finds : ℕ → Bytes → Fault → Bytes → Bytes → List Slice → Bytes → Bytes → Type 0
Finds limit rest fault block line' slices b t =
    (after : List Slice) × (header_loop limit rest fault block line' slices
      ≡ block_read (block ++ b) after)
    × (stream after rest ≡ t)

-- A block that the reader holds, whole and within the limit, is read.
header_loop_complete :
    (limit : ℕ) (rest : Bytes) (fault : Fault) (block line' : Bytes) (slices : List Slice)
    (b t : Bytes)
    → All IsSlice slices
    → Lacks 10 rest
    → Lacks 10 line'
    → IsBlock (line' ++ b)
    → stream slices rest ≡ b ++ t
    → length block + length b ≤ limit
    → Finds limit rest fault block line' slices b t
unfolding Finds
header_loop_complete limit rest fault block line' [] b t is lacks_rest lacks' whole_block from
      small =
    let o = IsBlock-open line' b lacks' whole_block in
    let e = from ∙ ap (λ x. x ++ t) o.whole ∙ append_assoc o.piece (10 ∷ o.others) t in
    absurd (Lacks-ne-append o.piece (o.others ++ t) (subst (Lacks 10) e lacks_rest))
header_loop_complete limit rest fault block line' (full f ∷ slices) b t (lacks, is) lacks_rest
      lacks' whole_block from small =
    let o = IsBlock-open line' b lacks' whole_block in
    let e = from ∙ ap (λ x. x ++ t) o.whole ∙ append_assoc o.piece (10 ∷ o.others) t in
    let (p, here, later) = skip_prefix f (stream slices rest) o.piece (o.others ++ t) lacks e in
    let b' = p ++ 10 ∷ o.others in
    let split : b ≡ f ++ b' =
      o.whole ∙ ap (λ x. x ++ 10 ∷ o.others) here ∙ append_assoc f p (10 ∷ o.others) in
    let size : length b ≡ length f + length b' = ap length split ∙ length-append f b' in
    let size' : length b' ≡ length p + suc (length o.others) = length-append p (10 ∷ o.others) in
    let (after, h, k) =
      header_loop_complete limit rest fault (block ++ f) (line' ++ f) slices b' t is lacks_rest
        (All-append (λ c. c ≢ 10) line' f lacks' lacks)
        (subst IsBlock (ap (λ x. line' ++ x) split ∙ sym (append_assoc line' f b')) whole_block)
        (later ∙ sym (append_assoc p (10 ∷ o.others) t))
        (omega (arith, length-append block f, size)) in
    (
      after,
      step_full limit rest fault block line' f slices (omega (arith, size, size'))
            (omega (arith, size))
          ∙ h
          ∙ ap (λ x. block_read x after)
              (append_assoc block f b' ∙ ap (λ x. block ++ x) (sym split)),
      k,
    )
header_loop_complete limit rest fault block line' (found f ∷ slices) b t ((g, e, lacks), is)
      lacks_rest lacks' whole_block from small =
    let o = IsBlock-open line' b lacks' whole_block in
    let here =
      sym (append_assoc g (10 ∷ []) (stream slices rest))
      ∙ ap (λ x. x ++ stream slices rest) (sym e)
      ∙ from
      ∙ ap (λ x. x ++ t) o.whole
      ∙ append_assoc o.piece (10 ∷ o.others) t in
    let (same_piece, later) =
      same_line g (stream slices rest) o.piece (o.others ++ t) lacks o.lacks here in
    let f_is : f ≡ o.piece ++ 10 ∷ [] = e ∙ ap (λ x. x ++ 10 ∷ []) same_piece in
    let split : b ≡ f ++ o.others =
      o.whole
      ∙ sym (append_assoc o.piece (10 ∷ []) o.others)
      ∙ ap (λ x. x ++ o.others) (sym f_is) in
    let size : length b ≡ length f + length o.others = ap length split ∙ length-append f o.others in
    let size' : length f ≡ length o.piece + 1 = ap length f_is ∙ length-append o.piece (10 ∷ []) in
    let line_is : line' ++ f ≡ (line' ++ o.piece) ++ 10 ∷ [] =
      ap (λ x. line' ++ x) f_is ∙ sym (append_assoc line' o.piece (10 ∷ [])) in
    let step =
      step_found limit rest fault block line' f slices (omega (arith, size, size'))
        (omega (arith, size)) in
    elim o.ends [
      | inl (blank, none_left) ↦
          let ended : is_blank (line' ++ f) ≡ true =
            ap is_blank line_is ∙ (blank_line (line' ++ o.piece)).1 blank in
          let b_is : b ≡ f = split ∙ ap (λ x. f ++ x) none_left ∙ append-nil f in
          (
            slices,
            rw ended at step ∙ ap (λ x. block_read (block ++ x) slices) (sym b_is),
            later ∙ ap (λ x. x ++ t) none_left,
          )
      | inr (filled, no_return, more) ↦
          let goes_on : is_blank (line' ++ f) ≡ false = elim (Bool-cases (is_blank (line' ++ f))) [
            | inr n ↦ n
            | inl y ↦ elim ((blank_line (line' ++ o.piece)).0 (sym (ap is_blank line_is) ∙ y)) [
              | inl bad ↦ absurd (filled bad)
              | inr bad ↦ absurd (no_return bad)
            ]
          ] in
          let (after, h, k) =
            header_loop_complete limit rest fault (block ++ f) [] slices o.others t is lacks_rest tt
              more later (omega (arith, length-append block f, size)) in
          (
            after,
            rw goes_on at step
                ∙ h
                ∙ ap (λ x. block_read x after)
                    (append_assoc block f o.others ∙ ap (λ x. block ++ x) (sym split)),
            k,
          )
    ]

-- `readHeaderBlock` reads a block if and only if the bytes of its reader begin with it: lines that
-- are not blank and then a blank one, of at most 2^20 bytes together, however the reader cuts its
-- input into slices. The reader is left with the bytes behind the block. It is a reader as `ReadSlice`
-- documents it: line feeds stand only at the ends of the slices that were found.
pub read_header_block_iff :
    (reader : Reader) (block t : Bytes)
    → IsReader reader
    → ((after : List Slice) × (read_header_block reader ≡ block_read block after)
        × (stream after reader.rest ≡ t))
      ↔ (IsBlock block
          × (length block ≤ max_response_header_bytes)
          × (stream reader.slices reader.rest ≡ block ++ t))
unfolding read_header_block Finds
read_header_block_iff reader block t lawful = (
  λ (after, h, k).
      let r =
        header_loop-Reads max_response_header_bytes reader.rest reader.fault [] [] reader.slices
          lawful.slices tt h in
      (
        subst IsBlock (sym r.out_is) r.is_block,
        r.small,
        r.from ∙ ap (λ x. x ++ stream after reader.rest) (sym r.out_is) ∙ ap (λ x. block ++ x) k,
      ),
  λ (is_block, small, from).
      header_loop_complete max_response_header_bytes reader.rest reader.fault [] [] reader.slices
        block t lawful.slices lawful.rest tt is_block from (omega (arith, small)),
)
