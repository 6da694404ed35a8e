-- ===== src/Response/Output.antt =====
-- internal/curlu/client.go: `writeAll` and the copy of a body, by what the output got.
use curlu.Base.{
  ℕ, zero, suc, Option, none, some, List, [], ◌∷◌, ◌++◌, append_assoc, append-nil, ◌+◌, ◌≡◌, refl,
  sym, ap, ◌∙◌, arith, Bytes, length, take, drop, take-append-drop, take_rest, take-length,
  take_all, Option-cases, inl, inr,
}
use curlu.Fault.{Fault}
use curlu.Response.Defs.{Writer, write_loop, write_all, tracked, tracking_write, copy}

abbrev pub concat : List Bytes → Bytes
concat [] = []
concat (p ∷ ps) = p ++ concat ps

-- The output got the first `n` bytes of the text, and all of it if there is no error.
pub record Wrote (w : Writer) (text : Bytes) (w' : Writer) (e : Option Fault) : Type 0 where
  pub count : ℕ
  pub out : w'.out ≡ w.out ++ take count text
  pub all : e ≡ none → take count text ≡ text

write_loop-Wrote :
    (out text : Bytes) (answers : List (ℕ × Option Fault)) (w : Writer)
    → w.out ≡ out
    → Wrote w text (write_loop out text answers).0 (write_loop out text answers).1
unfolding write_loop
write_loop-Wrote out [] answers w e = record {
  count = 0;
  out = sym e ∙ sym (append-nil w.out);
  all = λ _. refl;
}
write_loop-Wrote out (b ∷ text) [] w e = record {
  count = length (b ∷ text);
  out = ap (λ o. o ++ b ∷ text) (sym e) ∙ ap (λ x. w.out ++ x) (sym (take-length (b ∷ text)));
  all = λ _. take-length (b ∷ text);
}
write_loop-Wrote out (b ∷ text) ((k, some x) ∷ answers) w e = record {
  count = k;
  out = ap (λ o. o ++ take k (b ∷ text)) (sym e);
  all = λ bad. absurd (cc bad);
}
write_loop-Wrote out (b ∷ text) ((zero, none) ∷ answers) w e = record {
  count = 0;
  out = sym e ∙ sym (append-nil w.out);
  all = λ bad. absurd (cc bad);
}
write_loop-Wrote out (b ∷ text) ((suc k, none) ∷ answers) w e =
    let first = take (suc k) (b ∷ text) in
    let r =
      write_loop-Wrote (out ++ first) (drop (suc k) (b ∷ text)) answers
        (record w { out = out ++ first }) refl in
    let joined = take_rest (suc k) r.count (b ∷ text) in
    record {
      count = length first + r.count;
      out =
          r.out
          ∙ append_assoc out first (take r.count (drop (suc k) (b ∷ text)))
          ∙ ap (λ x. out ++ x) joined
          ∙ ap (λ o. o ++ take (length first + r.count) (b ∷ text)) (sym e);
      all = λ fine.
          sym joined ∙ ap (λ x. first ++ x) (r.all fine) ∙ take-append-drop (suc k) (b ∷ text);
    }

-- `writeAll` gives the output the first bytes of the text, in order and each once, and all of them
-- if it returns no error, whatever the output takes at a time.
pub write_all-Wrote :
    (w : Writer) (text : Bytes) → Wrote w text (write_all w text).0 (write_all w text).1
unfolding write_all
write_all-Wrote w text = write_loop-Wrote w.out text w.answers w refl

-- Without an error everything was taken.
tracked-all :
    (out text : Bytes) (k : ℕ) (e : Option Fault) (answers : List (ℕ × Option Fault))
    → (tracked out text k e answers).1 ≡ none
    → (tracked out text k e answers).0.out ≡ out ++ text
tracked-all out text k (some x) answers h = absurd (cc h)
tracked-all out text k none answers h = ap (λ t. out ++ t) (take_all k text (ground arith))

tracking_write-by :
    (w : Writer) (text : Bytes) (answers : List (ℕ × Option Fault))
    → w.answers ≡ answers
    → (tracking_write w text).1 ≡ none
    → (tracking_write w text).0.out ≡ w.out ++ text
unfolding tracking_write
tracking_write-by w text [] e h = ground (arith, e)
tracking_write-by w text ((k, x) ∷ answers) e h =
    let stepped : tracking_write w text ≡ tracked w.out text k x answers =
      rw (e, tracking_write) refl in
    ap (λ r. r.0.out) stepped ∙ tracked-all w.out text k x answers (sym (ap (λ r. r.1) stepped) ∙ h)

copy_stops :
    (w : Writer) (piece : Bytes) (pieces : List Bytes) (end : Option Fault) {x : Fault}
    → (tracking_write w piece).1 ≡ some x
    → (copy w (piece ∷ pieces) end).tracker_error ≡ some x
unfolding copy
copy_stops w piece pieces end e = rw (e, copy) refl

copy_continues :
    (w : Writer) (piece : Bytes) (pieces : List Bytes) (end : Option Fault)
    → (tracking_write w piece).1 ≡ none
    → copy w (piece ∷ pieces) end ≡ copy (tracking_write w piece).0 pieces end
unfolding copy
copy_continues w piece pieces end e = rw (e, copy) refl

pub copy-all :
    (w : Writer) (pieces : List Bytes) (end : Option Fault)
    → (copy w pieces end).tracker_error ≡ none
    → ((copy w pieces end).copy_error ≡ end)
      × ((copy w pieces end).writer.out ≡ w.out ++ concat pieces)
unfolding copy
copy-all w [] end h = (refl, sym (append-nil w.out))
copy-all w (piece ∷ pieces) end h = elim (Option-cases (tracking_write w piece).1) [
  | inr (x, e) ↦ absurd (cc (h, copy_stops w piece pieces end e))
  | inl e ↦
      let stepped = copy_continues w piece pieces end e in
      let (a, b) =
        copy-all (tracking_write w piece).0 pieces end
          (sym (ap (λ c. c.tracker_error) stepped) ∙ h) in
      (
        ap (λ c. c.copy_error) stepped ∙ a,
        ap (λ c. c.writer.out) stepped
            ∙ b
            ∙ ap (λ o. o ++ concat pieces) (tracking_write-by w piece w.answers refl e)
            ∙ append_assoc w.out piece (concat pieces),
      )
]
