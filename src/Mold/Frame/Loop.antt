-- ===== src/Mold/Frame/Loop.antt =====
-- The loop of `GapTracker::ingest` over the messages of a frame.
use flowlab.Prelude.{
  slice, ℕ, zero, suc, ◌+◌, ◌-◌, ◌*◌, ◌/◌, ◌%◌, ◌≤◌, ◌<◌, Bool, true, false, ◌≡◌, refl, ◌∙◌, ap,
  none, some, List, [], ◌∷◌, ◌++◌, ltb, ◌==◌, ◌||◌, not, ◌&&◌, add_u64, add_u64_of_lt, length, take,
  drop, get_or, length-drop, get_or-drop, drop-drop, take-length, drop-length, length-append, ap₂,
  from_be_bytes, from_le_bytes, arith, inr, u64_mod,
}
use flowlab.Mold.Gap.{Payload, Delivered, GapTracker, ingest_all}
use flowlab.Mold.Frame.{MoldMessageIter, next, length_at, ingest_loop}

-- The iterator has messages to come, and the next is cut off.
abbrev pub is_cut_off : MoldMessageIter → Bool
is_cut_off it =
    not (it.remaining == 0)
    && (ltb (length it.body) (it.offset + 2)
        || ltb (length it.body) (it.offset + 2 + length_at it.body it.offset))

next-is_cut_off : (it : MoldMessageIter) → is_cut_off it ≡ true → (next it).1 ≡ it
unfolding next
next-is_cut_off it h = ground arith

-- A cut-off message is reported by the iterator, which stays where it is: the loop that skips it
-- never ends, whatever fuel it is given.
pub ingest_loop-is_cut_off :
    (fuel : ℕ) (it : MoldMessageIter) (t : GapTracker) (out : List Delivered)
    → is_cut_off it ≡ true
    → ingest_loop fuel it t out ≡ none
unfolding ingest_loop next
ingest_loop-is_cut_off zero it t out h = refl
ingest_loop-is_cut_off (suc fuel) it t out h =
    ground (arith, ingest_loop-is_cut_off fuel it t out h)

-- The body of a frame as its format says: each message behind its length, high byte first.
abbrev pub encode_body : List Payload → List ℕ
encode_body [] = []
encode_body (m ∷ ms) = (length m / 256) ∷ (length m % 256) ∷ (m ++ encode_body ms)

-- the messages under consecutive numbers
abbrev pub numbered : ℕ → List Payload → List (ℕ × Payload)
numbered seq [] = []
numbered seq (m ∷ ms) = (seq, m) ∷ numbered (seq + 1) ms

from_be_bytes-pair : (a b : ℕ) → from_be_bytes (a ∷ b ∷ []) ≡ b + 256 * a
from_be_bytes-pair a b = unfold from_be_bytes from_le_bytes in omega arith

-- Where the iterator stands before a whole message.
module _ (it : MoldMessageIter) (m : Payload) (rest : List ℕ)
    (at : drop it.offset it.body ≡ (length m / 256) ∷ (length m % 256) ∷ (m ++ rest)) where
  length_at-message : length_at it.body it.offset ≡ length m
  length_at-message =
      ap₂ (λ a b. from_be_bytes (a ∷ b ∷ []))
        (ap (λ k. get_or it.body k 0) (omega arith)
          ∙ get_or-drop it.body it.offset 0 0
          ∙ ap (λ l. get_or l 0 0) at)
        (get_or-drop it.body it.offset 1 0 ∙ ap (λ l. get_or l 1 0) at)
      ∙ from_be_bytes-pair _ _
      ∙ omega arith

  ends : it.offset + 2 + length m ≤ length it.body
  ends = omega (arith, length-drop it.offset it.body, ap length at, length-append m rest)

  slice-message : slice it.body (it.offset + 2) (it.offset + 2 + length m) ≡ m
  slice-message =
      let whole : it.offset + 2 + length m - (it.offset + 2) ≡ length m = omega arith in
      ap₂ take whole (drop-drop it.body it.offset 2 ∙ ap (drop 2) at) ∙ take-length m rest

  after : drop (it.offset + 2 + length m) it.body ≡ rest
  after =
      let sum : it.offset + 2 + length m ≡ it.offset + suc (suc (length m)) = omega arith in
      ap (λ k. drop k it.body) sum
      ∙ drop-drop it.body it.offset (suc (suc (length m)))
      ∙ ap (drop (suc (suc (length m)))) at
      ∙ drop-length m rest

  next-message :
      (0 < it.remaining)
      → next it ≡ (
        some (inr (it.next_seq, m)),
        record it {
          next_seq = add_u64 it.next_seq 1;
          offset = it.offset + 2 + length m;
          remaining = it.remaining - 1;
        },
      )
  unfolding next
  next-message more =
      let some_left : (it.remaining == 0) ≡ false = ground arith in
      let header : ltb (length it.body) (it.offset + 2) ≡ false = ground (arith, ends) in
      let whole : ltb (length it.body) (it.offset + 2 + length m) ≡ false = ground (arith, ends) in
      rw (some_left, header, length_at-message, whole, slice-message) refl

-- The loop over a body of whole messages ends, with fuel for one step more than there are messages,
-- and takes them in one after the other under consecutive numbers. The numbers stay below 2 ^ 64.
pub ingest_loop-encode_body :
    (messages : List Payload) (fuel : ℕ) (it : MoldMessageIter) (t : GapTracker)
    (out : List Delivered)
    → drop it.offset it.body ≡ encode_body messages
    → it.remaining ≡ length messages
    → length messages < fuel
    → it.next_seq + length messages < u64_mod
    → ingest_loop fuel it t out ≡ some (ingest_all (numbered it.next_seq messages) t out)
unfolding ingest_loop ingest_all
ingest_loop-encode_body messages zero it t out at n room word = absurd (omega arith)
ingest_loop-encode_body [] (suc fuel) it t out at n room word = unfold next in rw n refl
ingest_loop-encode_body (m ∷ ms) (suc fuel) it t out at n room word =
    let counted : add_u64 it.next_seq 1 ≡ it.next_seq + 1 =
      add_u64_of_lt it.next_seq 1 (omega arith) in
    let step = next-message it m (encode_body ms) at (omega arith) in
    rw (ingest_loop, step, step, counted)
      (ingest_loop-encode_body ms fuel _ _ _ (after it m (encode_body ms) at) (omega arith)
        (omega arith) (omega arith))
