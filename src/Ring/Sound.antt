-- ===== src/Ring/Sound.antt =====
-- What each step on the ring of replay/src/ring_reader.rs keeps: the bytes that were published and
-- not read lie in it from the read cursor on, and those copied and not published behind them.
use Prim.Native.Nat.{bit_and}
use flowlab.Prelude.{
  sub_u64, ℕ, ◌+◌, ◌-◌, ◌%◌, ◌^◌, ◌≤◌, ◌<◌, true, false, ◌≡◌, refl, ◌∙◌, ap, sym, subst, List, [],
  ◌++◌, append-nil, append_assoc, Option, none, some, length, length-append, length-take,
  length-drop, take, drop, take-append-drop, take_front, drop_front, get_or, get_or-drop,
  get_or-append, get_or_ext, ltb, ◌==◌, if◌then◌else◌, arith, Bool-cases, inl, inr, u64_mod,
  add_u64, add_u64_of_lt, bit_and-mask, pow_pos,
}
use flowlab.Ring.{Handle, RingError, available, advance, write_copy, publish, copy_in}
use flowlab.Ring.Copy.{length-copy_in}
use flowlab.Ring.Window.{Stored, Stored-copy_in, wrapped-Stored, place-lt}
use flowlab.Ring.Steps.{System, copied, published, looked, advanced}

abbrev pub pending : Option (List ℕ) → List ℕ
pending none = []
pending (some b) = b

abbrev pub handle : ℕ → Handle
handle cap = record { capacity = cap; mask = cap - 1 }

-- The bytes `q` were published and not yet read.
pub record Sound (cap : ℕ) (s : System) (q : List ℕ) : Type 0 where
  pub whole : length s.mapping.payload ≡ cap
  pub order : s.received ++ q ≡ s.sent
  pub at_write : s.mapping.write_idx ≡ length s.sent
  pub at_read : s.mapping.read_idx ≡ length s.received
  pub room : length q + length (pending s.writing) ≤ cap
  pub stored : Stored cap s.mapping.read_idx s.mapping.payload (q ++ pending s.writing)
  pub peeked : pending s.reading ≡ take (length (pending s.reading)) q
  pub peeked_room : length (pending s.reading) ≤ length q

module _ (k : ℕ) (small : 2 ^ k < u64_mod) (s : System) (q : List ℕ) (i : Sound (2 ^ k) s q)
    (few : length s.sent < u64_mod) where
  counts : length s.received + length q ≡ length s.sent
  counts = sym (length-append s.received q) ∙ ap length i.order

  unread : sub_u64 s.mapping.write_idx s.mapping.read_idx ≡ length q
  unfolding sub_u64
  unread = let w = i.at_write in let r = i.at_read in let c = counts in omega (arith, w, r, c)

  place_write : bit_and s.mapping.write_idx (2 ^ k - 1) ≡ (s.mapping.read_idx + length q) % 2 ^ k
  place_write =
      bit_and-mask k s.mapping.write_idx
      ∙ ap (λ n. n % 2 ^ k)
          (let w = i.at_write in let r = i.at_read in let c = counts in omega (arith, w, r, c))

  -- with nothing copied, the window is that of the queue
  bytes_when_idle : s.writing ≡ none → Stored (2 ^ k) s.mapping.read_idx s.mapping.payload q
  bytes_when_idle idle =
      subst (Stored (2 ^ k) s.mapping.read_idx s.mapping.payload)
        (ap (λ o. q ++ pending o) idle ∙ append-nil q) i.stored

  copies_result :
      (batch : List ℕ)
      → length q + length batch ≤ 2 ^ k
      → write_copy (handle (2 ^ k)) s.mapping batch ≡ (
        none,
        record s.mapping {
          payload =
              copy_in (2 ^ k) s.mapping.payload ((s.mapping.read_idx + length q) % 2 ^ k) batch;
        },
      )
  copies_result batch fits =
      let free : sub_u64 (2 ^ k) (sub_u64 s.mapping.write_idx s.mapping.read_idx)
          ≡ 2 ^ k - length q =
        ap (sub_u64 (2 ^ k)) unread ∙ unfold sub_u64 in omega (arith, fits, small) in
      let has_room : ltb (2 ^ k - length q) (length batch) ≡ false = ground (arith, fits) in
      unfold write_copy in rw (free, has_room, place_write) refl

  copies_full :
      (batch : List ℕ)
      → 2 ^ k < length q + length batch
      → write_copy (handle (2 ^ k)) s.mapping batch
        ≡ (some (RingError.full (length batch) (2 ^ k - length q)), s.mapping)
  copies_full batch over =
      let room = i.room in
      let free : sub_u64 (2 ^ k) (sub_u64 s.mapping.write_idx s.mapping.read_idx)
          ≡ 2 ^ k - length q =
        ap (sub_u64 (2 ^ k)) unread ∙ unfold sub_u64 in omega (arith, room, small) in
      let no_room : ltb (2 ^ k - length q) (length batch) ≡ true = ground (arith, over) in
      unfold write_copy in rw (free, no_room) refl

  pub copies-Sound :
      (batch : List ℕ)
      → s.writing ≡ none
      → Sound (2 ^ k) (copied batch s (write_copy (handle (2 ^ k)) s.mapping batch)) q
  copies-Sound batch idle = elim (Bool-cases (ltb (2 ^ k) (length q + length batch))) [
    | inl over ↦
        subst (λ r. Sound (2 ^ k) (copied batch s r) q) (sym (copies_full batch (ground arith))) i
    | inr fits ↦
        let room : length q + length batch ≤ 2 ^ k = ground arith in
        let begin = (s.mapping.read_idx + length q) % 2 ^ k in
        let inside = place-lt (s.mapping.read_idx + length q) (2 ^ k) (pow_pos k) in
        subst (λ r. Sound (2 ^ k) (copied batch s r) q) (sym (copies_result batch room))
          record {
            whole =
                length-copy_in (2 ^ k) s.mapping.payload begin batch i.whole inside (omega arith);
            order = i.order;
            at_write = i.at_write;
            at_read = i.at_read;
            room = room;
            stored =
                Stored-copy_in (2 ^ k) s.mapping.read_idx s.mapping.payload q i.whole (pow_pos k)
                  batch room (bytes_when_idle idle);
            peeked = i.peeked;
            peeked_room = i.peeked_room;
          }
  ]

  pub publishes-Sound :
      (batch : List ℕ)
      → s.writing ≡ some batch
      → length s.sent + length batch < u64_mod
      → Sound (2 ^ k) (published s (some batch)) (q ++ batch)
  unfolding publish
  publishes-Sound batch busy more =
      let size = length-append q batch in
      let w = i.at_write in
      let joined : q ++ pending s.writing ≡ (q ++ batch) ++ [] =
        ap (λ o. q ++ pending o) busy ∙ sym (append-nil (q ++ batch)) in
      let room : length q + length batch ≤ 2 ^ k =
        subst (λ o. length q + length (pending o) ≤ 2 ^ k) busy i.room in
      record {
        whole = i.whole;
        order = sym (append_assoc s.received q batch) ∙ ap (λ l. l ++ batch) i.order;
        at_write =
            add_u64_of_lt s.mapping.write_idx (length batch) (omega (arith, w, more))
            ∙ omega (arith, w, length-append s.sent batch);
        at_read = i.at_read;
        room = omega (arith, size, room);
        stored = subst (Stored (2 ^ k) s.mapping.read_idx s.mapping.payload) joined i.stored;
        peeked = i.peeked ∙ sym (take_front (length (pending s.reading)) q batch i.peeked_room);
        peeked_room = let p = i.peeked_room in omega (arith, p, size);
      }

  -- The slices show the first bytes that were published and not read.
  shows :
      (max_bytes : ℕ)
      → (available (handle (2 ^ k)) s.mapping max_bytes).0
          ++ (available (handle (2 ^ k)) s.mapping max_bytes).1
        ≡ take (if ltb max_bytes (length q) then max_bytes else length q) q
  shows max_bytes =
      let n = if ltb max_bytes (length q) then max_bytes else length q in
      let early : n ≤ length q = ground arith in
      let room = i.room in
      elim (Bool-cases (length q == 0)) [
        | inl empty ↦
            unfold available in
            rw (unread, empty)
              (get_or_ext 0 [] (take n q) (ground (arith, length-take n q, early))
                (λ j h. absurd (omega (arith, h))))
        | inr more ↦
            unfold available in
            rw (unread, more, bit_and-mask k s.mapping.read_idx)
              (wrapped-Stored (2 ^ k) s.mapping.read_idx s.mapping.payload q i.whole (pow_pos k) n
                (2 ^ k - 1) early (omega (arith, room)) stored_queue)
      ]
    where
      stored_queue : Stored (2 ^ k) s.mapping.read_idx s.mapping.payload q
      stored_queue j h =
          let w = pending s.writing in
          i.stored j (omega (arith, h, length-append q w)) ∙ (get_or-append q w j 0).0 h

  pub looks-Sound :
      (max_bytes : ℕ) → Sound (2 ^ k) (looked s (available (handle (2 ^ k)) s.mapping max_bytes)) q
  looks-Sound max_bytes =
      let n = if ltb max_bytes (length q) then max_bytes else length q in
      let seen = shows max_bytes in
      let early : n ≤ length q = ground arith in
      let size : length (take n q) ≡ n = omega (arith, length-take n q, early) in
      record {
        whole = i.whole;
        order = i.order;
        at_write = i.at_write;
        at_read = i.at_read;
        room = i.room;
        stored = i.stored;
        peeked = seen ∙ ap (λ m. take m q) (sym (ap length seen ∙ size));
        peeked_room = omega (arith, ap length seen, size, early);
      }

  pub advances-Sound :
      (seen : List ℕ)
      → s.reading ≡ some seen
      → Sound (2 ^ k) (advanced s (some seen)) (drop (length seen) q)
  unfolding advance
  advances-Sound seen busy =
      let n = length seen in
      let early : n ≤ length q = subst (λ o. length (pending o) ≤ length q) busy i.peeked_room in
      let same : seen ≡ take n q =
        subst (λ o. pending o ≡ take (length (pending o)) q) busy i.peeked in
      let r = i.at_read in
      let c = counts in
      let room = i.room in
      let w = s.writing in
      let next : add_u64 s.mapping.read_idx n ≡ s.mapping.read_idx + n =
        add_u64_of_lt s.mapping.read_idx n (omega (arith, r, c, early)) in
      let left = length-drop n q in
      record {
        whole = i.whole;
        order =
            append_assoc s.received seen (drop n q)
            ∙ ap (λ l. s.received ++ l) (ap (λ l. l ++ drop n q) same ∙ take-append-drop n q)
            ∙ i.order;
        at_write = i.at_write;
        at_read = next ∙ omega (arith, r, length-append s.received seen);
        room = omega (arith, room, left);
        stored = λ j h.
            let behind = drop_front n q (pending w) early in
            let size = length-append q (pending w) in
            let size_left = length-append (drop n q) (pending w) in
            ap (λ x. get_or s.mapping.payload (x % 2 ^ k) 0) (omega (arith, next))
            ∙ i.stored (n + j) (omega (arith, size, size_left, left, early))
            ∙ get_or-drop (q ++ pending w) n j 0
            ∙ ap (λ l. get_or l j 0) behind;
        peeked = refl;
        peeked_room = omega arith;
      }
