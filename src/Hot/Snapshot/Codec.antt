-- ===== src/Hot/Snapshot/Codec.antt =====
-- The records of the snapshot of core/src/hot_book.rs, written and read.
use flowlab.Prelude.{
  ℕ, ◌+◌, ◌*◌, ◌%◌, ◌<◌, false, ◌≡◌, refl, ◌∙◌, ap, ap₂, sym, List, [], ◌∷◌, ◌++◌, append_assoc,
  length, length-append, take, drop, take-length, drop-length, All, ltb, to_le_bytes, from_le_bytes,
  from_le_bytes-to_le_bytes, u32_mod, u64_mod, arith, inr,
}
use flowlab.Ladder.{Level}
use flowlab.Hot.Slab.{OrderMeta}
use flowlab.Hot.Snapshot.{
  write_level, read_level, write_meta, read_meta, write_slot, read_slot, write_entry, read_entry,
  write_all, write_counted, read_all, read_counted,
}

-- A record that takes `size` bytes and is read back from them.
pub record Coded {A : Type 0} (write : A → List ℕ) (read : List ℕ → A) (size : ℕ) (x : A)
    : Type 0 where
  pub sized : length (write x) ≡ size
  pub back : read (write x) ≡ x

module _ {A : Type 0} (write : A → List ℕ) (read : List ℕ → A) (size : ℕ) where
  pub length-write_all :
      (xs : List A)
      → All (Coded write read size) xs
      → length (write_all write xs) ≡ length xs * size
  unfolding write_all
  length-write_all [] c = omega arith
  length-write_all (x ∷ xs) (c, cs) =
      let one = c.sized in
      length-append (write x) (write_all write xs)
      ∙ ap₂ (λ a b. a + b) one (length-write_all xs cs)
      ∙ grind arith

  pub read_all-write_all :
      (xs : List A) (rest : List ℕ)
      → All (Coded write read size) xs
      → read_all read size (length xs) (write_all write xs ++ rest) ≡ (xs, rest)
  unfolding read_all write_all
  read_all-write_all [] rest c = refl
  read_all-write_all (x ∷ xs) rest (c, cs) =
      let more = write_all write xs ++ rest in
      let split : (write x ++ write_all write xs) ++ rest ≡ write x ++ more =
        append_assoc (write x) (write_all write xs) rest in
      let head : read (take size ((write x ++ write_all write xs) ++ rest)) ≡ x =
        ap₂ (λ n l. read (take n l)) (sym c.sized) split
        ∙ ap read (take-length (write x) more)
        ∙ c.back in
      let tail : drop size ((write x ++ write_all write xs) ++ rest) ≡ more =
        ap₂ drop (sym c.sized) split ∙ drop-length (write x) more in
      let others = ap (read_all read size (length xs)) tail ∙ read_all-write_all xs rest cs in
      ap₂ (λ y (r : List A × List ℕ). (y ∷ r.0, r.1)) head others

  pub read_counted-write_counted :
      (total : ℕ) (xs : List A) (rest : List ℕ)
      → All (Coded write read size) xs
      → length xs < u32_mod
      → read_counted total read size (write_counted write xs ++ rest) ≡ inr (xs, rest)
  unfolding write_counted to_le_bytes
  read_counted-write_counted total xs rest c small =
      let n = length xs % u32_mod in
      let body = write_all write xs ++ rest in
      let word : n ≡ length xs = omega (arith, small) in
      let split : (to_le_bytes 4 n ++ write_all write xs) ++ rest ≡ to_le_bytes 4 n ++ body =
        append_assoc (to_le_bytes 4 n) (write_all write xs) rest in
      let count : from_le_bytes (to_le_bytes 4 n) ≡ length xs =
        from_le_bytes-to_le_bytes 4 n (omega arith) ∙ word in
      let short : ltb (length (to_le_bytes 4 n ++ body)) 4 ≡ false = ground arith in
      let fits : ltb (length body) (length xs * size) ≡ false =
        ground (arith, length-append (write_all write xs) rest, length-write_all xs c) in
      ap (read_counted total read size) split
      ∙ unfold read_counted in rw (short, count, fits) (ap inr (read_all-write_all xs rest c))

-- the words of the records
abbrev pub LevelFits : Level → Type 0
LevelFits l = (l.price < u64_mod) × (l.total_qty < u64_mod) × (l.order_count < u32_mod)

abbrev pub MetaFits : OrderMeta → Type 0
MetaFits m = (m.price < u64_mod) × (m.qty < u64_mod) × (m.side < 256)

abbrev pub EntryFits : ℕ × ℕ → Type 0
EntryFits e = (e.0 < u64_mod) × (e.1 < u32_mod)

pub level-Coded : (l : Level) → LevelFits l → Coded write_level read_level 24 l
unfolding write_level read_level to_le_bytes
level-Coded l (p, q, c) = record {
  sized = refl;
  back = λ i. record {
    price = from_le_bytes-to_le_bytes 8 l.price p i;
    total_qty = from_le_bytes-to_le_bytes 8 l.total_qty q i;
    order_count = from_le_bytes-to_le_bytes 4 l.order_count c i;
  };
}

pub meta-Coded : (m : OrderMeta) → MetaFits m → Coded write_meta read_meta 24 m
unfolding write_meta read_meta to_le_bytes
meta-Coded m (p, q, s) = record {
  sized = refl;
  back = λ i. record {
    price = from_le_bytes-to_le_bytes 8 m.price p i;
    qty = from_le_bytes-to_le_bytes 8 m.qty q i;
    side = from_le_bytes-to_le_bytes 1 m.side s i;
  };
}

pub slot-Coded : (s : ℕ) → s < u32_mod → Coded write_slot read_slot 4 s
unfolding write_slot read_slot to_le_bytes
slot-Coded s h = record { sized = refl; back = from_le_bytes-to_le_bytes 4 s h }

pub entry-Coded : (e : ℕ × ℕ) → EntryFits e → Coded write_entry read_entry 12 e
unfolding write_entry read_entry to_le_bytes
entry-Coded (k, v) (hk, hv) = record {
  sized = refl;
  back = λ i. (from_le_bytes-to_le_bytes 8 k hk i, from_le_bytes-to_le_bytes 4 v hv i);
}
