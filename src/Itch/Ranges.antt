-- ===== src/Itch/Ranges.antt =====
-- The events that a parse of bytes gives have their fields in range, of replay/src/itch.rs.
use flowlab.Prelude.{
  ℕ, zero, suc, ◌+◌, ◌^◌, ◌≤◌, ◌<◌, Bool, true, false, ◌≡◌, refl, Option, none, some, List, [], ◌∷◌,
  length, take, drop, All, All-take, All-drop, ltb, leb, ◌==◌, ◌||◌, ◌&&◌, if◌then◌else◌, get_or,
  from_be_bytes, from_le_bytes, arith, Bool-cases, ◌⊎◌, inl, inr, u32_mod, u64_mod,
}
use flowlab.Event.{Event}
use flowlab.Itch.{
  byte, rd_u16, rd_u32, rd_u64, rd_ts48, common, side_of, parse_add_order, parse_order_delete,
  parse_order_cancel, parse_order_executed, parse_trade, dispatch_type, dispatch, BufferError,
  msg_length, parse_from, parse_buffer, push_some,
}

abbrev pub IsByte : ℕ → Type 0
IsByte b = b < 256

-- The words that a message has room for.
pub record InRange (e : Event) : Type 0 where
  pub time : e.ts < 2 ^ 48
  pub priced : e.price < u32_mod
  pub quantity : e.qty < u32_mod
  pub order : e.order_id < u64_mod
  pub instrument : e.instrument_id < 2 ^ 16
  pub sided : e.side ≤ 1
  pub padded : e.pad ≡ 0

-- a predicate of an optional value
abbrev pub Every {ℓ} : {A : Type ℓ} → (A → Type 0) → Option A → Type 0
Every P none = Unit
Every P (some a) = P a

side_of-le : (b : ℕ) → side_of b ≤ 1
side_of-le b = ground arith

module _ (m : List ℕ) (bytes : All IsByte m) where
  byte-IsByte : (i : ℕ) → byte 0 m i < 256
  byte-IsByte i = go m bytes i
    where
      go : (xs : List ℕ) → All IsByte xs → (i : ℕ) → get_or xs i 0 < 256
      go [] h i = omega arith
      go (x ∷ xs) (h, hs) zero = h
      go (x ∷ xs) (h, hs) (suc i) = go xs hs i

  rd_u16-lt : (i : ℕ) → rd_u16 0 m i < 2 ^ 16
  unfolding rd_u16 from_be_bytes from_le_bytes
  rd_u16-lt i = omega (arith, byte-IsByte i, byte-IsByte (i + 1))

  rd_u32-lt : (i : ℕ) → rd_u32 0 m i < u32_mod
  unfolding rd_u32 from_be_bytes from_le_bytes
  rd_u32-lt i =
      omega (arith, byte-IsByte i, byte-IsByte (i + 1), byte-IsByte (i + 2), byte-IsByte (i + 3))

  rd_u64-lt : (i : ℕ) → rd_u64 0 m i < u64_mod
  unfolding rd_u64 from_be_bytes from_le_bytes
  rd_u64-lt i = omega (
    arith,
    byte-IsByte i,
    byte-IsByte (i + 1),
    byte-IsByte (i + 2),
    byte-IsByte (i + 3),
    byte-IsByte (i + 4),
    byte-IsByte (i + 5),
    byte-IsByte (i + 6),
    byte-IsByte (i + 7),
  )

  rd_ts48-lt : (i : ℕ) → rd_ts48 0 m i < 2 ^ 48
  unfolding rd_ts48
  rd_ts48-lt i = omega (arith, rd_u16-lt i, rd_u32-lt (i + 2))

  common-InRange :
      {price qty kind side : ℕ}
      → price < u32_mod
      → qty < u32_mod
      → side ≤ 1
      → InRange (record (common 0 m) { price = price; qty = qty; event_type = kind; side = side })
  common-InRange hp hq hs = record {
    time = rd_ts48-lt 5;
    priced = hp;
    quantity = hq;
    order = rd_u64-lt 11;
    instrument = rd_u16-lt 1;
    sided = hs;
    padded = refl;
  }

  parse_add_order-InRange : Every InRange (parse_add_order 0 m)
  unfolding parse_add_order
  parse_add_order-InRange = elim (Bool-cases (ltb (length m) 36)) [
    | inl short ↦ rw short tt
    | inr long ↦ rw long (common-InRange (rd_u32-lt 32) (rd_u32-lt 20) (side_of-le (byte 0 m 19)))
  ]

  parse_order_delete-InRange : Every InRange (parse_order_delete 0 m)
  unfolding parse_order_delete
  parse_order_delete-InRange = elim (Bool-cases (ltb (length m) 19)) [
    | inl short ↦ rw short tt
    | inr long ↦ rw long (common-InRange (omega arith) (omega arith) (omega arith))
  ]

  parse_order_cancel-InRange : Every InRange (parse_order_cancel 0 m)
  unfolding parse_order_cancel
  parse_order_cancel-InRange = elim (Bool-cases (ltb (length m) 23)) [
    | inl short ↦ rw short tt
    | inr long ↦ rw long (common-InRange (omega arith) (rd_u32-lt 19) (omega arith))
  ]

  parse_order_executed-InRange : Every InRange (parse_order_executed 0 m)
  unfolding parse_order_executed
  parse_order_executed-InRange = elim (Bool-cases (ltb (length m) 31)) [
    | inl short ↦ rw short tt
    | inr long ↦ rw long (
        common-InRange (price_fits (byte 0 m 0 == b'C' && leb 36 (length m))) (rd_u32-lt 19)
          (omega arith))
  ]
    where
      price_fits : (t : Bool) → (if t then rd_u32 0 m 32 else 0) < u32_mod
      price_fits false = omega arith
      price_fits true = rd_u32-lt 32

  parse_trade-InRange : Every InRange (parse_trade 0 m)
  unfolding parse_trade
  parse_trade-InRange = elim (Bool-cases (ltb (length m) 44)) [
    | inl short ↦ rw short tt
    | inr long ↦ rw long (common-InRange (rd_u32-lt 32) (rd_u32-lt 20) (side_of-le (byte 0 m 19)))
  ]

  dispatch_type-InRange : (t : ℕ) → Every InRange (dispatch_type 0 t m)
  unfolding dispatch_type
  dispatch_type-InRange t = elim (Bool-cases (t == b'A' || t == b'F')) [
    | inl hit ↦ rw hit parse_add_order-InRange
    | inr no_add ↦ elim (Bool-cases (t == b'D')) [
      | inl hit ↦ rw (no_add, hit) parse_order_delete-InRange
      | inr no_delete ↦ elim (Bool-cases (t == b'X')) [
        | inl hit ↦ rw (no_add, no_delete, hit) parse_order_cancel-InRange
        | inr no_cancel ↦ elim (Bool-cases (t == b'E' || t == b'C')) [
          | inl hit ↦ rw (no_add, no_delete, no_cancel, hit) parse_order_executed-InRange
          | inr no_execution ↦ elim (Bool-cases (t == b'P')) [
            | inl hit ↦ rw (no_add, no_delete, no_cancel, no_execution, hit) parse_trade-InRange
            | inr no_trade ↦ rw (no_add, no_delete, no_cancel, no_execution, no_trade) tt
          ]
        ]
      ]
    ]
  ]

dispatch-InRange : (m : List ℕ) → All IsByte m → Every InRange (dispatch 0 m)
unfolding dispatch
dispatch-InRange [] h = tt
dispatch-InRange (t ∷ m) h = dispatch_type-InRange (t ∷ m) h t

push_some-InRange :
    (out : List Event) (e : Option Event)
    → All InRange out
    → Every InRange e
    → All InRange (push_some out e)
push_some-InRange out none hs h = hs
push_some-InRange [] (some e) hs h = (h, tt)
push_some-InRange (x ∷ out) (some e) (hx, hs) h = (hx, push_some-InRange out (some e) hs h)

-- The parse ended, and this holds of what it left in `out`, whatever it returned.
abbrev pub Written : (List Event → Type 0) → Option ((BufferError ⊎ ℕ) × List Event) → Type 0
Written P none = ⊥
Written P (some (r, out)) = P out

parse_from-InRange :
    (fuel : ℕ) (raw : List ℕ) (i : ℕ) (out : List Event) (n : ℕ)
    → All IsByte raw
    → All InRange out
    → i ≤ length raw
    → length raw < fuel + i
    → Written (All InRange) (parse_from fuel raw i out n)
unfolding parse_from
parse_from-InRange zero raw i out n bytes hs inside room = absurd (omega arith)
parse_from-InRange (suc fuel) raw i out n bytes hs inside room =
    let len = msg_length (get_or raw i 0) in
    let m = take len (drop i raw) in
    elim (Bool-cases (leb (length raw) i)) [
      | inl done ↦ rw done hs
      | inr more ↦ elim (Bool-cases (len == 0)) [
        | inl unknown ↦ rw (more, unknown) hs
        | inr known ↦ elim (Bool-cases (ltb (length raw) (i + len))) [
          | inl cut ↦ rw (more, known, cut) hs
          | inr whole ↦
              rw (more, known, whole)
                (parse_from-InRange fuel raw (i + len) _ _ bytes
                  (push_some-InRange out (dispatch 0 m) hs
                    (dispatch-InRange m (All-take IsByte len _ (All-drop IsByte i raw bytes))))
                  (ground arith) (ground arith))
        ]
      ]
    ]

-- On a buffer of bytes `parse_buffer` ends, and every event that it wrote has its fields in the words that an
-- ITCH message has for them (48 bits of time, 32 of price and quantity, 64 of order, 16 of
-- instrument), a side that is 0 or 1 and zero padding, also when it stops with an error.
pub parse_buffer-InRange :
    (raw : List ℕ) (out : List Event)
    → All IsByte raw
    → All InRange out
    → Written (All InRange) (parse_buffer raw out)
unfolding parse_buffer
parse_buffer-InRange raw out bytes hs =
    parse_from-InRange (suc (length raw)) raw 0 out 0 bytes hs (omega arith) (omega arith)
