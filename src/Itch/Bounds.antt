-- ===== src/Itch/Bounds.antt =====
-- The parsers of replay/src/itch.rs read within their messages.
use flowlab.Prelude.{
  ℕ, zero, suc, ◌+◌, ◌≤◌, ◌<◌, Bool, true, false, ◌≡◌, refl, List, [], ◌∷◌, length, ltb, leb, ◌==◌,
  ◌&&◌, if◌then◌else◌, get_or, arith, Bool-cases, inl, inr,
}
use flowlab.Itch.{
  byte, rd_u16, rd_u32, rd_u64, rd_ts48, parse_add_order, parse_order_delete, parse_order_cancel,
  parse_order_executed, parse_trade, dispatch_type, dispatch,
}

-- Two readers that differ in what lies outside read the same inside.
module _ (a b : ℕ) (m : List ℕ) where
  byte-inside : (i : ℕ) → i < length m → byte a m i ≡ byte b m i
  byte-inside i h = get_or_inside m i h
    where
      get_or_inside : (xs : List ℕ) (i : ℕ) → i < length xs → get_or xs i a ≡ get_or xs i b
      get_or_inside [] i h = absurd (omega arith)
      get_or_inside (x ∷ xs) zero h = refl
      get_or_inside (x ∷ xs) (suc i) h = get_or_inside xs i (omega arith)

  rd_u16-inside : (i : ℕ) → i + 2 ≤ length m → rd_u16 a m i ≡ rd_u16 b m i
  unfolding rd_u16
  rd_u16-inside i h = rw (byte-inside i (omega arith), byte-inside (i + 1) (omega arith)) refl

  rd_u32-inside : (i : ℕ) → i + 4 ≤ length m → rd_u32 a m i ≡ rd_u32 b m i
  unfolding rd_u32
  rd_u32-inside i h =
      rw
        (
          byte-inside i (omega arith),
          byte-inside (i + 1) (omega arith),
          byte-inside (i + 2) (omega arith),
          byte-inside (i + 3) (omega arith),
        )
        refl

  rd_u64-inside : (i : ℕ) → i + 8 ≤ length m → rd_u64 a m i ≡ rd_u64 b m i
  unfolding rd_u64
  rd_u64-inside i h =
      rw
        (
          byte-inside i (omega arith),
          byte-inside (i + 1) (omega arith),
          byte-inside (i + 2) (omega arith),
          byte-inside (i + 3) (omega arith),
          byte-inside (i + 4) (omega arith),
          byte-inside (i + 5) (omega arith),
          byte-inside (i + 6) (omega arith),
          byte-inside (i + 7) (omega arith),
        )
        refl

  rd_ts48-inside : (i : ℕ) → i + 6 ≤ length m → rd_ts48 a m i ≡ rd_ts48 b m i
  unfolding rd_ts48
  rd_ts48-inside i h = rw (rd_u16-inside i (omega arith), rd_u32-inside (i + 2) (omega arith)) refl

  parse_add_order-inside : parse_add_order a m ≡ parse_add_order b m
  unfolding parse_add_order
  parse_add_order-inside = elim (Bool-cases (ltb (length m) 36)) [
    | inl short ↦ rw short refl
    | inr long ↦
        rw
          (
            long,
            rd_u16-inside 1 (ground arith),
            rd_ts48-inside 5 (ground arith),
            rd_u64-inside 11 (ground arith),
            byte-inside 19 (ground arith),
            rd_u32-inside 20 (ground arith),
            rd_u32-inside 32 (ground arith),
          )
          refl
  ]

  parse_order_delete-inside : parse_order_delete a m ≡ parse_order_delete b m
  unfolding parse_order_delete
  parse_order_delete-inside = elim (Bool-cases (ltb (length m) 19)) [
    | inl short ↦ rw short refl
    | inr long ↦
        rw
          (
            long,
            rd_u16-inside 1 (ground arith),
            rd_ts48-inside 5 (ground arith),
            rd_u64-inside 11 (ground arith),
          )
          refl
  ]

  parse_order_cancel-inside : parse_order_cancel a m ≡ parse_order_cancel b m
  unfolding parse_order_cancel
  parse_order_cancel-inside = elim (Bool-cases (ltb (length m) 23)) [
    | inl short ↦ rw short refl
    | inr long ↦
        rw
          (
            long,
            rd_u16-inside 1 (ground arith),
            rd_ts48-inside 5 (ground arith),
            rd_u64-inside 11 (ground arith),
            rd_u32-inside 19 (ground arith),
          )
          refl
  ]

  -- The price of an execution is read only where the message has one.
  price-inside :
      (t : Bool)
      → (if t && leb 36 (length m) then rd_u32 a m 32 else 0)
        ≡ (if t && leb 36 (length m) then rd_u32 b m 32 else 0)
  price-inside false = refl
  price-inside true = elim (Bool-cases (leb 36 (length m))) [
    | inl priced ↦ rw (priced, rd_u32-inside 32 (ground arith)) refl
    | inr bare ↦ rw bare refl
  ]

  parse_order_executed-inside : parse_order_executed a m ≡ parse_order_executed b m
  unfolding parse_order_executed
  parse_order_executed-inside = elim (Bool-cases (ltb (length m) 31)) [
    | inl short ↦ rw short refl
    | inr long ↦
        rw
          (
            long,
            rd_u16-inside 1 (ground arith),
            rd_ts48-inside 5 (ground arith),
            rd_u64-inside 11 (ground arith),
            rd_u32-inside 19 (ground arith),
            byte-inside 0 (ground arith),
            price-inside (byte b m 0 == b'C'),
          )
          refl
  ]

  parse_trade-inside : parse_trade a m ≡ parse_trade b m
  unfolding parse_trade
  parse_trade-inside = elim (Bool-cases (ltb (length m) 44)) [
    | inl short ↦ rw short refl
    | inr long ↦
        rw
          (
            long,
            rd_u16-inside 1 (ground arith),
            rd_ts48-inside 5 (ground arith),
            rd_u64-inside 11 (ground arith),
            byte-inside 19 (ground arith),
            rd_u32-inside 20 (ground arith),
            rd_u32-inside 32 (ground arith),
          )
          refl
  ]

-- `dispatch` never reads past the end of its message, whatever the message: the event that it gives
-- is the same whatever lies behind the last byte.
pub dispatch-inside : (a b : ℕ) (m : List ℕ) → dispatch a m ≡ dispatch b m
unfolding dispatch dispatch_type
dispatch-inside a b [] = refl
dispatch-inside a b (t ∷ m) =
    rw
      (
        parse_add_order-inside a b (t ∷ m),
        parse_order_delete-inside a b (t ∷ m),
        parse_order_cancel-inside a b (t ∷ m),
        parse_order_executed-inside a b (t ∷ m),
        parse_trade-inside a b (t ∷ m),
      )
      refl
