-- ===== src/Itch/Buffer.antt =====
-- `parse_buffer` on a whole buffer: it ends on every input, and reads back what the emitters wrote.
use flowlab.Prelude.{
  ℕ, zero, suc, ◌+◌, ◌≤◌, ◌<◌, true, false, ◌≡◌, refl, ◌∙◌, ap, ap₂, sym, Option, none, some, List,
  [], ◌∷◌, ◌++◌, append-nil, append_assoc, length, length-append, take, drop, drop-drop,
  length-drop, take-length, drop-length, get_or, get_or-drop, All, map, ltb, leb, ◌==◌, arith,
  Bool-cases, ◌⊎◌, inl, inr, to_be_bytes, to_le_bytes,
}
use flowlab.Event.{Event}
use flowlab.Itch.{
  BufferError, msg_length, dispatch, parse_from, parse_buffer, push_some, count_some,
}
use flowlab.Itch.Emit.{emit_add_order, emit_order_delete, emit_trade}
use flowlab.Itch.Fields.{
  Command, add, delete, trade, message, event_of, Fits, length-message, dispatch-message,
}

-- The buffer after the emitters ran, one command after the other.
unfoldable pub emit : List ℕ → Command → List ℕ
emit buf (add ts id s shares price) = emit_add_order buf ts id s shares price
emit buf (delete ts id) = emit_order_delete buf ts id
emit buf (trade ts id s shares price) = emit_trade buf ts id s shares price

unfoldable pub emit_all : List ℕ → List Command → List ℕ
emit_all buf [] = buf
emit_all buf (c ∷ cs) = emit_all (emit buf c) cs

abbrev stream_of : List Command → List ℕ
stream_of [] = []
stream_of (c ∷ cs) = message c ++ stream_of cs

emit-message : (buf : List ℕ) (c : Command) → emit buf c ≡ buf ++ message c
unfolding emit emit_add_order emit_order_delete emit_trade
emit-message buf (add ts id s shares price) = refl
emit-message buf (delete ts id) = refl
emit-message buf (trade ts id s shares price) = refl

emit_all-stream_of : (buf : List ℕ) (cs : List Command) → emit_all buf cs ≡ buf ++ stream_of cs
unfolding emit_all
emit_all-stream_of buf [] = sym (append-nil buf)
emit_all-stream_of buf (c ∷ cs) =
    emit_all-stream_of (emit buf c) cs
    ∙ ap (λ b. b ++ stream_of cs) (emit-message buf c)
    ∙ append_assoc buf (message c) (stream_of cs)

some_bytes : (c : Command) → 0 < length (message c)
unfolding to_be_bytes to_le_bytes
some_bytes (add ts id s shares price) = omega arith
some_bytes (delete ts id) = omega arith
some_bytes (trade ts id s shares price) = omega arith

first_byte : (c : Command) (rest : List ℕ) → get_or (message c ++ rest) 0 0 ≡ get_or (message c) 0 0
first_byte (add ts id s shares price) rest = refl
first_byte (delete ts id) rest = refl
first_byte (trade ts id s shares price) rest = refl

-- Before a whole message the loop takes it and goes on behind it.
module _ (raw : List ℕ) (i : ℕ) (c : Command) (rest : List ℕ)
    (at : drop i raw ≡ message c ++ rest) where
  type_at : get_or raw i 0 ≡ get_or (message c) 0 0
  type_at =
      ap (λ k. get_or raw k 0) here
      ∙ get_or-drop raw i 0 0
      ∙ ap (λ l. get_or l 0 0) at
      ∙ first_byte c rest
    where
      here : i ≡ i + 0
      here = omega arith

  inside_after : i + length (message c) ≤ length raw
  inside_after =
      omega (arith, length-drop i raw, ap length at, length-append (message c) rest, some_bytes c)

  taken : take (length (message c)) (drop i raw) ≡ message c
  taken = ap (take (length (message c))) at ∙ take-length (message c) rest

  behind : drop (i + length (message c)) raw ≡ rest
  behind =
      drop-drop raw i (length (message c))
      ∙ ap (drop (length (message c))) at
      ∙ drop-length (message c) rest

  pub parse_from-message :
      (fuel : ℕ) (out : List Event) (n : ℕ)
      → Fits c
      → parse_from (suc fuel) raw i out n
        ≡ parse_from fuel raw (i + length (message c)) (out ++ event_of c ∷ []) (n + 1)
  unfolding parse_from
  parse_from-message fuel out n fits =
      let len : msg_length (get_or raw i 0) ≡ length (message c) =
        ap msg_length type_at ∙ length-message c in
      let more : leb (length raw) i ≡ false = ground (arith, inside_after, some_bytes c) in
      let known : (length (message c) == 0) ≡ false = ground (arith, some_bytes c) in
      let whole : ltb (length raw) (i + length (message c)) ≡ false =
        ground (arith, inside_after) in
      rw (more, len, known, whole, taken, dispatch-message 0 c fits) refl

parse_from-stream_of :
    (cs : List Command) (fuel : ℕ) (raw : List ℕ) (i : ℕ) (out : List Event) (n : ℕ)
    → All Fits cs
    → drop i raw ≡ stream_of cs
    → i ≤ length raw
    → length raw < fuel + i
    → parse_from fuel raw i out n ≡ some (inr (n + length cs), out ++ map event_of cs)
parse_from-stream_of cs zero raw i out n fits at inside room = absurd (omega arith)
parse_from-stream_of [] (suc fuel) raw i out n fits at inside room =
    let done : leb (length raw) i ≡ true = ground (arith, length-drop i raw, ap length at) in
    unfold parse_from in rw done (ap₂ (λ k l. some (inr k, l)) count (sym (append-nil out)))
  where
    count : n ≡ n + 0
    count = omega arith
parse_from-stream_of (c ∷ cs) (suc fuel) raw i out n (f, fs) at inside room =
    parse_from-message raw i c (stream_of cs) at fuel out n f
    ∙ parse_from-stream_of cs fuel raw (i + length (message c)) _ (n + 1) fs
        (behind raw i c (stream_of cs) at) (inside_after raw i c (stream_of cs) at)
        (omega (arith, some_bytes c))
    ∙ ap₂ (λ k l. some (inr k, l)) counted (append_assoc out (event_of c ∷ []) (map event_of cs))
  where
    counted : n + 1 + length cs ≡ n + length (c ∷ cs)
    counted = omega arith

-- A buffer that the emitters wrote, one command after the other, is parsed to the end: the events
-- are those of the commands, in their order, and the count is theirs. Times have 48 bits, the other
-- fields the words of their types.
pub parse_buffer-emit_all :
    (cs : List Command) (out : List Event)
    → All Fits cs
    → parse_buffer (emit_all [] cs) out ≡ some (inr (length cs), out ++ map event_of cs)
unfolding parse_buffer
parse_buffer-emit_all cs out fits =
    ap (λ raw. parse_from (suc (length raw)) raw 0 out 0) (emit_all-stream_of [] cs)
    ∙ parse_from-stream_of cs (suc (length (stream_of cs))) (stream_of cs) 0 out 0 fits refl
        (omega arith) (omega arith)
    ∙ ap (λ k. some (inr k, out ++ map event_of cs)) count
  where
    count : 0 + length cs ≡ length cs
    count = omega arith

-- What a parse of any buffer gives: events behind those that were there, and their number or an
-- error.
abbrev pub Parsed : List Event → ℕ → Option ((BufferError ⊎ ℕ) × List Event) → Type 0
Parsed out n r =
    (es : List Event) × ((r ≡ some (inr (n + length es), out ++ es))
      ⊎ ((e : BufferError) × (r ≡ some (inl e, out ++ es))))

Parsed-push :
    (out : List Event) (n : ℕ) (event : Option Event) (r : Option ((BufferError ⊎ ℕ) × List Event))
    → Parsed (push_some out event) (count_some n event) r
    → Parsed out n r
Parsed-push out n none r p = p
Parsed-push out n (some e) r (es, p) = (e ∷ es, go p)
  where
    onto : (out ++ e ∷ []) ++ es ≡ out ++ e ∷ es
    onto = append_assoc out (e ∷ []) es

    counted : n + 1 + length es ≡ n + length (e ∷ es)
    counted = omega arith

    go :
        ((r ≡ some (inr (n + 1 + length es), (out ++ e ∷ []) ++ es))
          ⊎ ((x : BufferError) × (r ≡ some (inl x, (out ++ e ∷ []) ++ es))))
        → ((r ≡ some (inr (n + length (e ∷ es)), out ++ e ∷ es))
            ⊎ ((x : BufferError) × (r ≡ some (inl x, out ++ e ∷ es))))
    go (inl h) = inl (h ∙ ap₂ (λ k l. some (inr k, l)) counted onto)
    go (inr (x, h)) = inr (x, h ∙ ap (λ l. some (inl x, l)) onto)

stops : (out : List Event) (n : ℕ) → Parsed out n (some (inr n, out))
stops out n = ([], inl (ap₂ (λ k l. some (inr k, l)) none_more (sym (append-nil out))))
  where
    none_more : n ≡ n + 0
    none_more = omega arith

fails : (out : List Event) (n : ℕ) (e : BufferError) → Parsed out n (some (inl e, out))
fails out n e = ([], inr (e, ap (λ l. some (inl e, l)) (sym (append-nil out))))

parse_from-Parsed :
    (fuel : ℕ) (raw : List ℕ) (i : ℕ) (out : List Event) (n : ℕ)
    → i ≤ length raw
    → length raw < fuel + i
    → Parsed out n (parse_from fuel raw i out n)
unfolding parse_from
parse_from-Parsed zero raw i out n inside room = absurd (omega arith)
parse_from-Parsed (suc fuel) raw i out n inside room =
    let len = msg_length (get_or raw i 0) in
    let event = dispatch 0 (take len (drop i raw)) in
    elim (Bool-cases (leb (length raw) i)) [
      | inl done ↦ rw done (stops out n)
      | inr more ↦ elim (Bool-cases (len == 0)) [
        | inl unknown ↦ rw (more, unknown) (fails out n BufferError.unknown_type)
        | inr known ↦ elim (Bool-cases (ltb (length raw) (i + len))) [
          | inl cut ↦ rw (more, known, cut) (fails out n BufferError.truncated)
          | inr whole ↦
              rw (more, known, whole)
                (Parsed-push out n event _
                  (parse_from-Parsed fuel raw (i + len) _ _ (ground arith) (ground arith)))
        ]
      ]
    ]

-- On every buffer `parse_buffer` ends: it writes events behind those that were in `out`, and gives
-- their number or an error.
pub parse_buffer-Parsed : (raw : List ℕ) (out : List Event) → Parsed out 0 (parse_buffer raw out)
unfolding parse_buffer
parse_buffer-Parsed raw out =
    parse_from-Parsed (suc (length raw)) raw 0 out 0 (omega arith) (omega arith)
