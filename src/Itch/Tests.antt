-- ===== src/Itch/Tests.antt =====
-- The ITCH parser on concrete buffers.
use flowlab.Prelude.{ℕ, ◌≡◌, refl, some, List, [], ◌∷◌, ◌++◌, map, replicate, arith, inl, inr, All}
use flowlab.Event.{bid, ask}
use flowlab.Itch.{
  BufferError, dispatch, dispatch_type, event_zeroed, parse_buffer, parse_from, msg_length,
}
use flowlab.Itch.Fields.{Command, add, delete, trade, event_of}
use flowlab.Itch.Bounds.{dispatch-inside}
use flowlab.Itch.Ranges.{InRange, Written, parse_buffer-InRange}
use flowlab.Itch.Buffer.{emit_all, parse_buffer-emit_all, Parsed, parse_buffer-Parsed}
use flowlab.Itch.Synthetic.{next_u64}

abbrev commands : List Command
commands =
    add 1000 1 bid 300 1000000
    ∷ add 2000 2 ask 500 1000100
    ∷ trade 3000 3 ask 20 1000000
    ∷ delete 4000 1
    ∷ []

parse_buffer-emit_all_example :
    parse_buffer (emit_all [] commands) (event_zeroed ∷ [])
    ≡ some (inr 4, event_zeroed ∷ map event_of commands)
parse_buffer-emit_all_example = parse_buffer-emit_all commands (event_zeroed ∷ []) (omega arith)

-- the first bytes of an order
abbrev cut_off : List ℕ
cut_off = b'S' ∷ replicate 11 0 ++ b'A' ∷ 0 ∷ 7 ∷ []

cut_off_result : parse_buffer cut_off [] ≡ some (inl BufferError.truncated, [])
unfolding parse_buffer parse_from msg_length dispatch dispatch_type
cut_off_result = refl

parse_buffer-Parsed_example : Parsed [] 0 (parse_buffer cut_off [])
parse_buffer-Parsed_example = parse_buffer-Parsed cut_off []

-- An execution at a price whose message is too short for the price.
abbrev short_execution : List ℕ
short_execution = b'C' ∷ replicate 30 9

dispatch-inside_example : dispatch 0 short_execution ≡ dispatch 255 short_execution
dispatch-inside_example = dispatch-inside 0 255 short_execution

parse_buffer-InRange_example : Written (All InRange) (parse_buffer (b'D' ∷ replicate 18 255) [])
parse_buffer-InRange_example = parse_buffer-InRange (b'D' ∷ replicate 18 255) [] (omega arith) tt

-- the first number that the generator draws from the seed of the test
first_draw : next_u64 1 ≡ 1082269761
unfolding next_u64
first_draw = refl
