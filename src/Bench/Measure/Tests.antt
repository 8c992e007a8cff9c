-- ===== src/Bench/Measure/Tests.antt =====
-- bench/queue_measure.h: the theorems at concrete runs on four slots of 4 bytes.
use lock_free_stuffs.Prelude.{
  ℕ, ◌+◌, ◌*◌, ◌≡◌, ◌≢◌, refl, Bool, true, false, List, [], ◌∷◌, ◌++◌, mask, arith,
}
use lock_free_stuffs.Spsc.Layout.{padding, slot_index}
use lock_free_stuffs.Spsc.Machine.{produce, consume}
use lock_free_stuffs.Spsc.Counted
use lock_free_stuffs.Spsc.Counted.{Queue, new, protocol}
use lock_free_stuffs.Bench.Measure.{
  Bench, begin, push_step, pop_step, Reach, here, next, pushes, pops, call_push, call_pop, receive,
  stop_message, retry, succeed, record_stall,
}
use lock_free_stuffs.Bench.Measure.Triangle.{range}
use lock_free_stuffs.Bench.Measure.Order.{measured_sum, measured_never_ends}

abbrev zeros : ℕ → ℕ
zeros i = 0

-- The producer goes at `true`, the consumer at `false`, at ever later times; the last step stands
-- first.
abbrev drive : ℕ → List Bool → Bench (Queue ℕ)
drive count [] = begin (new zeros)
drive count (true ∷ before) =
    let b = drive count before in push_step (protocol 2 4) false count 100 b.machine.producer b
drive count (false ∷ before) =
    let b = drive count before in pop_step (protocol 2 4) false count 130 b.machine.consumer b

abbrev drive-Reach :
    (count : ℕ) (moves : List Bool)
    → Reach (protocol 2 4) false count (new zeros) (drive count moves)
drive-Reach count [] = here
drive-Reach count (true ∷ before) = next (drive-Reach count before) (pushes 100)
drive-Reach count (false ∷ before) = next (drive-Reach count before) (pops 130)

abbrev four : Bool → List Bool
four b = b ∷ b ∷ b ∷ b ∷ []

-- The consumer tries in vain, one message is sent and the one that ends it, and it gets both.
abbrev moves : List Bool
moves = four false ++ (four false ++ (four true ++ (four true ++ (false ∷ false ∷ []))))

measured_sum_example :
    (2 * (drive 1 moves).sum ≡ 1 * (1 + 1))
    × ((drive 1 moves).machine.popped ≡ range 1 (1 + 1))
    × ((drive 1 moves).machine.pushed ≡ (drive 1 moves).machine.popped)
unfolding push_step pop_step call_pop consume call_push stop_message produce Counted.has_room
    Counted.has_value new Counted.load_write_index Counted.publish_write Counted.store_value receive
    Counted.load_value slot_index mask padding Counted.discard record_stall retry succeed
    Counted.load_read_index
measured_sum_example =
    measured_sum 2 4 zeros false 1 {b = drive 1 moves} (omega arith) (omega arith)
      (drive-Reach 1 moves) refl

-- The try in vain is counted.
stalls :
    (drive 1 moves).popping.stats
    ≡ record { false_returns = 1; stalled_successes = 1; max_streak = 1; total_stall_cycles = 0 }
unfolding push_step pop_step call_pop consume call_push stop_message produce Counted.has_room
    Counted.has_value new Counted.load_write_index Counted.publish_write Counted.store_value receive
    Counted.load_value slot_index mask padding Counted.discard record_stall retry succeed
    Counted.load_read_index
stalls = refl

measured_never_ends_example : (drive 4294967295 moves).finished ≢ true
measured_never_ends_example =
    measured_never_ends 2 4 zeros false {b = drive 4294967295 moves} (omega arith)
      (drive-Reach 4294967295 moves)
