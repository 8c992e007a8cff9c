-- ===== src/Bench/Measure/Order.antt =====
-- bench/queue_measure.h with the queue of bench/queue_measure.cpp, LockFreeQueueStage4 of
-- include/spsc_4.h: the sum that the consumer comes to.
use lock_free_stuffs.Prelude.{ℕ, ◌+◌, ◌-◌, ◌*◌, ◌^◌, ◌<◌, ◌≤◌, ◌≡◌, ◌≢◌, Bool, true, ap, ◌∙◌, arith}
use lock_free_stuffs.Spsc.Counted.{Queue, new, protocol}
use lock_free_stuffs.Spsc.Counted.Rep.{new-Rep}
use lock_free_stuffs.Spsc.Counted.Laws.{laws}
use lock_free_stuffs.Bench.Measure.{Bench, Reach, stop_message}
use lock_free_stuffs.Bench.Measure.Triangle.{range, triangle, triangle_lem}
use lock_free_stuffs.Bench.Measure.Sum.{finished_lem}

-- For SIZE = 2^k with k ≤ 63 and a message count below 2^32 - 1, blocking or not, in every state of a
-- measurement of a new LockFreeQueueStage4 that the two threads reach by interleaved steps, whatever
-- the clock shows: when the consumer has left its loop, the messages 1 to message_count + 1 were sent
-- and got, each once and in order, none is left in the queue, and the sum is that of the first
-- message_count numbers.
pub measured_sum :
    (k elem : ℕ) (raw : ℕ → ℕ) (blocking : Bool) (message_count : ℕ) {b : Bench (Queue ℕ)}
    → k ≤ 63
    → message_count + 1 < 2 ^ 32
    → Reach (protocol k elem) blocking message_count (new raw) b
    → b.finished ≡ true
    → (2 * b.sum ≡ message_count * (message_count + 1))
      × (b.machine.popped ≡ range 1 (message_count + 1))
      × (b.machine.pushed ≡ b.machine.popped)
unfolding stop_message
measured_sum k elem raw blocking message_count {b} h small r done =
    let (pos, sum, got, all) =
      finished_lem (laws k elem h) (new-Rep k elem h raw) blocking message_count r done in
    (
      ap (λ t. 2 * t) (sum ∙ ap triangle (omega (arith, small))) ∙ triangle_lem message_count,
      got ∙ ap (range 1) (omega (arith, small)),
      all,
    )

-- For SIZE = 2^k with k ≤ 63 and the message count 2^32 - 1, with which message_count + 1 is 0: in no
-- state of a measurement of a new LockFreeQueueStage4 has the consumer left its loop.
pub measured_never_ends :
    (k elem : ℕ) (raw : ℕ → ℕ) (blocking : Bool) {b : Bench (Queue ℕ)}
    → k ≤ 63
    → Reach (protocol k elem) blocking (2 ^ 32 - 1) (new raw) b
    → b.finished ≢ true
unfolding stop_message
measured_never_ends k elem raw blocking h r done =
    let (pos, sum, got, all) =
      finished_lem (laws k elem h) (new-Rep k elem h raw) blocking (2 ^ 32 - 1) r done in
    omega (arith, pos)
