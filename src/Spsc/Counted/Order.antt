-- ===== src/Spsc/Counted/Order.antt =====
-- include/spsc_4.h, spsc_5.h and the direct-slot class of spsc_final.h: what a client sees of any sequence of calls, and of any interleaving.
use lock_free_stuffs.Prelude.{ℕ, ◌+◌, ◌-◌, ◌^◌, ◌<◌, ◌≤◌, ◌≡◌, Bool, false, List, [], length}
use lock_free_stuffs.Fifo
use lock_free_stuffs.Fifo.{Op, fifo, Simulates}
use lock_free_stuffs.Spsc.Calls
use lock_free_stuffs.Spsc.Protocol.{quiet}
use lock_free_stuffs.Spsc.Machine.{Machine, Producer, Consumer, Reach, produce, consume}
use lock_free_stuffs.Spsc.Order.{InOrder, Reach-InOrder}
use lock_free_stuffs.Spsc.Progress
use lock_free_stuffs.Spsc.Counted.{Queue, new, try_emplace, try_pop, calls, protocol}
use lock_free_stuffs.Spsc.Counted.Rep.{Rep, new-Rep}
use lock_free_stuffs.Spsc.Counted.Laws.{laws}

module _ {ℓ} {A : Type ℓ} (k elem : ℕ) (size_ok : k ≤ 63) where
  pub calls-Simulates :
      Simulates (2 ^ k - 1) (λ xs q. Rep {A = A} k elem quiet false xs q) (calls k elem)
  unfolding try_emplace try_pop Calls.try_push Calls.try_pop
  calls-Simulates = Calls.calls-Simulates (laws k elem size_ok)

-- For SIZE = 2^k with k ≤ 63, every sequence of try_emplace and try_pop calls on a new
-- LockFreeQueueStage4, Stage5 or LockFreeQueue2<T, SIZE, true> gets the replies of a FIFO of at most SIZE - 1 values.
pub counted_refines {ℓ} :
    {A : Type ℓ} (k elem : ℕ) (raw : ℕ → A) (ops : List (Op A))
    → k ≤ 63
    → Fifo.run (calls k elem) (new raw) ops ≡ Fifo.run (fifo (2 ^ k - 1)) [] ops
counted_refines k elem raw ops h =
    Fifo.run_refines (calls-Simulates k elem h) ops [] (new raw) (new-Rep k elem h raw)

-- For SIZE = 2^k with k ≤ 63, in every state that one producer and one consumer reach from a new
-- LockFreeQueueStage4, Stage5 or LockFreeQueue2<T, SIZE, true> by interleaved steps, the values popped are the first of those pushed, each once
-- and in order, and at most SIZE - 1 are under way.
pub counted-InOrder {ℓ} :
    {A : Type ℓ} (k elem : ℕ) (raw : ℕ → A) {m : Machine A (Queue A)}
    → k ≤ 63
    → Reach (protocol k elem) (new raw) m
    → InOrder (2 ^ k - 1) m
counted-InOrder k elem raw h r = Reach-InOrder (laws k elem h) (new-Rep k elem h raw) r

-- For SIZE = 2^k with k ≤ 63, in every state that one producer and one consumer reach from a new
-- LockFreeQueueStage4, LockFreeQueueStage5 or LockFreeQueue2<T, SIZE, true> by interleaved steps:
-- a push that is at its test passes it at its next step if fewer than SIZE - 1 values have been
-- pushed and not yet popped.
pub counted_push_passes {ℓ} :
    {A : Type ℓ} (k elem : ℕ) (raw : ℕ → A) {m : Machine A (Queue A)} {b : Bool} {v : A}
    → k ≤ 63
    → Reach (protocol k elem) (new raw) m
    → m.producer ≡ Producer.trying b v
    → length m.pushed < length m.popped + (2 ^ k - 1)
    → (produce (protocol k elem) m.producer m).producer ≡ Producer.writing v
counted_push_passes k elem raw h r at room =
    Progress.push_progress (laws k elem h) (new-Rep k elem h raw) r at room

-- For SIZE = 2^k with k ≤ 63, in every state that one producer and one consumer reach from a new
-- LockFreeQueueStage4, LockFreeQueueStage5 or LockFreeQueue2<T, SIZE, true> by interleaved steps:
-- a pop that is at its test passes it at its next step if some value has been pushed and not yet
-- popped.
pub counted_pop_passes {ℓ} :
    {A : Type ℓ} (k elem : ℕ) (raw : ℕ → A) {m : Machine A (Queue A)} {b : Bool}
    → k ≤ 63
    → Reach (protocol k elem) (new raw) m
    → m.consumer ≡ Consumer.trying b
    → length m.popped < length m.pushed
    → (consume (protocol k elem) m.consumer m).consumer ≡ Consumer.reading
counted_pop_passes k elem raw h r at some_left =
    Progress.pop_progress (laws k elem h) (new-Rep k elem h raw) r at some_left
