-- ===== src/Spsc/Flagged/Order.antt =====
-- include/spsc_test.h: what a client sees of any sequence of calls, and of any interleaving.
use lock_free_stuffs.Prelude.{Option, ℕ, ◌+◌, ◌^◌, ◌<◌, ◌≤◌, ◌≡◌, Bool, false, List, [], length}
use lock_free_stuffs.Fifo
use lock_free_stuffs.Fifo.{Op, fifo, Simulates}
use lock_free_stuffs.Spsc.Calls
use lock_free_stuffs.Spsc.Protocol.{quiet}
use lock_free_stuffs.Spsc.Machine.{Machine, Producer, Reach, produce}
use lock_free_stuffs.Spsc.Order.{InOrder, Reach-InOrder}
use lock_free_stuffs.Spsc.Progress
use lock_free_stuffs.Spsc.Flagged.{Queue, new, try_emplace, try_pop, calls, protocol}
use lock_free_stuffs.Spsc.Flagged.Rep.{Rep, new-Rep}
use lock_free_stuffs.Spsc.Flagged.Steps.{laws}

module _ {ℓ} {A : Type ℓ} (direct : Bool) (k elem : ℕ) (size_ok : k ≤ 63) where
  pub calls-Simulates :
      Simulates (2 ^ k) (λ xs q. Rep {A = A} direct k elem quiet false xs q) (calls direct k elem)
  unfolding try_emplace try_pop Calls.try_push Calls.try_pop
  calls-Simulates = Calls.calls-Simulates (laws direct k elem size_ok)

-- For SIZE = 2^k with k ≤ 63, every sequence of try_emplace and try_pop calls on a new
-- LockFreeQueueTest gets the replies of a FIFO of at most SIZE values.
pub flagged_refines {ℓ} :
    {A : Type ℓ} (direct : Bool) (k elem : ℕ) (raw : ℕ → Option A) (ops : List (Op A))
    → k ≤ 63
    → Fifo.run (calls direct k elem) (new raw) ops ≡ Fifo.run (fifo (2 ^ k)) [] ops
flagged_refines direct k elem raw ops h =
    Fifo.run_refines (calls-Simulates direct k elem h) ops [] (new raw)
      (new-Rep direct k elem h raw)

-- For SIZE = 2^k with k ≤ 63, in every state that one producer and one consumer reach from a new
-- LockFreeQueueTest by interleaved steps, the values popped are the first of those
-- pushed, each once and in order, at most SIZE are under way, and no read was of a slot
-- that holds no value.
pub flagged-InOrder {ℓ} :
    {A : Type ℓ} (direct : Bool) (k elem : ℕ) (raw : ℕ → Option A) {m : Machine A (Queue A)}
    → k ≤ 63
    → Reach (protocol direct k elem) (new raw) m
    → InOrder (2 ^ k) m
flagged-InOrder direct k elem raw h r =
    Reach-InOrder (laws direct k elem h) (new-Rep direct k elem h raw) r

-- For SIZE = 2^k with k ≤ 63, in every state that one producer and one consumer reach from a new
-- LockFreeQueueTest by interleaved steps: a push that is at its test passes it at its next step if
-- fewer than SIZE values have been pushed and not yet popped.
pub flagged_push_passes {ℓ} :
    {A : Type ℓ} (direct : Bool) (k elem : ℕ) (raw : ℕ → Option A) {m : Machine A (Queue A)}
    {b : Bool} {v : A}
    → k ≤ 63
    → Reach (protocol direct k elem) (new raw) m
    → m.producer ≡ Producer.trying b v
    → length m.pushed < length m.popped + 2 ^ k
    → (produce (protocol direct k elem) m.producer m).producer ≡ Producer.writing v
flagged_push_passes direct k elem raw h r at room =
    Progress.push_progress (laws direct k elem h) (new-Rep direct k elem h raw) r at room
