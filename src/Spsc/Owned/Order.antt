-- ===== src/Spsc/Owned/Order.antt =====
-- include/spsc_final.h, LockFreeQueue2<T, SIZE, false>: what a client sees of any sequence of calls, and of any interleaving.
use lock_free_stuffs.Prelude.{Option, ℕ, ◌-◌, ◌^◌, ◌≤◌, ◌≡◌, false, List, []}
use lock_free_stuffs.Fifo
use lock_free_stuffs.Fifo.{Op, fifo, Simulates}
use lock_free_stuffs.Spsc.Calls
use lock_free_stuffs.Spsc.Protocol.{quiet}
use lock_free_stuffs.Spsc.Machine.{Machine, Reach}
use lock_free_stuffs.Spsc.Order.{InOrder, Reach-InOrder}
use lock_free_stuffs.Spsc.Counted.{Queue}
use lock_free_stuffs.Spsc.Owned.{new, try_emplace, try_pop, calls, protocol}
use lock_free_stuffs.Spsc.Owned.Rep.{Rep, new-Owned, laws}

module _ {ℓ} {A : Type ℓ} (k elem : ℕ) (size_ok : k ≤ 63) where
  pub calls-Simulates :
      Simulates (2 ^ k - 1) (λ xs q. Rep {A = A} k elem quiet false xs q) (calls k elem)
  unfolding try_emplace try_pop Calls.try_push Calls.try_pop
  calls-Simulates = Calls.calls-Simulates (laws k elem size_ok)

-- For SIZE = 2^k with k ≤ 63, every sequence of try_emplace and try_pop calls on a new
-- LockFreeQueue2<T, SIZE, false> gets the replies of a FIFO of at most SIZE - 1 values.
pub owned_refines {ℓ} :
    {A : Type ℓ} (k elem : ℕ) (ops : List (Op A))
    → k ≤ 63
    → Fifo.run (calls k elem) new ops ≡ Fifo.run (fifo (2 ^ k - 1)) [] ops
owned_refines k elem ops h =
    Fifo.run_refines (calls-Simulates k elem h) ops [] new (new-Owned k elem h)

-- For SIZE = 2^k with k ≤ 63, in every state that one producer and one consumer reach from a new
-- LockFreeQueue2<T, SIZE, false> by interleaved steps, the values popped are the first of those
-- pushed, each once and in order, at most SIZE - 1 are under way, and no read was of a slot
-- without a live value.
pub owned-InOrder {ℓ} :
    {A : Type ℓ} (k elem : ℕ) {m : Machine A (Queue (Option A))}
    → k ≤ 63
    → Reach (protocol k elem) new m
    → InOrder (2 ^ k - 1) m
owned-InOrder k elem h r = Reach-InOrder (laws k elem h) (new-Owned k elem h) r
