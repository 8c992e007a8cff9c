-- ===== src/Bench/Barrier/Tests.antt =====
-- bench/sync.h: the theorems at a concrete run with two threads that wait.
use lock_free_stuffs.Prelude.{ℕ, ◌<◌, ◌≡◌, ◌≢◌, refl, arith, zero, suc}
use lock_free_stuffs.Bench.Barrier
use lock_free_stuffs.Bench.Barrier.{
  Waiter, arrives, waits, passed, Barrier, wait, release, new, Reach, here, next, waiter, releases,
}
use lock_free_stuffs.Bench.Barrier.Order.{barrier_waits, barrier_passes}

abbrev all_in : Barrier
all_in = wait 1 arrives (wait 0 arrives new)

abbrev all_in-Reach : Reach 2 all_in
unfolding wait
all_in-Reach = next (next here (waiter 0 (omega arith))) (waiter 1 (omega arith))

abbrev first_out : Barrier
first_out = wait 0 waits (release 2 Barrier.stores (release 2 Barrier.watches all_in))

barrier_waits_example : (first_out.waiters 1 ≢ arrives) × (first_out.counter ≡ 0)
unfolding wait release
barrier_waits_example =
    barrier_waits 2 (omega arith) (omega arith) {b = first_out} 0 1
      (next (next (next all_in-Reach releases) releases) (waiter 0 (omega arith))) (omega arith)
      (omega arith) refl

barrier_passes_example :
    (wait 1 waits (release 2 Barrier.stores (release 2 Barrier.watches all_in))).waiters 1 ≡ passed
unfolding wait release
barrier_passes_example =
    barrier_passes 2 (omega arith) (omega arith) {b = all_in} 1 all_in-Reach come (omega arith)
  where
    come : (j : ℕ) → j < 2 → all_in.waiters j ≢ arrives
    come zero lt e = cc
    come (suc zero) lt e = cc
    come (suc (suc j)) lt e = omega arith
