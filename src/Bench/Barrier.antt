-- ===== src/Bench/Barrier.antt =====
-- bench/sync.h: Barrier. Any number of threads wait, and one releases them when as many have come as
-- it expects. `counter_` is an unsigned of 32 bits.
pub mod Count
pub mod Order
pub mod Tests
use lock_free_stuffs.Prelude.{ℕ, ◌+◌, ◌%◌, ◌^◌, ◌≡◌, ◌<◌, ◌==◌, if◌then◌else◌}
use lock_free_stuffs.Mpmc.Machine.{set_thread}

-- A thread at wait(): before its fetch_add, in its loop, and behind it.
pub data Waiter : Type 0 where
  arrives : Waiter
  waits : Waiter
  passed : Waiter

-- The thread at release(): in its loop, before the store, and behind it.
pub data Releaser : Type 0 where
  watches : Releaser
  stores : Releaser
  released : Releaser

pub record Barrier : Type 0 where
  pub counter : ℕ
  pub waiters : ℕ → Waiter
  pub releaser : Releaser

-- the next step of waiter `i`, which is at `t`
unfoldable pub wait : ℕ → Waiter → Barrier → Barrier
wait i arrives b = record b {
  counter = (b.counter + 1) % 2 ^ 32;
  waiters = set_thread i waits b.waiters;
}
wait i waits b = record b {
  waiters = set_thread i (if b.counter == 0 then passed else waits) b.waiters;
}
wait i passed b = b

-- the next step of the thread that releases, with its expected_counter
unfoldable pub release : ℕ → Releaser → Barrier → Barrier
release expected watches b = record b {
  releaser = if b.counter == expected then stores else watches;
}
release expected stores b = record b { counter = 0; releaser = released }
release expected released b = b

-- Any of the first `expected` threads, which wait, or the one that releases may go next.
pub data Step (expected : ℕ) (b : Barrier) : Barrier → Type 0 where
  waiter : (i : ℕ) → i < expected → Step expected b (wait i (b.waiters i) b)
  releases : Step expected b (release expected b.releaser b)

abbrev pub new : Barrier
new = record { counter = 0; waiters = λ i. arrives; releaser = watches }

pub data Reach (expected : ℕ) : Barrier → Type 0 where
  here : Reach expected new
  next : {b b' : Barrier} → Reach expected b → Step expected b b' → Reach expected b'
