-- ===== src/Mpmc/Seq/Order.antt =====
-- include/mpmc_seq.h: what holds in every state that the threads reach.
use lock_free_stuffs.Prelude.{ℕ, ◌-◌, leb, ◌^◌, ◌≤◌, ◌≡◌, ◌≢◌}
use lock_free_stuffs.Spsc.Layout.{slot_index}
use lock_free_stuffs.Mpmc.Ring.{size, empty}
use lock_free_stuffs.Mpmc.Machine.{Machine, push_writes, pop_reads, Reach}
use lock_free_stuffs.Mpmc.Inv.{Once, Delivered}
use lock_free_stuffs.Mpmc.Moves.{Bounded}
use lock_free_stuffs.Mpmc.Order.{delivers, no_race, size_lem}
use lock_free_stuffs.Mpmc.Seq.{Slot, ring, new}
use lock_free_stuffs.Mpmc.Seq.Laws.{ring-Lawful, new_numbered, index_apart}

-- For SIZE = 2^k of at least two, in every state that any number of threads reach by interleaved
-- steps of push, pop, try_emplace and try_pop from a new LockFreeQueueMpmcSeq, as long as fewer than
-- 2^64 - SIZE pushes and as many pops have taken a ticket: every pop that has ended got the value
-- that the push with its ticket put, and no two of them had one ticket.
pub seq_delivers {ℓ} :
    {A : Type ℓ} (k elem : ℕ) (raw : ℕ → A) {m : Machine A (ℕ → Slot A)}
    → 2 ≤ 2 ^ k
    → Reach k (ring k elem) (new k elem raw) m
    → Bounded k m
    → Delivered m.pushes m.issued m.got × Once m.got
seq_delivers k elem raw two r bound =
    delivers k (ring k elem) (ring-Lawful k elem) two (new k elem raw) (new_numbered k elem raw) r
      bound

-- For SIZE = 2^k of at least two, in every state that any number of threads reach by interleaved
-- steps of push, pop, try_emplace and try_pop from a new LockFreeQueueMpmcSeq, as long as fewer than
-- 2^64 - SIZE pushes and as many pops have taken a ticket: a thread that is about to store its value
-- and a thread that is about to read one are at different slots.
pub seq_no_race {ℓ} :
    {A : Type ℓ} (k elem : ℕ) (raw : ℕ → A) {m : Machine A (ℕ → Slot A)} (i j : ℕ) {c d : ℕ} {v : A}
    → 2 ≤ 2 ^ k
    → Reach k (ring k elem) (new k elem raw) m
    → Bounded k m
    → m.threads i ≡ push_writes c v
    → m.threads j ≡ pop_reads d
    → slot_index k elem d ≢ slot_index k elem c
seq_no_race k elem raw i j {c} {d} two r bound at at' = index_apart k elem c d (
    no_race k (ring k elem) (ring-Lawful k elem) two (new k elem raw) (new_numbered k elem raw) i j
      r bound at at')

-- For SIZE = 2^k of at least two, in every state that any number of threads reach by interleaved
-- steps of push, pop, try_emplace and try_pop from a new LockFreeQueueMpmcSeq, as long as fewer than
-- 2^64 - SIZE pushes and as many pops have taken a ticket: size is the number of pushes that have
-- taken a ticket less that of the pops, or 0 where more pops than pushes have, and empty tells
-- whether it is 0.
pub seq_size {ℓ} :
    {A : Type ℓ} (k elem : ℕ) (raw : ℕ → A) {m : Machine A (ℕ → Slot A)}
    → 2 ≤ 2 ^ k
    → Reach k (ring k elem) (new k elem raw) m
    → Bounded k m
    → (size m.queue ≡ m.pushes - m.pops) × (empty m.queue ≡ leb m.pushes m.pops)
seq_size k elem raw two r bound =
    size_lem k (ring k elem) (ring-Lawful k elem) two (new k elem raw) (new_numbered k elem raw) r
      bound
