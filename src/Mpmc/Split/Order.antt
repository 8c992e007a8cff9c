-- ===== src/Mpmc/Split/Order.antt =====
-- include/mpmc_seq_split.h: what holds in every state that the threads reach.
use lock_free_stuffs.Prelude.{ℕ, ◌-◌, ◌^◌, ◌≤◌, ◌≡◌, ◌≢◌}
use lock_free_stuffs.Mpmc.Ring.{size}
use lock_free_stuffs.Mpmc.Machine.{Machine, push_writes, pop_reads, Reach}
use lock_free_stuffs.Mpmc.Inv.{Once, Delivered}
use lock_free_stuffs.Mpmc.Moves.{Bounded}
use lock_free_stuffs.Mpmc.Order.{delivers, no_race, size_lem}
use lock_free_stuffs.Mpmc.Split.{Arrays, value_index, ring, new}
use lock_free_stuffs.Mpmc.Split.Laws.{ring-Lawful, new_numbered, value_apart}

-- For SIZE = 2^k of at least two and values of any size, in every state that any number of threads
-- reach by interleaved steps of push, pop, try_emplace and try_pop from a new
-- LockFreeQueueMpmcSeqSplit, as long as fewer than 2^64 - SIZE pushes and as many pops have taken a
-- ticket: every pop that has ended got the value that the push with its ticket put, no two of them
-- had one ticket, and size is the number of pushes that have taken a ticket less that of the pops,
-- or 0 where more pops than pushes have.
pub split_delivers {ℓ} :
    {A : Type ℓ} (k elem : ℕ) (raw : ℕ → A) {m : Machine A (Arrays A)}
    → 2 ≤ 2 ^ k
    → Reach k (ring k elem) (new k raw) m
    → Bounded k m
    → Delivered m.pushes m.issued m.got × Once m.got × (size m.queue ≡ m.pushes - m.pops)
split_delivers k elem raw two r bound =
    let (delivered, once) =
      delivers k (ring k elem) (ring-Lawful k elem) two (new k raw) (new_numbered k elem raw) r
        bound in
    (
      delivered,
      once,
      (size_lem k (ring k elem) (ring-Lawful k elem) two (new k raw) (new_numbered k elem raw) r
          bound).0,
    )

-- For SIZE = 2^k of at least two and values of any size, in every state that any number of threads
-- reach by interleaved steps of push, pop, try_emplace and try_pop from a new
-- LockFreeQueueMpmcSeqSplit, as long as fewer than 2^64 - SIZE pushes and as many pops have taken a
-- ticket: a thread that is about to store its value and a thread that is about to read one are at
-- different remapped places.
pub split_no_race {ℓ} :
    {A : Type ℓ} (k elem : ℕ) (raw : ℕ → A) {m : Machine A (Arrays A)} (i j : ℕ) {c d : ℕ} {v : A}
    → 2 ≤ 2 ^ k
    → Reach k (ring k elem) (new k raw) m
    → Bounded k m
    → m.threads i ≡ push_writes c v
    → m.threads j ≡ pop_reads d
    → value_index k elem d ≢ value_index k elem c
split_no_race k elem raw i j {c} {d} two r bound at at' = value_apart k elem c d (
    no_race k (ring k elem) (ring-Lawful k elem) two (new k raw) (new_numbered k elem raw) i j r
      bound at at')
