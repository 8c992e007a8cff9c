-- ===== src/Bench/Placement.antt =====
-- bench/mpmc_bench.cpp: which threads benchmark_throughput starts, and on which of the hardware threads.
-- The number of hardware threads is below 2^32, so that no index wraps.
pub mod Order
pub mod Tests
use lock_free_stuffs.Prelude.{
  ℕ, zero, suc, ◌+◌, ◌-◌, ◌*◌, ◌/◌, Bool, true, false, List, [], ◌∷◌, ◌++◌, min, ◌==◌,
  if◌then◌else◌,
}
use lock_free_stuffs.Bench.Config.{BenchmarkConfig}

pub data Role : Type 0 where
  producer : Role
  consumer : Role

-- A thread's index in `threads`, and the index of its hardware thread in `hw_thread_ids`.
pub record Started : Type 0 where
  pub role : Role
  pub thread : ℕ
  pub cpu : ℕ

-- The loop of the alternative placement, with `left` rounds to go.
unfoldable pub alternating : ℕ → ℕ → ℕ → ℕ → List Started
alternating pairs zero i cpu_index = []
alternating pairs (suc left) i cpu_index =
    let last = i == pairs - 1 in
    let rest = alternating pairs left (i + 1) (if last then cpu_index + 1 else cpu_index + 2) in
    record { role = producer; thread = i; cpu = cpu_index }
    ∷ (if last
        then rest
        else record { role = consumer; thread = pairs + i; cpu = cpu_index + 1 } ∷ rest)

-- The two loops of the other placement.
unfoldable pub producers : ℕ → ℕ → ℕ → List Started
producers zero i cpu_index = []
producers (suc left) i cpu_index =
    record { role = producer; thread = i; cpu = cpu_index } ∷ producers left (i + 1) (cpu_index + 1)

unfoldable pub consumers : ℕ → ℕ → ℕ → ℕ → List Started
consumers pairs zero i cpu_index = []
consumers pairs (suc left) i cpu_index =
    record { role = consumer; thread = pairs + i; cpu = cpu_index }
    ∷ consumers pairs left (i + 1) (cpu_index + 1)

-- What is started besides the calling thread, which is the last consumer.
unfoldable pub started : Bool → ℕ → List Started
started true pairs = alternating pairs pairs 0 0
started false pairs = producers pairs 0 0 ++ consumers pairs (pairs - 1) 0 pairs

-- The index of the calling thread's hardware thread.
unfoldable pub own_cpu : ℕ → ℕ
own_cpu pairs = pairs * 2 - 1

-- `size` is that of hw_thread_ids.
unfoldable pub available_pairs : ℕ → ℕ
available_pairs size = size / 2

-- `most` is Queue::kMaxPairs.
unfoldable pub queue_max_pairs : ℕ → ℕ → BenchmarkConfig → ℕ
queue_max_pairs most size c =
    let queue_limit = min (available_pairs size) most in
    if c.max_pairs == 0 then queue_limit else min c.max_pairs queue_limit
