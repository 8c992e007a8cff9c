-- ===== src/Bench/Placement/Tests.antt =====
-- bench/mpmc_bench.cpp: the theorem at a concrete input, three pairs on eight hardware threads.
use lock_free_stuffs.Prelude.{◌<◌, ◌≡◌, refl, true, [], ◌∷◌, arith}
use lock_free_stuffs.Bench.Config.{default_config}
use lock_free_stuffs.Bench.Measure.Triangle.{range}
use lock_free_stuffs.Bench.Placement.{
  producer, consumer, started, alternating, own_cpu, queue_max_pairs, available_pairs,
}
use lock_free_stuffs.Bench.Placement.Order.{cpus, threads_of, started_lem}

-- With the alternative placement the consumers stand between the producers.
interleaved : threads_of consumer (started true 3) ≡ 3 ∷ 4 ∷ []
unfolding started alternating
interleaved = refl

started_lem_example :
    (cpus (started true 3) ≡ range 0 5)
    × (threads_of producer (started true 3) ≡ range 0 3)
    × (threads_of consumer (started true 3) ≡ range 3 2)
    × (5 < 8)
unfolding own_cpu queue_max_pairs available_pairs
started_lem_example = started_lem true 3 100 8 default_config (omega arith) (omega arith)
