-- ===== src/Bench/Config/Checks.antt =====
-- bench/mpmc_bench.cpp: what every configuration that parse_config returns satisfies.
use Prim.Native.String.{String}
use lock_free_stuffs.Prelude.{◌^◌, ◌<◌}
use lock_free_stuffs.Bench.Config.{
  BenchmarkConfig, throughput_runs, ping_pong_messages, ping_pong_runs, min_pairs, max_pairs,
  Result, ok, throws,
}

-- Every number is an unsigned of 32 bits.
abbrev pub Fits : BenchmarkConfig → Type 0
Fits c =
    (c.throughput_messages < 2 ^ 32)
    × (c.throughput_runs < 2 ^ 32)
    × (c.ping_pong_messages < 2 ^ 32)
    × (c.ping_pong_runs < 2 ^ 32)
    × (c.min_pairs < 2 ^ 32)
    × (c.max_pairs < 2 ^ 32)

abbrev Results {ℓ} : {A : Type 0} → (A → Type ℓ) → Result A → Type ℓ
Results P (ok a) = P a
Results P (throws e) = Unit
