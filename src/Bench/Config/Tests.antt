-- ===== src/Bench/Config/Tests.antt =====
-- bench/mpmc_bench.cpp: the theorems at concrete command lines. Here a number is printed as so many
-- ones behind a first one, and read back by its length.
use Prim.Native.String.{String}
use Prim.Native.Char.{Char, code}
use text.Mathlib.TextEquality.{eq_iff}
use text.Mathlib.TextLemmas.{cons≢nil, head-eq_of_cons-eq}
use lock_free_stuffs.Prelude.{
  ℕ, zero, suc, ◌-◌, ◌≡◌, ◌≢◌, refl, ap, inl, inr, Bool-cases, true, false, none, [], ◌∷◌, arith,
}
use lock_free_stuffs.Bench.Config
use lock_free_stuffs.Bench.Config.{
  BenchmarkConfig, default_config, Number, ok, throws, parse_config, Valid, same,
}
use lock_free_stuffs.Bench.Config.Print.{Reads, config_args, config_roundtrip}

abbrev ones : ℕ → String
ones zero = ""
ones (suc n) = String.◌∷◌ "1" (ones n)

abbrev show : ℕ → String
show n = ones (suc n)

abbrev count : String → ℕ
count String.[] = 0
count (String.◌∷◌ c s) = suc (count s)

abbrev strtoul : String → Number
strtoul s = record { value = count s - 1; rest = "" }

count-ones : (n : ℕ) → count (ones n) ≡ n
count-ones zero = refl
count-ones (suc n) = ap suc (count-ones n)

differ : (s t : String) → s ≢ t → same s t ≡ false
differ s t ne = elim (Bool-cases (same s t)) [ inl e ↦ absurd (ne ((eq_iff s t).0 e)) | inr e ↦ e ]

first_differs : Path Char "1" "-" → ⊥
first_differs e = omega (arith, ap code e)

reads : Reads strtoul show
reads = record {
  number = λ n lt. ap (λ m. record { value = m; rest = "" }) {y = n} (omega (arith, count-ones n));
  some_digit = λ n lt. differ (show n) "" cons≢nil;
  no_option = λ n lt. differ (show n) "--huge-pages" (λ e. first_differs (head-eq_of_cons-eq e));
}

-- Two messages, one run each, at least and at most one pair, and throughput only.
abbrev small : BenchmarkConfig
small = record {
  throughput_messages = 2;
  throughput_runs = 1;
  ping_pong_messages = 2;
  ping_pong_runs = 1;
  min_pairs = 1;
  max_pairs = 1;
  run_throughput = true;
  run_ping_pong = false;
  use_huge_pages = true;
}

small-Valid : Valid small
small-Valid = record {
  enabled = inl refl;
  pairs = inr (omega arith, omega arith);
  runs = (omega arith, omega arith);
  counts = (omega arith, omega arith);
  fits = (omega arith, omega arith, omega arith, omega arith, omega arith, omega arith);
}

config_roundtrip_example : parse_config strtoul (config_args strtoul show small) none ≡ ok small
config_roundtrip_example = config_roundtrip strtoul show reads small small-Valid

-- An option without its number.
refuses :
    parse_config strtoul ("--messages" ∷ []) none ≡ throws (Config.needs_value Config.messages)
unfolding parse_config Config.parse_args Config.read Config.argument Config.use_huge_pages
refuses = refl
