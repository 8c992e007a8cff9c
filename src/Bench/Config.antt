-- ===== src/Bench/Config.antt =====
-- bench/mpmc_bench.cpp: the command line of the benchmark and the checks on it. argv is the list of the
-- arguments behind the program's name. strtoul is a parameter, which returns the value and what `end`
-- points to; a null pointer from getenv is `none`.
pub mod Checks
pub mod Print
pub mod Tests
use Prim.Native.String.{String}
use text.Mathlib.Text
use lock_free_stuffs.Prelude.{
  ℕ, ◌-◌, ◌^◌, ◌≤◌, ◌<◌, ◌≡◌, ◌⊎◌, Bool, true, false, not, ◌&&◌, ◌||◌, Option, none, some, List, [],
  ◌∷◌, ltb, ◌==◌, if◌then◌else◌,
}

pub record BenchmarkConfig : Type 0 where
  pub throughput_messages : ℕ
  pub throughput_runs : ℕ
  pub ping_pong_messages : ℕ
  pub ping_pong_runs : ℕ
  pub min_pairs : ℕ
  pub max_pairs : ℕ
  pub run_throughput : Bool
  pub run_ping_pong : Bool
  pub use_huge_pages : Bool

abbrev pub default_config : BenchmarkConfig
default_config = record {
  throughput_messages = 1000000;
  throughput_runs = 3;
  ping_pong_messages = 100000;
  ping_pong_runs = 10;
  min_pairs = 1;
  max_pairs = 0;
  run_throughput = true;
  run_ping_pong = true;
  use_huge_pages = false;
}

-- The options that take a number.
pub data Setting : Type 0 where
  messages : Setting
  throughput_runs : Setting
  ping_pong_messages : Setting
  ping_pong_runs : Setting
  min_pairs : Setting
  max_pairs : Setting

pub data Argument : Type 0 where
  sets : Setting → Argument
  throughput_only : Argument
  ping_pong_only : Argument
  huge_pages : Argument
  unknown : Argument

-- The std::runtime_error that is thrown.
pub data Error : Type 0 where
  needs_value : Setting → Error
  expects_unsigned : Setting → Error
  unknown_argument : String → Error
  none_enabled : Error
  no_pairs : Error
  pairs_turned : Error
  no_runs : Error
  no_messages : Error

pub data Result {ℓ} (A : Type ℓ) : Type ℓ where
  ok : A → Result A
  throws : Error → Result A

pub record Number : Type 0 where
  pub value : ℕ
  pub rest : String

-- strcmp(a, b) == 0
abbrev pub same : String → String → Bool
same a b = Text.◌==◌ a b

-- The comparisons of the loop in parse_config, in their order.
unfoldable pub read : String → Argument
read a =
    if same a "--messages"
    then sets messages
    else if same a "--throughput-runs"
    then sets throughput_runs
    else if same a "--ping-pong-messages"
    then sets ping_pong_messages
    else if same a "--ping-pong-runs"
    then sets ping_pong_runs
    else if same a "--min-pairs"
    then sets min_pairs
    else if same a "--max-pairs"
    then sets max_pairs
    else if same a "--throughput-only"
    then throughput_only
    else if same a "--ping-pong-only"
    then ping_pong_only
    else if same a "--huge-pages"
    then huge_pages
    else unknown

unfoldable pub put : Setting → ℕ → BenchmarkConfig → BenchmarkConfig
put messages n c = record c { throughput_messages = n }
put throughput_runs n c = record c { throughput_runs = n }
put ping_pong_messages n c = record c { ping_pong_messages = n }
put ping_pong_runs n c = record c { ping_pong_runs = n }
put min_pairs n c = record c { min_pairs = n }
put max_pairs n c = record c { max_pairs = n }

unfoldable pub use_huge_pages : List String → Option String → Bool
use_huge_pages [] none = false
use_huge_pages [] (some env) = not (same env "0")
use_huge_pages (a ∷ argv) env = same a "--huge-pages" || use_huge_pages argv env

-- The tests behind the loop of parse_config.
unfoldable pub checked : BenchmarkConfig → Result BenchmarkConfig
checked c =
    if not c.run_throughput && not c.run_ping_pong
    then throws none_enabled
    else if c.min_pairs == 0
    then throws no_pairs
    else if not (c.max_pairs == 0) && ltb c.max_pairs c.min_pairs
    then throws pairs_turned
    else if c.throughput_runs == 0 || c.ping_pong_runs == 0
    then throws no_runs
    else if c.throughput_messages == 0 || c.ping_pong_messages == 0
    then throws no_messages
    else ok c

-- What follows an argument: `value` where it takes a number, and else `more` of the loop.
unfoldable pub argument :
    Argument
    → String
    → (Setting → Result BenchmarkConfig)
    → (BenchmarkConfig → Result BenchmarkConfig)
    → BenchmarkConfig
    → Result BenchmarkConfig
argument (sets flag) a value more c = value flag
argument throughput_only a value more c = more (record c { run_ping_pong = false })
argument ping_pong_only a value more c = more (record c { run_throughput = false })
argument huge_pages a value more c = more c
argument unknown a value more c = throws (unknown_argument a)

-- What follows a number, unless it is none.
unfoldable pub number : Result ℕ → (ℕ → Result BenchmarkConfig) → Result BenchmarkConfig
number (ok n) more = more n
number (throws e) more = throws e

module _ (strtoul : String → Number) where
  unfoldable pub parse_unsigned : Setting → String → Result ℕ
  parse_unsigned flag arg =
      let n = strtoul arg in
      if same arg "" || not (same n.rest "") || ltb (2 ^ 32 - 1) n.value
      then throws (expects_unsigned flag)
      else ok n.value

  -- The loop of parse_config, from one argument on.
  unfoldable pub parse_args : List String → BenchmarkConfig → Result BenchmarkConfig
  parse_args [] c = ok c
  parse_args (a ∷ []) c = argument (read a) a (λ flag. throws (needs_value flag)) ok c
  parse_args (a ∷ v ∷ argv) c =
      argument (read a) a
        (λ flag. number (parse_unsigned flag v) (λ n. parse_args argv (put flag n c)))
        (parse_args (v ∷ argv)) c

  unfoldable pub parse_config : List String → Option String → Result BenchmarkConfig
  parse_config argv env =
      elim (parse_args argv (record default_config { use_huge_pages = use_huge_pages argv env })) [
        | ok c ↦ checked c
        | throws e ↦ throws e
      ]

-- What the benchmark may rely on.
pub record Valid (c : BenchmarkConfig) : Type 0 where
  pub enabled : (c.run_throughput ≡ true) ⊎ (c.run_ping_pong ≡ true)
  pub pairs :
      (0 < c.min_pairs) × (c.max_pairs ≡ 0) ⊎ ((0 < c.min_pairs) × (c.min_pairs ≤ c.max_pairs))
  pub runs : (0 < c.throughput_runs) × (0 < c.ping_pong_runs)
  pub counts : (0 < c.throughput_messages) × (0 < c.ping_pong_messages)
  pub fits :
      (c.throughput_messages < 2 ^ 32)
      × (c.throughput_runs < 2 ^ 32)
      × (c.ping_pong_messages < 2 ^ 32)
      × (c.ping_pong_runs < 2 ^ 32)
      × (c.min_pairs < 2 ^ 32)
      × (c.max_pairs < 2 ^ 32)
