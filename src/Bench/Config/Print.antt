-- ===== src/Bench/Config/Print.antt =====
-- bench/mpmc_bench.cpp: a command line that asks for a configuration gets it.
use Prim.Native.String.{String}
use lock_free_stuffs.Prelude.{
  ℕ, ◌-◌, ◌^◌, ◌<◌, ◌≡◌, refl, ap, ◌∙◌, true, false, not, ◌&&◌, ◌||◌, Bool, none, List, [], ◌∷◌,
  ◌++◌, ltb, ◌==◌, if◌then◌else◌, arith,
}
use lock_free_stuffs.Bench.Config.{
  BenchmarkConfig, default_config, Setting, messages, throughput_runs, ping_pong_messages,
  ping_pong_runs, min_pairs, max_pairs, sets, Result, ok, throws, Number, read, put, use_huge_pages,
  checked, argument, number, parse_unsigned, parse_args, parse_config, Valid, same,
}

abbrev flag_of : Setting → String
flag_of messages = "--messages"
flag_of throughput_runs = "--throughput-runs"
flag_of ping_pong_messages = "--ping-pong-messages"
flag_of ping_pong_runs = "--ping-pong-runs"
flag_of min_pairs = "--min-pairs"
flag_of max_pairs = "--max-pairs"

read-flag_of : (flag : Setting) → read (flag_of flag) ≡ sets flag
unfolding read
read-flag_of messages = refl
read-flag_of throughput_runs = refl
read-flag_of ping_pong_messages = refl
read-flag_of ping_pong_runs = refl
read-flag_of min_pairs = refl
read-flag_of max_pairs = refl

not_huge : (flag : Setting) → same (flag_of flag) "--huge-pages" ≡ false
not_huge messages = refl
not_huge throughput_runs = refl
not_huge ping_pong_messages = refl
not_huge ping_pong_runs = refl
not_huge min_pairs = refl
not_huge max_pairs = refl

checked_lem : (c : BenchmarkConfig) → Valid c → checked c ≡ ok c
unfolding checked
checked_lem c v = rw (some, pairs, range, runs, counts) refl
  where
    some : (not c.run_throughput && not c.run_ping_pong) ≡ false
    some = ground (arith, v.enabled)

    pairs : (c.min_pairs == 0) ≡ false
    pairs = ground (arith, v.pairs)

    range : (not (c.max_pairs == 0) && ltb c.max_pairs c.min_pairs) ≡ false
    range = ground (arith, v.pairs)

    runs : (c.throughput_runs == 0 || c.ping_pong_runs == 0) ≡ false
    runs = ground (arith, v.runs)

    counts : (c.throughput_messages == 0 || c.ping_pong_messages == 0) ≡ false
    counts = ground (arith, v.counts)

module _ (strtoul : String → Number) (show : ℕ → String) where
  -- What strtoul does with an unsigned number in decimal: it reads the number and the whole of it. A
  -- number is neither empty nor an option.
  pub record Reads : Type 0 where
    pub number : (n : ℕ) → n < 2 ^ 32 → strtoul (show n) ≡ record { value = n; rest = "" }
    pub some_digit : (n : ℕ) → n < 2 ^ 32 → same (show n) "" ≡ false
    pub no_option : (n : ℕ) → n < 2 ^ 32 → same (show n) "--huge-pages" ≡ false

  -- The options that ask for the configuration.
  abbrev pub options : BenchmarkConfig → List String
  options c =
      (if c.run_throughput then [] else "--ping-pong-only" ∷ [])
      ++ ((if c.run_ping_pong then [] else "--throughput-only" ∷ [])
          ++ (if c.use_huge_pages then "--huge-pages" ∷ [] else []))

  abbrev pub set : Setting → ℕ → List String → List String
  set flag n argv = flag_of flag ∷ show n ∷ argv

  abbrev pub config_args : BenchmarkConfig → List String
  config_args c = set messages c.throughput_messages (
      set throughput_runs c.throughput_runs (
        set ping_pong_messages c.ping_pong_messages (
          set ping_pong_runs c.ping_pong_runs
            (set min_pairs c.min_pairs (set max_pairs c.max_pairs (options c))))))

  module _ (reads : Reads) where
    parse_number :
        (flag : Setting) (n : ℕ) → n < 2 ^ 32 → parse_unsigned strtoul flag (show n) ≡ ok n
    unfolding parse_unsigned
    parse_number flag n lt = rw (reads.some_digit n lt, reads.number n lt, fits) refl
      where
        fits : ltb (2 ^ 32 - 1) n ≡ false
        fits = ground (arith, lt)

    set_lem :
        (flag : Setting) (n : ℕ) (argv : List String) (c : BenchmarkConfig)
        → n < 2 ^ 32
        → parse_args strtoul (set flag n argv) c ≡ parse_args strtoul argv (put flag n c)
    unfolding parse_args argument number
    set_lem flag n argv c lt = rw (read-flag_of flag) then_put
      where
        then_put :
            number
              (parse_unsigned strtoul flag (show n))
              (λ n'. parse_args strtoul argv (put flag n' c))
            ≡ parse_args strtoul argv (put flag n c)
        then_put =
            ap (λ r. number r (λ n'. parse_args strtoul argv (put flag n' c)))
              (parse_number flag n lt)

    set_huge :
        (flag : Setting) (n : ℕ) (argv : List String)
        → n < 2 ^ 32
        → use_huge_pages (set flag n argv) none ≡ use_huge_pages argv none
    unfolding use_huge_pages
    set_huge flag n argv lt = rw (not_huge flag, reads.no_option n lt) refl

    set_groups : Bool → Bool → Bool → BenchmarkConfig → BenchmarkConfig
    set_groups throughput ping_pong huge c = record c {
      run_throughput = throughput;
      run_ping_pong = ping_pong;
      use_huge_pages = huge;
    }

    -- The groups start enabled.
    options_lem :
        (throughput ping_pong huge : Bool) (c : BenchmarkConfig)
        → (let asked : List String = options (set_groups throughput ping_pong huge c) in
            (parse_args strtoul asked (set_groups true true huge c)
              ≡ ok (set_groups throughput ping_pong huge c))
            × (use_huge_pages asked none ≡ huge))
    unfolding set_groups parse_args argument read use_huge_pages
    options_lem true true true c = (refl, refl)
    options_lem true true false c = (refl, refl)
    options_lem true false true c = (refl, refl)
    options_lem true false false c = (refl, refl)
    options_lem false true true c = (refl, refl)
    options_lem false true false c = (refl, refl)
    options_lem false false true c = (refl, refl)
    options_lem false false false c = (refl, refl)

    huge_lem :
        (c : BenchmarkConfig) → Valid c → use_huge_pages (config_args c) none ≡ c.use_huge_pages
    unfolding set_groups
    huge_lem c v =
        let (a, b, d, e, f, g) = v.fits in
        set_huge messages c.throughput_messages _ a
        ∙ set_huge throughput_runs c.throughput_runs _ b
        ∙ set_huge ping_pong_messages c.ping_pong_messages _ d
        ∙ set_huge ping_pong_runs c.ping_pong_runs _ e
        ∙ set_huge min_pairs c.min_pairs _ f
        ∙ set_huge max_pairs c.max_pairs (options c) g
        ∙ (options_lem c.run_throughput c.run_ping_pong c.use_huge_pages c).1

    args_lem :
        (c : BenchmarkConfig)
        → Valid c
        → parse_args strtoul
            (config_args c)
            (record default_config { use_huge_pages = c.use_huge_pages })
          ≡ ok c
    unfolding set_groups put
    args_lem c v =
        let (a, b, d, e, f, g) = v.fits in
        set_lem messages c.throughput_messages _ _ a
        ∙ set_lem throughput_runs c.throughput_runs _ _ b
        ∙ set_lem ping_pong_messages c.ping_pong_messages _ _ d
        ∙ set_lem ping_pong_runs c.ping_pong_runs _ _ e
        ∙ set_lem min_pairs c.min_pairs _ _ f
        ∙ set_lem max_pairs c.max_pairs (options c) _ g
        ∙ (options_lem c.run_throughput c.run_ping_pong c.use_huge_pages c).0

    -- For a valid configuration, numbers printed as strtoul reads them back and no environment variable:
    -- the command line that gives every number and the options that the configuration needs makes
    -- parse_config return it.
    pub config_roundtrip :
        (c : BenchmarkConfig) → Valid c → parse_config strtoul (config_args c) none ≡ ok c
    unfolding parse_config
    config_roundtrip c v =
        ap finish (
          ap
            (λ h. parse_args strtoul (config_args c) (record default_config { use_huge_pages = h }))
            (huge_lem c v)
          ∙ args_lem c v)
        ∙ checked_lem c v
      where
        finish : Result BenchmarkConfig → Result BenchmarkConfig
        finish r = elim r [ ok d ↦ checked d | throws e ↦ throws e ]
