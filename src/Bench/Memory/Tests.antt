-- ===== src/Bench/Memory/Tests.antt =====
-- bench/memory.h, bench/memory.cpp: the theorems at concrete inputs.
use lock_free_stuffs.Prelude.{
  ℕ, ◌+◌, ◌<◌, ◌^◌, ◌≡◌, refl, true, false, Option, none, some, [], ◌∷◌, arith, word, ltb,
  if◌then◌else◌, if_split, clear_low,
}
use mathlib.Core.Option.{some-injective}
use lock_free_stuffs.Bench.Memory
use lock_free_stuffs.Bench.Memory.{
  HugePages, PageType, page_default, page_2mb, page_1gb, no_1gb_pages, no_2mb_pages, Warnings, made,
  throws, construct, allocate, deallocate, rounded_size, check_leaks, make_benchmark_pages,
  WellFormed,
}
use lock_free_stuffs.Bench.Memory.Blocks.{creates, destroys, Arena, run, Ok, arena_disjoint}
use lock_free_stuffs.Bench.Memory.Construct.{Ends, arena_constructs}
use lock_free_stuffs.Bench.Memory.Nest.{scope, done, calls_of, arena_nested}

abbrev pages : HugePages
pages = record { cur = 4096; end = 8192; beg = 4096 }

pages-WellFormed : WellFormed pages
pages-WellFormed = record {
  mapped = omega arith;
  after = omega arith;
  within = omega arith;
  below = omega arith;
}

abbrev nothing_in : Arena
nothing_in = record { pages = pages; live = [] }

arena_disjoint_example :
    Ok (run (creates 64 ∷ creates 128 ∷ destroys 1 ∷ creates 64 ∷ []) nothing_in) 4096 8192
arena_disjoint_example =
    arena_disjoint (creates 64 ∷ creates 128 ∷ destroys 1 ∷ creates 64 ∷ []) pages-WellFormed
      (omega arith, (omega arith, (omega arith, tt)))

-- Two objects that are destroyed in the order of their creation: the first one's bytes are not given
-- back, and check_huge_pages_leaks reports as many, though nothing lives.
leaks :
    run (creates 64 ∷ creates 128 ∷ destroys 1 ∷ destroys 0 ∷ []) nothing_in
    ≡ record { pages = record pages { cur = 4160 }; live = [] }
unfolding run Memory.Blocks.call Memory.Blocks.create Memory.Blocks.destroy allocate
    Memory.allocate_nothrow deallocate
leaks = refl

leaks_reported : check_leaks (record pages { cur = 4160 }) ≡ (some 64, pages)
unfolding check_leaks Memory.empty Memory.used Memory.reset
leaks_reported = refl

arena_nested_example :
    run (calls_of (scope 64 (scope 128 done done) (scope 32 done done))) nothing_in ≡ nothing_in
arena_nested_example =
    arena_nested (scope 64 (scope 128 done done) (scope 32 done done)) nothing_in pages-WellFormed
      (omega arith)

-- An mmap that has no huge pages.
abbrev no_huge : PageType → ℕ → Option ℕ
no_huge page_1gb size = none
no_huge page_2mb size = none
no_huge page_default size = if ltb size (2 ^ 40) then some 4096 else none

abbrev both_set : Warnings
both_set = record { warn_no_1gb = true; warn_no_2mb = true; called = [] }

falls_back :
    construct no_huge 12 3 page_1gb 5000 both_set
    ≡ some (
        made
          (record { cur = 4096; end = 12288; beg = 4096 })
          (record {
            warn_no_1gb = false;
            warn_no_2mb = false;
            called = no_1gb_pages ∷ no_2mb_pages ∷ [];
          }))
unfolding construct rounded_size clear_low Memory.warn_1gb Memory.warn_2mb
falls_back = refl

no_huge-Maps :
    (type : PageType) (size p : ℕ) → no_huge type size ≡ some p → (0 < p) × (p + size < word)
no_huge-Maps page_1gb size p e = cc
no_huge-Maps page_2mb size p e = cc
no_huge-Maps page_default size p e =
    if_split (λ o. o ≡ some p → (0 < p) × (p + size < word)) (ltb size (2 ^ 40))
      (λ small e.
        let at = some-injective 4096 p e in (omega (arith, at), ground (arith, at, small)))
      (λ large e. cc) e

arena_constructs_example :
    Ends no_huge 12 5000 page_1gb (construct no_huge 12 3 page_1gb 5000 both_set)
arena_constructs_example =
    arena_constructs no_huge 12 5000 page_1gb both_set no_huge-Maps (omega arith) (omega arith)
