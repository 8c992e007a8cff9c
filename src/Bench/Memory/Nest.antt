-- ===== src/Bench/Memory/Nest.antt =====
-- bench/memory.h, bench/memory.cpp: objects that are destroyed in the reverse order of their creation,
-- as those of the C++ scopes in the benchmarks are.
use lock_free_stuffs.Prelude.{
  ℕ, ◌+◌, ◌-◌, ◌≤◌, ◌≡◌, refl, ap, ◌∙◌, false, Option, none, some, List, [], ◌∷◌, ◌++◌, max, ltb,
  eq→==, arith,
}
use lock_free_stuffs.Bench.Memory.{HugePages, WellFormed}
use lock_free_stuffs.Bench.Memory.Blocks.{
  Call, creates, destroys, Arena, create, destroy, call, run, allocate_lem, deallocate_lem,
}

-- Scopes: an object of a size with what happens while it lives, and what comes after it.
pub data Scope : Type 0 where
  done : Scope
  scope : ℕ → Scope → Scope → Scope

abbrev pub calls_of : Scope → List Call
calls_of done = []
calls_of (scope size inner after) = (creates size ∷ calls_of inner) ++ (destroys 0 ∷ calls_of after)

-- The most bytes that live at once.
abbrev pub height : Scope → ℕ
height done = 0
height (scope size inner after) = max (size + height inner) (height after)

run-append : (cs ds : List Call) (a : Arena) → run (cs ++ ds) a ≡ run ds (run cs a)
unfolding run
run-append [] ds a = refl
run-append (c ∷ cs) ds a = run-append cs ds (call c a)

abbrev pushed : ℕ → Arena → Arena
pushed size a = record {
  pages = record a.pages { cur = a.pages.cur + size };
  live = (a.pages.cur, size) ∷ a.live;
}

create_lem :
    (size : ℕ) (a : Arena)
    → WellFormed a.pages
    → size ≤ a.pages.end - a.pages.cur
    → create size a ≡ pushed size a
unfolding create
create_lem size a w fits =
    ap next {y = some (a.pages.cur, record a.pages { cur = a.pages.cur + size })}
      (allocate_lem size w ∙ rw (room) refl)
  where
    next : Option (ℕ × HugePages) → Arena
    next o = elim o [ none ↦ a | some (p, hp') ↦ record { pages = hp'; live = (p, size) ∷ a.live } ]

    room : ltb (a.pages.end - a.pages.cur) size ≡ false
    room = ground (arith, fits)

pushed-WellFormed :
    (size : ℕ) (a : Arena)
    → WellFormed a.pages
    → size ≤ a.pages.end - a.pages.cur
    → WellFormed (pushed size a).pages
pushed-WellFormed size a w fits = record {
  mapped = w.mapped;
  after = omega (arith, w.after);
  within = omega (arith, fits, w.within);
  below = w.below;
}

destroy_lem :
    (size : ℕ) (a : Arena)
    → WellFormed a.pages
    → size ≤ a.pages.end - a.pages.cur
    → destroy 0 (pushed size a) ≡ a
unfolding destroy
destroy_lem size a w fits =
    ap (λ hp. record { pages = hp; live = a.live })
      (deallocate_lem a.pages.cur size (pushed-WellFormed size a w fits) (omega arith)
        ∙ (rw (eq→== (a.pages.cur + size - size) a.pages.cur (omega arith)) back))
  where
    back : (record a.pages { cur = a.pages.cur + size - size }) ≡ a.pages
    back = ap (λ c. record a.pages { cur = c }) {y = a.pages.cur} (omega arith)

-- In pages that are well formed, scopes that need no more bytes at once than are free: when all of
-- them have ended the pages and the list of what lives are as they were.
pub arena_nested :
    (s : Scope) (a : Arena)
    → WellFormed a.pages
    → height s ≤ a.pages.end - a.pages.cur
    → run (calls_of s) a ≡ a
unfolding run call
arena_nested done a w fits = refl
arena_nested (scope size inner after) a w fits =
    run-append (calls_of inner) (destroys 0 ∷ calls_of after) (create size a)
    ∙ ap (λ b. run (calls_of after) (destroy 0 (run (calls_of inner) b)))
        (create_lem size a w (omega (arith, fits)))
    ∙ ap (λ b. run (calls_of after) (destroy 0 b))
        (arena_nested inner (pushed size a) (pushed-WellFormed size a w (omega (arith, fits)))
          (omega (arith, fits)))
    ∙ ap (run (calls_of after)) (destroy_lem size a w (omega (arith, fits)))
    ∙ arena_nested after a w (omega (arith, fits))
