-- ===== src/Bench/Barrier/Count.antt =====
-- bench/sync.h: how many of the first threads have come.
use lock_free_stuffs.Prelude.{
  ℕ, zero, suc, ◌+◌, ◌<◌, ◌≤◌, ◌≡◌, refl, sym, ap, ◌∙◌, ==→eq, Bool, true, false, ◌==◌, if_split,
  Bool-cases, inl, inr, arith,
}
use lock_free_stuffs.Mpmc.Machine.{set_thread}
use lock_free_stuffs.Bench.Barrier.{Waiter, arrives, waits, passed}

abbrev pub has_come : Waiter → Bool
has_come arrives = false
has_come waits = true
has_come passed = true

abbrev one : Bool → ℕ
one true = 1
one false = 0

one_le : (b : Bool) → one b ≤ 1
one_le true = omega arith
one_le false = omega arith

one_above : (b : Bool) → 0 < one b → b ≡ true
one_above true h = refl
one_above false h = absurd (omega arith)

-- Of the first `n`, how many have come.
unfoldable pub arrived : ℕ → (ℕ → Waiter) → ℕ
arrived zero ts = 0
arrived (suc n) ts = arrived n ts + one (has_come (ts n))

pub arrived_le : (n : ℕ) (ts : ℕ → Waiter) → arrived n ts ≤ n
unfolding arrived
arrived_le zero ts = omega arith
arrived_le (suc n) ts = omega (arith, arrived_le n ts, one_le (has_come (ts n)))

pub arrived_zero : (n : ℕ) → arrived n (λ i. arrives) ≡ 0
unfolding arrived
arrived_zero zero = refl
arrived_zero (suc n) = omega (arith, arrived_zero n)

-- A thread whose place is beyond the first `n`, or who has come before and after.
pub arrived_same :
    (n i : ℕ) (t : Waiter) (ts : ℕ → Waiter)
    → has_come t ≡ has_come (ts i)
    → arrived n (set_thread i t ts) ≡ arrived n ts
unfolding arrived
arrived_same zero i t ts e = refl
arrived_same (suc n) i t ts e =
    if_split
      (λ x. arrived n (set_thread i t ts) + one (has_come x) ≡ arrived n ts + one (has_come (ts n)))
      (n == i)
      (λ at. omega (
        arith,
        arrived_same n i t ts e,
        ap one (e ∙ ap (λ m. has_come (ts m)) (sym (==→eq n i at))),
      ))
      (λ other. omega (arith, arrived_same n i t ts e))

arrived_beyond :
    (n i : ℕ) (t : Waiter) (ts : ℕ → Waiter) → n ≤ i → arrived n (set_thread i t ts) ≡ arrived n ts
unfolding arrived
arrived_beyond zero i t ts le = refl
arrived_beyond (suc n) i t ts le = omega (
  arith,
  arrived_beyond n i t ts (omega arith),
  ap (λ x. one (has_come x)) (elsewhere n (omega arith)),
)
  where
    elsewhere : (j : ℕ) → j < i → set_thread i t ts j ≡ ts j
    elsewhere j lt = ground (arith, lt)

-- One more has come.
pub arrived_more :
    (n i : ℕ) (t : Waiter) (ts : ℕ → Waiter)
    → i < n
    → has_come (ts i) ≡ false
    → has_come t ≡ true
    → arrived n (set_thread i t ts) ≡ arrived n ts + 1
unfolding arrived
arrived_more zero i t ts lt was now = absurd (omega arith)
arrived_more (suc n) i t ts lt was now =
    if_split
      (λ x.
        arrived n (set_thread i t ts) + one (has_come x) ≡ arrived n ts + one (has_come (ts n)) + 1)
      (n == i)
      (λ at.
        let same : n ≡ i = ==→eq n i at in
        omega (
          arith,
          arrived_beyond n i t ts (omega (arith, same)),
          ap one now,
          ap one (ap (λ m. has_come (ts m)) same ∙ was),
        ))
      (λ other. omega (arith, arrived_more n i t ts (ground (arith, other, lt)) was now))

-- Where all have come, each has.
pub all_come :
    (n : ℕ) (ts : ℕ → Waiter) → arrived n ts ≡ n → (i : ℕ) → i < n → has_come (ts i) ≡ true
unfolding arrived
all_come zero ts e i lt = absurd (omega arith)
all_come (suc n) ts e i lt = elim (Bool-cases (i == n)) [
  | inl at ↦
      ap (λ m. has_come (ts m)) (==→eq i n at)
      ∙ one_above (has_come (ts n)) (omega (arith, e, arrived_le n ts))
  | inr other ↦
      all_come n ts (omega (arith, e, arrived_le n ts, one_le (has_come (ts n)))) i
        (ground (arith, other, lt))
]

-- Once a thread has come the count is above 0.
pub arrived_pos : (n i : ℕ) (ts : ℕ → Waiter) → i < n → has_come (ts i) ≡ true → 0 < arrived n ts
unfolding arrived
arrived_pos zero i ts lt e = absurd (omega arith)
arrived_pos (suc n) i ts lt e = elim (Bool-cases (i == n)) [
  | inl at ↦ omega (arith, ap one (ap (λ m. has_come (ts m)) (sym (==→eq i n at)) ∙ e))
  | inr other ↦ omega (arith, arrived_pos n i ts (ground (arith, other, lt)) e)
]

pub all_arrived :
    (n : ℕ) (ts : ℕ → Waiter) → ((i : ℕ) → i < n → has_come (ts i) ≡ true) → arrived n ts ≡ n
unfolding arrived
all_arrived zero ts h = refl
all_arrived (suc n) ts h =
    omega (arith, all_arrived n ts (λ i lt. h i (omega arith)), ap one (h n (omega arith)))
