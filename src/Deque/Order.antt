-- ===== src/Deque/Order.antt =====
-- include/work_steal_deque.h: what holds in every state that the owner and the thieves reach.
use lock_free_stuffs.Prelude.{
  ℕ, ◌^◌, ◌≤◌, ◌≡◌, refl, ap, subst, List, [], ◌∷◌, length, ltb, ◌==◌, if_split, arith,
}
use lock_free_stuffs.Deque.{new, size, empty, has_space, has_item, cas_top}
use lock_free_stuffs.Deque.Spec.{Runs, nothing}
use lock_free_stuffs.Deque.Rep.{Stands, new-Stands}
use lock_free_stuffs.Deque.Machine.{
  Owner, Thief, Machine, resting, testing, storing, wanting, lowering, looking, contending,
  giving_back, lost, kept, away, loaded, allowed, holding, start, own_step, steal_step, begin_push,
  begin_pop, owner_goes, thief_goes, Reach, here, next,
}
use lock_free_stuffs.Deque.Inv.{off, pending, Inv}
use lock_free_stuffs.Deque.Steps.{Bounded, on}
use lock_free_stuffs.Deque.Own.{own_step-Inv}
use lock_free_stuffs.Deque.Thieves.{steal_step-Inv}

module _ {ℓ} {A : Type ℓ} (k elem : ℕ) where
  start-Inv : (raw : ℕ → A) → Inv k elem (start raw)
  unfolding new
  start-Inv raw = record {
    values = [];
    runs = nothing;
    stands = new-Stands k elem raw;
    owner_at = tt;
    thief_at = λ i. tt;
    counts = omega arith;
  }

  own_counts : (o : Owner A) (m : Machine A) → m.counted ≤ (own_step k elem o m).counted
  unfolding own_step
  own_counts resting m = omega arith
  own_counts (testing vs) m =
      if_split (λ (n : Machine A). m.counted ≤ n.counted) (has_space k elem m.deque).0
        (λ e. omega arith) (λ e. omega arith)
  own_counts (storing done (v ∷ todo)) m = omega arith
  own_counts (storing done []) m = omega arith
  own_counts wanting m =
      if_split (λ (n : Machine A). m.counted ≤ n.counted) (has_item m.deque).0 (λ e. omega arith)
        (λ e. omega arith)
  own_counts lowering m = omega arith
  own_counts looking m =
      if_split (λ (n : Machine A). m.counted ≤ n.counted) (ltb m.deque.bottom m.deque.top)
        (λ e. omega arith)
        (λ e.
          if_split (λ (n : Machine A). m.counted ≤ n.counted) (m.deque.top == m.deque.bottom)
            (λ e. omega arith) (λ e. omega arith))
  own_counts contending m =
      if_split (λ (n : Machine A). m.counted ≤ n.counted) (cas_top m.deque.bottom m.deque).0
        (λ e. omega arith) (λ e. omega arith)
  own_counts (giving_back top) m = omega arith
  own_counts (lost top) m = omega arith
  own_counts kept m = omega arith

  steal_counts :
      (i : ℕ) (t : Thief A) (m : Machine A) → (steal_step k elem i t m).counted ≡ m.counted
  unfolding steal_step
  steal_counts i away m = refl
  steal_counts i (loaded top) m = refl
  steal_counts i (allowed top) m = refl
  steal_counts i (holding top v) m =
      if_split (λ (n : Machine A). n.counted ≡ m.counted) (cas_top top m.deque).0 (λ e. refl)
        (λ e. refl)

  pub Reach-Inv : {raw : ℕ → A} {m : Machine A} → Reach k elem raw m → Bounded k m → Inv k elem m
  Reach-Inv {raw} here bound = start-Inv raw
  Reach-Inv (next {m} r (begin_push v vs at)) bound =
      let inv = Reach-Inv r bound in
      on k elem inv (testing (v ∷ vs)) m.deque
        (subst (λ o. Stands k elem (off o) (pending o) inv.values m.deque) at inv.stands) tt refl
  Reach-Inv (next {m} r (begin_pop at)) bound =
      let inv = Reach-Inv r bound in
      on k elem inv wanting m.deque
        (subst (λ o. Stands k elem (off o) (pending o) inv.values m.deque) at inv.stands) tt refl
  Reach-Inv (next {m} r owner_goes) bound =
      let before : Bounded k m = omega (arith, own_counts m.owner m) in
      own_step-Inv k elem (Reach-Inv r before) before m.owner refl
  Reach-Inv (next {m} r (thief_goes i)) bound =
      let before : Bounded k m = omega (arith, steal_counts i (m.thieves i) m) in
      steal_step-Inv k elem (Reach-Inv r before) i (m.thieves i) before refl

  -- For N = 2^k, in every state that the owner and any number of thieves reach by interleaved steps
  -- from a new WorkStealDeque, as long as fewer than 2^64 - N - 1 values were pushed: the calls that
  -- have taken effect did so, in their order, to a list of at most N values that is pushed and popped
  -- at its end and stolen from at its front, refused a batch only when N values were in and a pop
  -- only when there was none, and the slots from the top on hold the values of that list.
  pub deque_linearizable :
      (raw : ℕ → A) {m : Machine A}
      → Reach k elem raw m
      → Bounded k m
      → (xs : List A) × Runs (2 ^ k) m.log xs
        × Stands k elem (off m.owner) (pending m.owner) xs m.deque
  deque_linearizable raw r bound = let inv = Reach-Inv r bound in (inv.values, inv.runs, inv.stands)

  -- For N = 2^k, in every state that the owner and any number of thieves reach by interleaved steps
  -- from a new WorkStealDeque, as long as fewer than 2^64 - N - 1 values were pushed, and that finds
  -- the owner between its calls: size is the number of the values that are in, and empty tells
  -- whether there is none.
  pub deque_size :
      (raw : ℕ → A) {m : Machine A}
      → Reach k elem raw m
      → Bounded k m
      → m.owner ≡ resting
      → (xs : List A) × Runs (2 ^ k) m.log xs
        × (size m.deque ≡ length xs)
        × (empty m.deque ≡ (length xs == 0))
  unfolding size empty
  deque_size raw {m} r bound at =
      let inv = Reach-Inv r bound in
      let s : Stands k elem 0 [] inv.values m.deque =
        subst (λ o. Stands k elem (off o) (pending o) inv.values m.deque) at inv.stands in
      let count : size m.deque ≡ length inv.values =
        ground (arith, s.at, s.published, inv.counts, bound) in
      (inv.values, inv.runs, count, ap (λ n. n == 0) count)
