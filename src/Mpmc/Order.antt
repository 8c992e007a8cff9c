-- ===== src/Mpmc/Order.antt =====
-- include/mpmc_seq.h and include/mpmc_seq_split.h: what holds in every state that the threads reach.
use lock_free_stuffs.Prelude.{
  ℕ, some, eq→==, ◌-◌, ◌%◌, leb, ◌^◌, ◌≤◌, ◌≡◌, ◌≢◌, refl, ap, subst, ◌==◌, if_split, arith,
}
use lock_free_stuffs.Mpmc.Ring.{Ring, Lawful, size, empty}
use lock_free_stuffs.Mpmc.Machine.{
  Thread, Machine, idle, push_waits, push_writes, push_publishes, pop_waits, pop_reads, pop_frees,
  try_push_loads, try_push_tests, try_push_claims, try_pop_loads, try_pop_tests, try_pop_claims,
  take_push, take_pop, go, fail, begin_push, begin_pop, begin_try_push, begin_try_pop, goes, fails,
  Reach, here, next,
}
use lock_free_stuffs.Mpmc.Inv.{Once, Delivered, Own, Inv}
use lock_free_stuffs.Mpmc.Apart.{apart_push}
use lock_free_stuffs.Mpmc.Moves.{Bounded, stay-Inv}
use lock_free_stuffs.Mpmc.Tickets.{start-Inv, raise_head-Inv, raise_tail-Inv}
use lock_free_stuffs.Mpmc.Turns.{go-Inv, fail-Inv}

module _ {ℓ} {A M : Type ℓ} where
  -- The counters only grow.
  go_counts :
      (k : ℕ) (R : Ring A M) (i : ℕ) (t : Thread A) (m : Machine A M)
      → (m.pushes ≤ (go k R i t m).pushes) × (m.pops ≤ (go k R i t m).pops)
  unfolding go
  go_counts k R i idle m = (omega arith, omega arith)
  go_counts k R i (push_waits pos v) m = (omega arith, omega arith)
  go_counts k R i (push_writes pos v) m = (omega arith, omega arith)
  go_counts k R i (push_publishes pos v) m = (omega arith, omega arith)
  go_counts k R i (pop_waits pos) m = (omega arith, omega arith)
  go_counts k R i (pop_reads pos) m = (omega arith, omega arith)
  go_counts k R i (pop_frees pos v) m = (omega arith, omega arith)
  go_counts k R i (try_push_loads v) m = (omega arith, omega arith)
  go_counts k R i (try_push_tests pos v) m = (omega arith, omega arith)
  go_counts k R i (try_push_claims pos v) m =
      if_split (λ (n : Machine A M). (m.pushes ≤ n.pushes) × (m.pops ≤ n.pops))
        (m.queue.head == pos) (λ e. (omega arith, omega arith)) (λ e. (omega arith, omega arith))
  go_counts k R i try_pop_loads m = (omega arith, omega arith)
  go_counts k R i (try_pop_tests pos) m = (omega arith, omega arith)
  go_counts k R i (try_pop_claims pos) m =
      if_split (λ (n : Machine A M). (m.pushes ≤ n.pushes) × (m.pops ≤ n.pops))
        (m.queue.tail == pos) (λ e. (omega arith, omega arith)) (λ e. (omega arith, omega arith))

  fail_counts :
      (i : ℕ) (t : Thread A) (m : Machine A M)
      → ((fail i t m).pushes ≡ m.pushes) × ((fail i t m).pops ≡ m.pops)
  unfolding fail
  fail_counts i idle m = (refl, refl)
  fail_counts i (push_waits pos v) m = (refl, refl)
  fail_counts i (push_writes pos v) m = (refl, refl)
  fail_counts i (push_publishes pos v) m = (refl, refl)
  fail_counts i (pop_waits pos) m = (refl, refl)
  fail_counts i (pop_reads pos) m = (refl, refl)
  fail_counts i (pop_frees pos v) m = (refl, refl)
  fail_counts i (try_push_loads v) m = (refl, refl)
  fail_counts i (try_push_tests pos v) m = (refl, refl)
  fail_counts i (try_push_claims pos v) m = (refl, refl)
  fail_counts i try_pop_loads m = (refl, refl)
  fail_counts i (try_pop_tests pos) m = (refl, refl)
  fail_counts i (try_pop_claims pos) m = (refl, refl)

-- `made` is what the constructor leaves, with every slot numbered.
module _ {ℓ} {A M : Type ℓ} (k : ℕ) (R : Ring A M) (law : Lawful k R) (two : 2 ≤ 2 ^ k) (made : M)
    (numbered : (c : ℕ) → R.number c made ≡ c % 2 ^ k) where
  pub Reach-Inv : {m : Machine A M} → Reach k R made m → Bounded k m → Inv R k m
  unfolding take_push take_pop
  Reach-Inv here bound = start-Inv k R made numbered
  Reach-Inv (next {m} r (begin_push i v at)) (a, b) =
      let inv = Reach-Inv r (omega (arith, a), b) in
      raise_head-Inv k R i (push_waits m.queue.head v) v inv (omega (arith, a))
        (omega (arith, inv.head_at), rw (eq→== m.queue.head m.pushes inv.head_at) refl)
        (ap some inv.head_at) refl
  Reach-Inv (next {m} r (begin_pop i at)) (a, b) =
      let inv = Reach-Inv r (a, omega (arith, b)) in
      raise_tail-Inv k R i (pop_waits m.queue.tail) inv (omega (arith, b))
        (omega (arith, inv.tail_at), inv.unused m.queue.tail (omega (arith, inv.tail_at)))
        (ap some inv.tail_at) refl
  Reach-Inv (next {m} r (begin_try_push i v at)) bound =
      stay-Inv k R (Reach-Inv r bound) i idle (try_push_loads v) at (λ c h. cc) (λ c h. cc) tt
  Reach-Inv (next {m} r (begin_try_pop i at)) bound =
      stay-Inv k R (Reach-Inv r bound) i idle try_pop_loads at (λ c h. cc) (λ c h. cc) tt
  Reach-Inv (next {m} r (goes i)) (a, b) =
      let (e, f) = go_counts k R i (m.threads i) m in
      let before : Bounded k m = (omega (arith, a, e), omega (arith, b, f)) in
      go-Inv k R law two i (Reach-Inv r before) before (m.threads i) refl
  Reach-Inv (next {m} r (fails i)) (a, b) =
      let (e, f) = fail_counts i (m.threads i) m in
      let before : Bounded k m = (omega (arith, a, e), omega (arith, b, f)) in
      fail-Inv k R law two i (Reach-Inv r before) before (m.threads i) refl

  pub delivers :
      {m : Machine A M}
      → Reach k R made m
      → Bounded k m
      → Delivered m.pushes m.issued m.got × Once m.got
  delivers r bound = let inv = Reach-Inv r bound in (inv.delivered, inv.once)

  pub no_race :
      {m : Machine A M} (i j : ℕ) {c d : ℕ} {v : A}
      → Reach k R made m
      → Bounded k m
      → m.threads i ≡ push_writes c v
      → m.threads j ≡ pop_reads d
      → d % 2 ^ k ≢ c % 2 ^ k
  no_race {m} i j {c} {d} r bound at at' e =
      let inv = Reach-Inv r bound in
      let (a, b, s) =
        subst (λ t. Own R m.queue.slots m.pushes m.pops m.issued m.got t) at (inv.own i) in
      apart_push k R law two m.queue.slots m.pushes m.pops m.issued m.got c (pop_reads d) s a
        (λ h. cc)
        (subst (λ t. Own R m.queue.slots m.pushes m.pops m.issued m.got t) at' (inv.own j)) d refl e

  pub size_lem :
      {m : Machine A M}
      → Reach k R made m
      → Bounded k m
      → (size m.queue ≡ m.pushes - m.pops) × (empty m.queue ≡ leb m.pushes m.pops)
  unfolding size empty
  size_lem {m} r bound =
      let inv = Reach-Inv r bound in
      (
        ground (arith, inv.head_at, inv.tail_at, bound),
        ground (arith, inv.head_at, inv.tail_at, bound),
      )
