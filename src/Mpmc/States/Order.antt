-- ===== src/Mpmc/States/Order.antt =====
-- include/mpmc_1.h: what holds in every state that the threads reach.
use lock_free_stuffs.Prelude.{
  ℕ, ◌<◌, ◌≤◌, ◌≡◌, ◌≢◌, ◌==◌, refl, ap, ◌∙◌, some, if_split, arith, word, ◌%◌, ◌^◌,
}
use lock_free_stuffs.Mpmc.Inv.{Once, Delivered}
use lock_free_stuffs.Mpmc.States.{is_vacant, is_stored, buffer_index, state_index}
use lock_free_stuffs.Mpmc.States.Rep.{buffer_apart}
use lock_free_stuffs.Mpmc.States.Machine.{
  Thread, Machine, idle, push_claims, push_spins, push_writes, push_stores, pop_claims, pop_spins,
  pop_reads, pop_frees, try_push_loads, try_push_tests, try_push_raises, try_pop_loads,
  try_pop_tests, try_pop_raises, go, fail, take_push, take_pop, Reach, here, next, begin_push,
  begin_pop, begin_try_push, begin_try_pop, goes, fails,
}
use lock_free_stuffs.Mpmc.States.Inv.{OfSlot, holds, claimed, Inv, start-Inv}
use lock_free_stuffs.Mpmc.States.Steps.{stay-Inv}
use lock_free_stuffs.Mpmc.States.Turns.{raise_head-Inv, raise_tail-Inv, go-Inv, fail-Inv}

module _ {ℓ} {A : Type ℓ} (k elem : ℕ) where
  -- The number of tickets only grows.
  go_counts : (i : ℕ) (t : Thread A) (m : Machine A) → m.pushes ≤ (go k elem i t m).pushes
  unfolding go
  go_counts i (push_claims pos v) m =
      if_split (λ (n : Machine A). m.pushes ≤ n.pushes)
        (is_vacant (m.queue.states (state_index k pos))) (λ e. omega arith) (λ e. omega arith)
  go_counts i (pop_claims pos) m =
      if_split (λ (n : Machine A). m.pushes ≤ n.pushes)
        (is_stored (m.queue.states (state_index k pos))) (λ e. omega arith) (λ e. omega arith)
  go_counts i (try_push_raises pos v) m =
      if_split (λ (n : Machine A). m.pushes ≤ n.pushes) (m.queue.head == pos) (λ e. omega arith)
        (λ e. omega arith)
  go_counts i (try_pop_raises pos) m =
      if_split (λ (n : Machine A). m.pushes ≤ n.pushes) (m.queue.tail == pos) (λ e. omega arith)
        (λ e. omega arith)
  go_counts i _ m = omega arith

  fail_counts : (i : ℕ) (t : Thread A) (m : Machine A) → (fail i t m).pushes ≡ m.pushes
  unfolding fail
  fail_counts i idle m = refl
  fail_counts i (push_claims pos v) m = refl
  fail_counts i (push_spins pos v) m = refl
  fail_counts i (push_writes pos v) m = refl
  fail_counts i (push_stores pos v) m = refl
  fail_counts i (pop_claims pos) m = refl
  fail_counts i (pop_spins pos) m = refl
  fail_counts i (pop_reads pos) m = refl
  fail_counts i (pop_frees pos v) m = refl
  fail_counts i (try_push_loads v) m = refl
  fail_counts i (try_push_tests pos v) m = refl
  fail_counts i (try_push_raises pos v) m = refl
  fail_counts i try_pop_loads m = refl
  fail_counts i (try_pop_tests pos) m = refl
  fail_counts i (try_pop_raises pos) m = refl

  pub Reach-Inv :
      (raw : ℕ → A) {m : Machine A} → Reach k elem raw m → m.pushes < word → Inv k elem m
  unfolding take_push take_pop
  Reach-Inv raw here bound = start-Inv k elem raw
  Reach-Inv raw (next {m} r (begin_push i v at)) bound =
      raise_head-Inv k elem i (Reach-Inv raw r (omega (arith, bound))) idle m.queue.head v at refl
        bound
  Reach-Inv raw (next {m} r (begin_pop i at)) bound =
      raise_tail-Inv k elem i (Reach-Inv raw r bound) idle m.queue.tail at
  Reach-Inv raw (next {m} r (begin_try_push i v at)) bound =
      stay-Inv k elem i (Reach-Inv raw r bound) idle (try_push_loads v) at (λ x h. cc) (λ p h. cc)
        tt
  Reach-Inv raw (next {m} r (begin_try_pop i at)) bound =
      stay-Inv k elem i (Reach-Inv raw r bound) idle try_pop_loads at (λ x h. cc) (λ p h. cc) tt
  Reach-Inv raw (next {m} r (goes i)) bound =
      go-Inv k elem i (Reach-Inv raw r (omega (arith, bound, go_counts i (m.threads i) m)))
        (m.threads i) refl bound
  Reach-Inv raw (next {m} r (fails i)) bound =
      fail-Inv k elem i (Reach-Inv raw r (omega (arith, bound, fail_counts i (m.threads i) m)))
        (m.threads i) refl

  holds-claimed : (t : Thread A) (c : ℕ) → holds t ≡ some c → claimed k t ≡ some (c % 2 ^ k)
  holds-claimed (push_writes d v) c e = cc
  holds-claimed (push_stores d v) c e = cc
  holds-claimed (pop_reads d) c e = cc
  holds-claimed (pop_frees d v) c e = cc
  holds-claimed _ c e = cc

  -- For SIZE = 2^k, in every state that any number of threads reach by interleaved steps of push, pop,
  -- try_emplace and try_pop from a new LockFreeQueueMpmc1, as long as fewer than 2^64 pushes have
  -- taken a ticket: every pop that has ended got the value of a push whose ticket has the slot of its
  -- own, and no two of them got that of one push.
  pub states_delivers :
      (raw : ℕ → A) {m : Machine A}
      → Reach k elem raw m
      → m.pushes < word
      → Delivered m.pushes m.issued m.got × Once m.got × OfSlot k m.served
  states_delivers raw r bound =
      let inv = Reach-Inv raw r bound in (inv.delivered, inv.once, inv.of_slot)

  -- For SIZE = 2^k, in every state that any number of threads reach by interleaved steps of push, pop,
  -- try_emplace and try_pop from a new LockFreeQueueMpmc1, as long as fewer than 2^64 pushes have
  -- taken a ticket: no two threads that have claimed a slot and not given it up have claimed the same.
  pub states_no_race :
      (raw : ℕ → A) {m : Machine A} (i j : ℕ) {c d : ℕ}
      → Reach k elem raw m
      → m.pushes < word
      → i ≢ j
      → holds (m.threads i) ≡ some c
      → holds (m.threads j) ≡ some d
      → buffer_index k elem d ≢ buffer_index k elem c
  states_no_race raw {m} i j {c} {d} r bound ne h g = buffer_apart k elem c d (λ e.
      (Reach-Inv raw r bound).claims_apart i j (c % 2 ^ k) ne (holds-claimed (m.threads i) c h)
        (holds-claimed (m.threads j) d g ∙ ap some e))
