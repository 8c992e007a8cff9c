-- ===== src/Mpmc/Turns.antt =====
-- include/mpmc_seq.h and include/mpmc_seq_split.h: a step that tests or takes a ticket keeps the
-- invariant, and so does every step.
use lock_free_stuffs.Prelude.{
  ℕ, ◌^◌, ◌≤◌, ◌≡◌, refl, sym, ap, ◌∙◌, some, ◌==◌, ==→eq, eq→==, if_split, arith, add_size,
}
use lock_free_stuffs.Mpmc.Ring.{Ring, Lawful}
use lock_free_stuffs.Mpmc.Machine.{
  Thread, Machine, idle, push_waits, push_writes, push_publishes, pop_waits, pop_reads, pop_frees,
  try_push_loads, try_push_tests, try_push_claims, try_pop_loads, try_pop_tests, try_pop_claims,
  set_thread, has_turn, behind, go, fail,
}
use lock_free_stuffs.Mpmc.Inv.{Own, Inv}
use lock_free_stuffs.Mpmc.Moves.{Bounded, stay-Inv}
use lock_free_stuffs.Mpmc.Steps.{owns, push_writes-Inv, push_publishes-Inv, pop_frees-Inv}
use lock_free_stuffs.Mpmc.Tickets.{raise_head-Inv, raise_tail-Inv}

module _ {ℓ} {A M : Type ℓ} (k : ℕ) (R : Ring A M) (law : Lawful k R) (two : 2 ≤ 2 ^ k) (i : ℕ)
    {m : Machine A M} (inv : Inv R k m) (bound : Bounded k m) where
  mine : {t : Thread A} → m.threads i ≡ t → Own R m.queue.slots m.pushes m.pops m.issued m.got t
  mine at = owns k R law two i inv bound at

  push_waits-Inv :
      (pos : ℕ) (v : A) → m.threads i ≡ push_waits pos v → Inv R k (go k R i (push_waits pos v) m)
  unfolding go has_turn
  push_waits-Inv pos v at =
      if_split (λ t. Inv R k (record m { threads = set_thread i t m.threads }))
        (has_turn k R pos pos m.queue)
        (λ turn.
          let (a, b) = mine at in
          stay-Inv k R inv i (push_waits pos v) (push_writes pos v) at (λ c h. h) (λ c h. cc)
            (a, b, ==→eq (R.number pos m.queue.slots) pos turn))
        (λ no.
          stay-Inv k R inv i (push_waits pos v) (push_waits pos v) at (λ c h. h) (λ c h. cc)
            (mine at))

  pop_waits-Inv : (pos : ℕ) → m.threads i ≡ pop_waits pos → Inv R k (go k R i (pop_waits pos) m)
  unfolding go has_turn
  pop_waits-Inv pos at =
      if_split (λ t. Inv R k (record m { threads = set_thread i t m.threads }))
        (has_turn k R pos (add_size pos 1) m.queue)
        (λ turn.
          let (a, b) = mine at in
          stay-Inv k R inv i (pop_waits pos) (pop_reads pos) at (λ c h. cc) (λ c h. h)
            (a, b, ground (arith, turn, a, bound)))
        (λ no.
          stay-Inv k R inv i (pop_waits pos) (pop_waits pos) at (λ c h. cc) (λ c h. h) (mine at))

  pop_reads-Inv : (pos : ℕ) → m.threads i ≡ pop_reads pos → Inv R k (go k R i (pop_reads pos) m)
  unfolding go
  pop_reads-Inv pos at =
      let (a, b, s) = mine at in
      let (lt, is) = inv.ready pos s in
      stay-Inv k R inv i (pop_reads pos) (pop_frees pos _) at (λ c h. cc) (λ c h. h)
        (a, b, s, lt, is)

  try_push_tests-Inv :
      (pos : ℕ) (v : A)
      → m.threads i ≡ try_push_tests pos v
      → Inv R k (go k R i (try_push_tests pos v) m)
  unfolding go has_turn
  try_push_tests-Inv pos v at =
      let (le, _) = mine at in
      if_split (λ t. Inv R k (record m { threads = set_thread i t m.threads }))
        (has_turn k R pos pos m.queue)
        (λ turn.
          stay-Inv k R inv i (try_push_tests pos v) (try_push_claims pos v) at (λ c h. cc)
            (λ c h. cc) (le, (λ e. ==→eq (R.number pos m.queue.slots) pos turn), tt))
        (λ no.
          if_split (λ t. Inv R k (record m { threads = set_thread i t m.threads }))
            (behind (R.number pos m.queue.slots) pos)
            (λ full. stay-Inv k R inv i (try_push_tests pos v) idle at (λ c h. cc) (λ c h. cc) tt)
            (λ late.
              stay-Inv k R inv i (try_push_tests pos v) (try_push_loads v) at (λ c h. cc)
                (λ c h. cc) tt))

  try_pop_tests-Inv :
      (pos : ℕ) → m.threads i ≡ try_pop_tests pos → Inv R k (go k R i (try_pop_tests pos) m)
  unfolding go has_turn
  try_pop_tests-Inv pos at =
      let (le, _) = mine at in
      if_split (λ t. Inv R k (record m { threads = set_thread i t m.threads }))
        (has_turn k R pos (add_size pos 1) m.queue)
        (λ turn.
          stay-Inv k R inv i (try_pop_tests pos) (try_pop_claims pos) at (λ c h. cc) (λ c h. cc)
            (le, (λ e. ground (arith, turn, le, bound)), tt))
        (λ no.
          if_split (λ t. Inv R k (record m { threads = set_thread i t m.threads }))
            (behind (R.number pos m.queue.slots) (add_size pos 1))
            (λ none_yet. stay-Inv k R inv i (try_pop_tests pos) idle at (λ c h. cc) (λ c h. cc) tt)
            (λ late.
              stay-Inv k R inv i (try_pop_tests pos) try_pop_loads at (λ c h. cc) (λ c h. cc) tt))

  -- The compare and swap takes the ticket that the thread has tested.
  try_push_claims-Inv :
      (pos : ℕ) (v : A)
      → m.threads i ≡ try_push_claims pos v
      → Inv R k (go k R i (try_push_claims pos v) m)
  unfolding go
  try_push_claims-Inv pos v at =
      let (le, good, _) = mine at in
      if_split (λ n. Inv R k n) (m.queue.head == pos)
        (λ same.
          let e : pos ≡ m.pushes = sym (==→eq m.queue.head pos same) ∙ inv.head_at in
          raise_head-Inv k R i (push_writes pos v) v inv (omega (arith, bound))
            (omega (arith, e), rw (eq→== pos m.pushes e) refl, good e) (ap some e) refl)
        (λ no.
          stay-Inv k R inv i (try_push_claims pos v) (try_push_loads v) at (λ c h. cc) (λ c h. cc)
            tt)

  try_pop_claims-Inv :
      (pos : ℕ) → m.threads i ≡ try_pop_claims pos → Inv R k (go k R i (try_pop_claims pos) m)
  unfolding go
  try_pop_claims-Inv pos at =
      let (le, good, _) = mine at in
      if_split (λ n. Inv R k n) (m.queue.tail == pos)
        (λ same.
          let e : pos ≡ m.pops = sym (==→eq m.queue.tail pos same) ∙ inv.tail_at in
          raise_tail-Inv k R i (pop_reads pos) inv (omega (arith, bound))
            (omega (arith, e), inv.unused pos (omega (arith, e)), good e) (ap some e) refl)
        (λ no. stay-Inv k R inv i (try_pop_claims pos) try_pop_loads at (λ c h. cc) (λ c h. cc) tt)

  pub go-Inv : (t : Thread A) → m.threads i ≡ t → Inv R k (go k R i t m)
  unfolding go
  go-Inv idle at = inv
  go-Inv (push_waits pos v) at = push_waits-Inv pos v at
  go-Inv (push_writes pos v) at = push_writes-Inv k R law two i inv bound pos v at
  go-Inv (push_publishes pos v) at = push_publishes-Inv k R law two i inv bound pos v at
  go-Inv (pop_waits pos) at = pop_waits-Inv pos at
  go-Inv (pop_reads pos) at = pop_reads-Inv pos at
  go-Inv (pop_frees pos v) at = pop_frees-Inv k R law two i inv bound pos v at
  go-Inv (try_push_loads v) at =
      stay-Inv k R inv i (try_push_loads v) (try_push_tests m.queue.head v) at (λ c h. cc)
        (λ c h. cc) (omega (arith, inv.head_at), tt)
  go-Inv (try_push_tests pos v) at = try_push_tests-Inv pos v at
  go-Inv (try_push_claims pos v) at = try_push_claims-Inv pos v at
  go-Inv try_pop_loads at =
      stay-Inv k R inv i try_pop_loads (try_pop_tests m.queue.tail) at (λ c h. cc) (λ c h. cc)
        (omega (arith, inv.tail_at), tt)
  go-Inv (try_pop_tests pos) at = try_pop_tests-Inv pos at
  go-Inv (try_pop_claims pos) at = try_pop_claims-Inv pos at

  pub fail-Inv : (t : Thread A) → m.threads i ≡ t → Inv R k (fail i t m)
  unfolding fail
  fail-Inv (try_push_claims pos v) at =
      stay-Inv k R inv i (try_push_claims pos v) (try_push_loads v) at (λ c h. cc) (λ c h. cc) tt
  fail-Inv (try_pop_claims pos) at =
      stay-Inv k R inv i (try_pop_claims pos) try_pop_loads at (λ c h. cc) (λ c h. cc) tt
  fail-Inv idle at = inv
  fail-Inv (push_waits pos v) at = inv
  fail-Inv (push_writes pos v) at = inv
  fail-Inv (push_publishes pos v) at = inv
  fail-Inv (pop_waits pos) at = inv
  fail-Inv (pop_reads pos) at = inv
  fail-Inv (pop_frees pos v) at = inv
  fail-Inv (try_push_loads v) at = inv
  fail-Inv (try_push_tests pos v) at = inv
  fail-Inv try_pop_loads at = inv
  fail-Inv (try_pop_tests pos) at = inv
