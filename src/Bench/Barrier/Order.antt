-- ===== src/Bench/Barrier/Order.antt =====
-- bench/sync.h: nobody passes a barrier before all have come.
use lock_free_stuffs.Prelude.{
  ℕ, ◌^◌, ◌<◌, ◌≡◌, ◌≢◌, refl, sym, ap, ◌∙◌, subst, true, false, ◌==◌, ==→eq, eq→==, if_split,
  Bool-cases, inl, inr, arith,
}
use lock_free_stuffs.Mpmc.Machine.{set_thread}
use lock_free_stuffs.Bench.Barrier.{
  Waiter, arrives, waits, passed, Releaser, watches, stores, released, Barrier, wait, release,
  Reach, here, next, waiter, releases,
}
use lock_free_stuffs.Bench.Barrier.Count.{
  has_come, arrived, arrived_le, arrived_zero, arrived_same, arrived_more, all_come, arrived_pos,
  all_arrived,
}

-- What holds while the one that releases is at this place.
abbrev Phase : ℕ → Releaser → Barrier → Type 0
Phase n watches b = (b.counter ≡ arrived n b.waiters) × ((i : ℕ) → i < n → b.waiters i ≢ passed)
Phase n stores b =
    (b.counter ≡ n) × (arrived n b.waiters ≡ n) × ((i : ℕ) → i < n → b.waiters i ≢ passed)
Phase n released b = (b.counter ≡ 0) × (arrived n b.waiters ≡ n)

has_come-arrives : (t : Waiter) → has_come t ≡ true → t ≢ arrives
has_come-arrives arrives e = cc
has_come-arrives waits e = λ f. cc
has_come-arrives passed e = λ f. cc

not_arrives : (t : Waiter) → t ≢ arrives → has_come t ≡ true
not_arrives arrives ne = absurd (ne refl)
not_arrives waits ne = refl
not_arrives passed ne = refl

module _ (n : ℕ) (small : n < 2 ^ 32) (positive : 0 < n) where
  not_passed :
      (i : ℕ) (t : Waiter) (ts : ℕ → Waiter)
      → t ≢ passed
      → ((j : ℕ) → j < n → ts j ≢ passed)
      → (j : ℕ) → j < n
      → set_thread i t ts j ≢ passed
  not_passed i t ts ne before j lt =
      if_split (λ x. x ≢ passed) (j == i) (λ e. ne) (λ e. before j lt)

  wait-Phase :
      (i : ℕ) (t : Waiter) (r : Releaser) (b : Barrier)
      → i < n
      → b.waiters i ≡ t
      → Phase n r b
      → Phase n r (wait i t b)
  unfolding wait
  wait-Phase i arrives watches b lt at (c, p) =
      let more = arrived_more n i waits b.waiters lt (ap has_come at) refl in
      (
        omega (arith, more, c, small, arrived_le n (set_thread i waits b.waiters)),
        not_passed i waits b.waiters (λ f. cc) p,
      )
  wait-Phase i arrives stores b lt at (c, a, p) =
      absurd (has_come-arrives (b.waiters i) (all_come n b.waiters a i lt) at)
  wait-Phase i arrives released b lt at (c, a) =
      absurd (has_come-arrives (b.waiters i) (all_come n b.waiters a i lt) at)
  wait-Phase i waits watches b lt at (c, p) =
      let come : has_come (b.waiters i) ≡ true = ap has_come at in
      let busy : (b.counter == 0) ≡ false = ground (arith, c, arrived_pos n i b.waiters lt come) in
      rw (busy) (
        c ∙ sym (arrived_same n i waits b.waiters (sym come)),
        not_passed i waits b.waiters (λ f. cc) p,
      )
  wait-Phase i waits stores b lt at (c, a, p) =
      let come : has_come (b.waiters i) ≡ true = ap has_come at in
      let busy : (b.counter == 0) ≡ false = ground (arith, c, positive) in
      rw (busy) (
        c,
        arrived_same n i waits b.waiters (sym come) ∙ a,
        not_passed i waits b.waiters (λ f. cc) p,
      )
  wait-Phase i waits released b lt at (c, a) =
      let come : has_come (b.waiters i) ≡ true = ap has_come at in
      let free : (b.counter == 0) ≡ true = eq→== b.counter 0 c in
      rw (free) (c, arrived_same n i passed b.waiters (sym come) ∙ a)
  wait-Phase i passed r b lt at h = h

  release-Phase :
      (r : Releaser) (b : Barrier)
      → b.releaser ≡ r
      → Phase n r b
      → Phase n (release n r b).releaser (release n r b)
  unfolding release
  release-Phase watches b at (c, p) = elim (Bool-cases (b.counter == n)) [
    | inl all ↦ rw (all) (==→eq b.counter n all, sym c ∙ ==→eq b.counter n all, p)
    | inr few ↦ rw (few) (c, p)
  ]
  release-Phase stores b at (c, a, p) = (refl, a)
  release-Phase released b at h = subst (λ r. Phase n r b) (sym at) h

  releaser_kept : (i : ℕ) (t : Waiter) (b : Barrier) → (wait i t b).releaser ≡ b.releaser
  unfolding wait
  releaser_kept i arrives b = refl
  releaser_kept i waits b = refl
  releaser_kept i passed b = refl

  Reach-Phase : {b : Barrier} → Reach n b → Phase n b.releaser b
  Reach-Phase here = (sym (arrived_zero n), (λ i lt e. cc))
  Reach-Phase (next {b} r (waiter i lt)) =
      subst (λ x. Phase n x (wait i (b.waiters i) b)) (sym (releaser_kept i (b.waiters i) b))
        (wait-Phase i (b.waiters i) b.releaser b lt refl (Reach-Phase r))
  Reach-Phase (next {b} r releases) = release-Phase b.releaser b refl (Reach-Phase r)

  after_pass :
      (b : Barrier) (r : Releaser) (i : ℕ)
      → i < n
      → b.waiters i ≡ passed
      → Phase n r b
      → ((j : ℕ) → j < n → b.waiters j ≢ arrives) × (b.counter ≡ 0)
  after_pass b watches i lt at (c, p) = absurd (p i lt at)
  after_pass b stores i lt at (c, a, p) = absurd (p i lt at)
  after_pass b released i lt at (c, a) =
      ((λ j lt'. has_come-arrives (b.waiters j) (all_come n b.waiters a j lt')), c)

  -- For 0 < n < 2^32 threads that wait at a new Barrier and one that releases it with n, in every state
  -- that they reach by interleaved steps of this one use of the barrier: once one has passed, all n have
  -- come, and the counter is 0.
  pub barrier_waits :
      {b : Barrier} (i j : ℕ)
      → Reach n b
      → i < n
      → j < n
      → b.waiters i ≡ passed
      → (b.waiters j ≢ arrives) × (b.counter ≡ 0)
  barrier_waits {b} i j r lt lt' at =
      let (come, zero) = after_pass b b.releaser i lt at (Reach-Phase r) in (come j lt', zero)

  -- Where all have come, two steps of the one that releases store 0 and move nobody.
  two_steps :
      (b : Barrier) (r : Releaser)
      → b.releaser ≡ r
      → arrived n b.waiters ≡ n
      → Phase n r b
      → (let b' : Barrier = release n r b in
          ((release n b'.releaser b').counter ≡ 0)
          × ((release n b'.releaser b').waiters ≡ b.waiters))
  unfolding release
  two_steps b watches at all (c, p) = rw (eq→== b.counter n (c ∙ all)) (refl, refl)
  two_steps b stores at all h = (refl, refl)
  two_steps b released at all (c, a) = rw (at) (c, refl)

  come-passed :
      (i : ℕ) (t : Waiter) (b : Barrier)
      → b.counter ≡ 0
      → t ≢ arrives
      → b.waiters i ≡ t
      → (wait i t b).waiters i ≡ passed
  unfolding wait
  come-passed i arrives b c ne at = absurd (ne refl)
  come-passed i waits b c ne at = rw (eq→== i i refl, eq→== b.counter 0 c) refl
  come-passed i passed b c ne at = at

  -- For 0 < n < 2^32 threads that wait at a new Barrier and one that releases it with n, in every state
  -- that they reach by interleaved steps in which all n have come: after two steps of the one that
  -- releases, one step of any of the n threads takes it past the barrier, if it is not there yet.
  pub barrier_passes :
      {b : Barrier} (i : ℕ)
      → Reach n b
      → ((j : ℕ) → j < n → b.waiters j ≢ arrives)
      → i < n
      → (let b' : Barrier = release n b.releaser b in
          let b'' : Barrier = release n b'.releaser b' in
          (wait i (b''.waiters i) b'').waiters i ≡ passed)
  barrier_passes {b} i r all lt =
      let come = all_arrived n b.waiters (λ j lt'. not_arrives (b.waiters j) (all j lt')) in
      let (c, same) = two_steps b b.releaser refl come (Reach-Phase r) in
      come-passed i _ _ c (λ e. all i lt (ap (λ ts. ts i) (sym same) ∙ e)) refl
