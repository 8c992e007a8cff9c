-- ===== src/Mpmc/Apart.antt =====
-- include/mpmc_seq.h and include/mpmc_seq_split.h: no two threads are past the test of one slot.
use lock_free_stuffs.Prelude.{
  ℕ, ◌+◌, ◌%◌, ◌^◌, ◌<◌, ◌≤◌, ◌≡◌, ◌≢◌, ◌⊎◌, refl, sym, ap, ◌∙◌, subst, Option, some, List, ◌==◌,
  eq→==, ==→eq, Bool-cases, inl, inr, arith, mod_apart,
}
use mathlib.Core.Option.{some-injective}
use lock_free_stuffs.Mpmc.Ring.{Ring, Lawful}
use lock_free_stuffs.Mpmc.Machine.{
  Thread, idle, push_waits, push_writes, push_publishes, pop_waits, pop_reads, pop_frees,
  try_push_loads, try_push_tests, try_push_claims, try_pop_loads, try_pop_tests, try_pop_claims,
}
use lock_free_stuffs.Mpmc.Inv.{push_ticket, pop_ticket, Own, Ready}
use lock_free_stuffs.Mpmc.Frames.{past, claim, neighbours}

module _ {ℓ} {A M : Type ℓ} (k : ℕ) (R : Ring A M) (law : Lawful k R) (two : 2 ≤ 2 ^ k) (mem : M)
    (pushes pops : ℕ) (issued : ℕ → Option A) (got : List (ℕ × A)) where
  -- The number that a thread relies on is that of a push's turn or that of a pop's.
  Turn : Thread A → ℕ → Type 0
  Turn t d =
      ((R.number d mem ≡ d) × ((push_ticket t ≡ some d) ⊎ (d ≡ pushes)))
      ⊎ ((R.number d mem ≡ d + 1) × ((pop_ticket t ≡ some d) ⊎ (d ≡ pops)))

  at_ticket : (P : ℕ → Type 0) (c d : ℕ) → Path (Option ℕ) (some c) (some d) → P c → P d
  at_ticket P c d e h = subst P (some-injective c d e) h

  past-Turn :
      (t : Thread A) (d : ℕ)
      → Own R mem pushes pops issued got t
      → past pushes pops t ≡ some d
      → Turn t d
  unfolding Turn
  past-Turn idle d o h = cc
  past-Turn (push_waits c v) d o h = cc
  past-Turn (push_writes c v) d (a, b, e) h =
      at_ticket (Turn (push_writes c v)) c d h (inl (e, inl refl))
  past-Turn (push_publishes c v) d (a, b, e, f) h =
      at_ticket (Turn (push_publishes c v)) c d h (inl (e, inl refl))
  past-Turn (pop_waits c) d o h = cc
  past-Turn (pop_reads c) d (a, b, e) h = at_ticket (Turn (pop_reads c)) c d h (inr (e, inl refl))
  past-Turn (pop_frees c v) d (a, b, e, f, g) h =
      at_ticket (Turn (pop_frees c v)) c d h (inr (e, inl refl))
  past-Turn (try_push_loads v) d o h = cc
  past-Turn (try_push_tests c v) d o h = cc
  past-Turn (try_push_claims c v) d (a, good, _) h =
      let (at, same) = claim c pushes d h in
      subst (Turn (try_push_claims c v)) same (inl (good at, inr at))
  past-Turn try_pop_loads d o h = cc
  past-Turn (try_pop_tests c) d o h = cc
  past-Turn (try_pop_claims c) d (a, good, _) h =
      let (at, same) = claim c pops d h in
      subst (Turn (try_pop_claims c)) same (inr (good at, inr at))

  -- Nobody else is past the test of the slot of a push that is past it.
  pub apart_push :
      (c : ℕ) (t : Thread A)
      → R.number c mem ≡ c
      → c < pushes
      → push_ticket t ≢ some c
      → Own R mem pushes pops issued got t
      → (d : ℕ) → past pushes pops t ≡ some d
      → d % 2 ^ k ≢ c % 2 ^ k
  unfolding Turn
  apart_push c t e lt other o d h at =
      let same : R.number d mem ≡ c = law.number_at d c mem at ∙ e in
      elim (past-Turn t d o h) [
        | inl (n, inl mine) ↦ other (mine ∙ ap some (sym n ∙ same))
        | inl (n, inr last) ↦ absurd (omega arith)
        | inr (n, _) ↦ neighbours k d two (at ∙ ap (λ x. x % 2 ^ k) (sym same ∙ n))
      ]

  -- Nor of the slot of a pop.
  pub apart_pop :
      (c : ℕ) (t : Thread A)
      → R.number c mem ≡ c + 1
      → c < pops
      → pop_ticket t ≢ some c
      → Own R mem pushes pops issued got t
      → (d : ℕ) → past pushes pops t ≡ some d
      → d % 2 ^ k ≢ c % 2 ^ k
  unfolding Turn
  apart_pop c t e lt other o d h at =
      let same : R.number d mem ≡ c + 1 = law.number_at d c mem at ∙ e in
      elim (past-Turn t d o h) [
        | inl (n, _) ↦ neighbours k c two (sym at ∙ ap (λ x. x % 2 ^ k) (sym n ∙ same))
        | inr (n, inl mine) ↦ other (mine ∙ ap some (omega arith))
        | inr (n, inr last) ↦ absurd (omega arith)
      ]

  -- A store of a value where a push is under way makes no slot ready.
  pub Ready-store_value :
      (c : ℕ) (v : A)
      → R.number c mem ≡ c
      → Ready R mem pushes issued
      → Ready R (R.store_value c v mem) pushes issued
  Ready-store_value c v e ready d s =
      let now : R.number d mem ≡ d + 1 = sym (law.number_value c d v mem) ∙ s in
      let other : d % 2 ^ k ≢ c % 2 ^ k = λ at.
        neighbours k d two (at ∙ ap (λ x. x % 2 ^ k) (sym (law.number_at d c mem at ∙ e) ∙ now)) in
      let (lt, is) = ready d now in (lt, is ∙ ap some (sym (law.value_other c d v mem other)))

  pub Ready-publish :
      (c : ℕ) (v : A)
      → c < pushes
      → issued c ≡ some v
      → R.value c mem ≡ v
      → Ready R mem pushes issued
      → Ready R (R.store_number c (c + 1) mem) pushes issued
  Ready-publish c v lt is val ready d s = elim (Bool-cases (d % 2 ^ k == c % 2 ^ k)) [
    | inl same ↦
        let at : d % 2 ^ k ≡ c % 2 ^ k = ==→eq (d % 2 ^ k) (c % 2 ^ k) same in
        let new : R.number d (R.store_number c (c + 1) mem) ≡ c + 1 =
          law.number_at d c (R.store_number c (c + 1) mem) at ∙ law.number_stored c (c + 1) mem in
        let e : d ≡ c = omega (arith, new, s) in
        (
          omega arith,
          ap issued e
              ∙ is
              ∙ ap some (sym (law.value_number c d (c + 1) mem ∙ law.value_at d c mem at ∙ val)),
        )
    | inr diff ↦
        let other : d % 2 ^ k ≢ c % 2 ^ k = λ at. cc (eq→== (d % 2 ^ k) (c % 2 ^ k) at) in
        let (lt', is') = ready d (sym (law.number_other c d (c + 1) mem other) ∙ s) in
        (lt', is' ∙ ap some (sym (law.value_number c d (c + 1) mem)))
  ]

  pub Ready-free :
      (c : ℕ) → Ready R mem pushes issued → Ready R (R.store_number c (c + 2 ^ k) mem) pushes issued
  Ready-free c ready d s = elim (Bool-cases (d % 2 ^ k == c % 2 ^ k)) [
    | inl same ↦ absurd (freed (==→eq (d % 2 ^ k) (c % 2 ^ k) same))
    | inr diff ↦
        let other : d % 2 ^ k ≢ c % 2 ^ k = λ at. cc (eq→== (d % 2 ^ k) (c % 2 ^ k) at) in
        let (lt', is') = ready d (sym (law.number_other c d (c + 2 ^ k) mem other) ∙ s) in
        (lt', is' ∙ ap some (sym (law.value_number c d (c + 2 ^ k) mem)))
  ]
    where
      freed : d % 2 ^ k ≢ c % 2 ^ k
      freed at =
          let new : R.number d (R.store_number c (c + 2 ^ k) mem) ≡ c + 2 ^ k =
            law.number_at d c (R.store_number c (c + 2 ^ k) mem) at
            ∙ law.number_stored c (c + 2 ^ k) mem in
          mod_apart (2 ^ k) c d (omega (arith, new, s)) (omega (arith, new, s)) (sym at)
