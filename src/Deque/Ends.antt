-- ===== src/Deque/Ends.antt =====
-- include/work_steal_deque.h: a call of the owner ends, whatever the thieves do.
use lock_free_stuffs.Prelude.{
  ℕ, zero, suc, ◌+◌, ◌≤◌, ◌≡◌, refl, List, [], ◌∷◌, length, length-take, ltb, ◌==◌, if_split, arith,
}
use lock_free_stuffs.Deque.{has_space, has_item, room, cas_top}
use lock_free_stuffs.Deque.Machine.{
  Owner, Thief, Machine, resting, testing, storing, wanting, lowering, looking, contending,
  giving_back, lost, kept, away, loaded, allowed, holding, own_step, steal_step, Reach, next,
  owner_goes, thief_goes,
}

-- 0 in a schedule lets the owner go, and i + 1 lets thief i go.
abbrev pub turns : List ℕ → ℕ
turns [] = 0
turns (zero ∷ s) = suc (turns s)
turns (suc i ∷ s) = turns s

-- how many steps the owner's call may still take
abbrev pub left {ℓ} : {A : Type ℓ} → Owner A → ℕ
left resting = 0
left (testing vs) = length vs + 2
left (storing done todo) = length todo + 1
left wanting = 5
left lowering = 4
left looking = 3
left contending = 2
left (giving_back top) = 1
left (lost top) = 1
left kept = 1

module _ {ℓ} {A : Type ℓ} (k elem : ℕ) where
  abbrev pub play : List ℕ → Machine A → Machine A
  play [] m = m
  play (zero ∷ s) m = play s (own_step k elem m.owner m)
  play (suc i ∷ s) m = play s (steal_step k elem i (m.thieves i) m)

  own_left :
      (m : Machine A) (o : Owner A) (n : ℕ)
      → m.owner ≡ o
      → left o ≤ suc n
      → left (own_step k elem o m).owner ≤ n
  unfolding own_step
  own_left m resting n at h = rw at omega arith
  own_left m (testing vs) n at h =
      let r : ℕ = room k elem (length vs) (has_space k elem m.deque).1 in
      if_split (λ (x : Machine A). left x.owner ≤ n) (has_space k elem m.deque).0
        (λ e. omega (arith, h, length-take r vs (omega arith))) (λ e. omega arith)
  own_left m (storing done (v ∷ todo)) n at h = omega (arith, h)
  own_left m (storing done []) n at h = omega arith
  own_left m wanting n at h =
      if_split (λ (x : Machine A). left x.owner ≤ n) (has_item m.deque).0 (λ e. omega (arith, h))
        (λ e. omega arith)
  own_left m lowering n at h = omega (arith, h)
  own_left m looking n at h =
      if_split (λ (x : Machine A). left x.owner ≤ n) (ltb m.deque.bottom m.deque.top)
        (λ e. omega (arith, h))
        (λ e.
          if_split (λ (x : Machine A). left x.owner ≤ n) (m.deque.top == m.deque.bottom)
            (λ e. omega (arith, h)) (λ e. omega arith))
  own_left m contending n at h =
      if_split (λ (x : Machine A). left x.owner ≤ n) (cas_top m.deque.bottom m.deque).0
        (λ e. omega (arith, h)) (λ e. omega (arith, h))
  own_left m (giving_back top) n at h = omega arith
  own_left m (lost top) n at h = omega arith
  own_left m kept n at h = omega arith

  steal_owner : (i : ℕ) (t : Thief A) (m : Machine A) → (steal_step k elem i t m).owner ≡ m.owner
  unfolding steal_step
  steal_owner i away m = refl
  steal_owner i (loaded top) m = refl
  steal_owner i (allowed top) m = refl
  steal_owner i (holding top v) m =
      if_split (λ (n : Machine A). n.owner ≡ m.owner) (cas_top top m.deque).0 (λ e. refl)
        (λ e. refl)

  none_left : (o : Owner A) → left o ≤ 0 → o ≡ resting
  none_left resting h = refl
  none_left (testing vs) h = absurd (omega (arith, h))
  none_left (storing done todo) h = absurd (omega (arith, h))
  none_left wanting h = absurd (omega (arith, h))
  none_left lowering h = absurd (omega (arith, h))
  none_left looking h = absurd (omega (arith, h))
  none_left contending h = absurd (omega (arith, h))
  none_left (giving_back top) h = absurd (omega (arith, h))
  none_left (lost top) h = absurd (omega (arith, h))
  none_left kept h = absurd (omega (arith, h))

  -- From any state and under any schedule, the owner's call has ended once the owner has had as many
  -- turns as the call has steps left, whatever the thieves do in between: at most 5 for
  -- try_pop_bottom, and for try_push_bottom and try_bulk_push_bottom at most 2 more than there are
  -- values to push.
  pub deque_wait_free :
      (s : List ℕ) (m : Machine A) → left m.owner ≤ turns s → (play s m).owner ≡ resting
  deque_wait_free [] m h = none_left m.owner h
  deque_wait_free (zero ∷ s) m h =
      deque_wait_free s (own_step k elem m.owner m) (own_left m m.owner (turns s) refl h)
  deque_wait_free (suc i ∷ s) m h =
      deque_wait_free s (steal_step k elem i (m.thieves i) m) (rw (steal_owner i (m.thieves i) m) h)

  pub play-Reach :
      {raw : ℕ → A} (s : List ℕ) {m : Machine A} → Reach k elem raw m → Reach k elem raw (play s m)
  play-Reach [] r = r
  play-Reach (zero ∷ s) r = play-Reach s (next r owner_goes)
  play-Reach (suc i ∷ s) r = play-Reach s (next r (thief_goes i))
