-- ===== src/Mpmc/Steps.antt =====
-- include/mpmc_seq.h and include/mpmc_seq_split.h: a step that stores keeps the invariant.
use lock_free_stuffs.Prelude.{
  ℕ, ◌+◌, ◌%◌, ◌^◌, ◌≤◌, ◌≡◌, ◌≢◌, ◌⊎◌, inl, inr, sym, ap, ◌∙◌, subst, Option, some, List, ◌∷◌,
  arith, add_size, refl, ◌<◌, Bool-cases, ◌==◌, eq→==, ==→eq,
}
use lock_free_stuffs.Mpmc.Ring.{Ring, Lawful}
use lock_free_stuffs.Mpmc.Machine.{
  Thread, Machine, idle, push_waits, push_writes, push_publishes, pop_waits, pop_reads, pop_frees,
  try_push_loads, try_push_tests, try_push_claims, try_pop_loads, try_pop_tests, try_pop_claims,
  set_thread, go,
}
use lock_free_stuffs.Mpmc.Inv.{Unused, push_ticket, pop_ticket, Own, Inv}
use lock_free_stuffs.Mpmc.Frames.{Own-elsewhere}
use lock_free_stuffs.Mpmc.Apart.{
  apart_push, apart_pop, Ready-store_value, Ready-publish, Ready-free,
}
use lock_free_stuffs.Mpmc.Moves.{Bounded, after_store, move-Inv}

module _ {ℓ} {A M : Type ℓ} (R : Ring A M) where
  -- A list of what was got that no pop of this thread's ticket joins.
  Own-got :
      (mem : M) (pushes pops : ℕ) (issued : ℕ → Option A) (got : List (ℕ × A)) (c : ℕ) (w : A)
      (t : Thread A)
      → pop_ticket t ≢ some c
      → Own R mem pushes pops issued got t
      → Own R mem pushes pops issued ((c, w) ∷ got) t
  Own-got mem pushes pops issued got c w idle ne o = tt
  Own-got mem pushes pops issued got c w (push_waits d v) ne o = o
  Own-got mem pushes pops issued got c w (push_writes d v) ne o = o
  Own-got mem pushes pops issued got c w (push_publishes d v) ne o = o
  Own-got mem pushes pops issued got c w (pop_waits d) ne (a, u) = (a, ((λ e. ne (ap some e)), u))
  Own-got mem pushes pops issued got c w (pop_reads d) ne (a, u, s) =
      (a, ((λ e. ne (ap some e)), u), s)
  Own-got mem pushes pops issued got c w (pop_frees d v) ne (a, u, s, f, g) =
      (a, ((λ e. ne (ap some e)), u), s, f, g)
  Own-got mem pushes pops issued got c w (try_push_loads v) ne o = tt
  Own-got mem pushes pops issued got c w (try_push_tests d v) ne o = o
  Own-got mem pushes pops issued got c w (try_push_claims d v) ne o = o
  Own-got mem pushes pops issued got c w try_pop_loads ne o = tt
  Own-got mem pushes pops issued got c w (try_pop_tests d) ne o = o
  Own-got mem pushes pops issued got c w (try_pop_claims d) ne o = o

module _ {ℓ} {A M : Type ℓ} (k : ℕ) (R : Ring A M) (law : Lawful k R) (two : 2 ≤ 2 ^ k) (i : ℕ)
    {m : Machine A M} (inv : Inv R k m) (bound : Bounded k m) where
  pub owns : {t : Thread A} → m.threads i ≡ t → Own R m.queue.slots m.pushes m.pops m.issued m.got t
  owns at = subst (λ t. Own R m.queue.slots m.pushes m.pops m.issued m.got t) at (inv.own i)

  -- What the other threads rely on, where the slot of a push that is past its test is stored to.
  others_push :
      (c : ℕ) (t : Thread A) (mem : M)
      → m.threads i ≡ t
      → push_ticket t ≡ some c
      → R.number c m.queue.slots ≡ c
      → c < m.pushes
      → ((d : ℕ)
          → d % 2 ^ k ≢ c % 2 ^ k
          → (R.number d mem ≡ R.number d m.queue.slots) × (R.value d mem ≡ R.value d m.queue.slots))
      → (j : ℕ) → j ≢ i
      → Own R mem m.pushes m.pops m.issued m.got (m.threads j)
  others_push c t mem at mine s lt same j ne =
      Own-elsewhere k R m.queue.slots mem (c % 2 ^ k) m.pushes m.pops m.issued m.got (m.threads j)
        same
        (apart_push k R law two m.queue.slots m.pushes m.pops m.issued m.got c (m.threads j) s lt
          (inv.pushes_apart i j c (λ e. ne (sym e)) (ap push_ticket at ∙ mine)) (inv.own j))
        (inv.own j)

  pub push_writes-Inv :
      (pos : ℕ) (v : A) → m.threads i ≡ push_writes pos v → Inv R k (go k R i (push_writes pos v) m)
  unfolding go
  push_writes-Inv pos v at =
      let (a, b, s) = owns at in
      let mem : M = R.store_value pos v m.queue.slots in
      let keeps : (d : ℕ) → R.number d mem ≡ R.number d m.queue.slots =
        λ d. law.number_value pos d v m.queue.slots in
      move-Inv k R inv i (push_writes pos v) (push_publishes pos v) mem m.got at (λ c h. h)
        (λ c h. cc) (a, b, keeps pos ∙ s, law.value_stored pos v m.queue.slots)
        (others_push pos (push_writes pos v) mem at refl s a
          (λ d ne. (keeps d, law.value_other pos d v m.queue.slots ne)))
        (Ready-store_value k R law two m.queue.slots m.pushes m.pops m.issued m.got pos v s
          inv.ready)
        inv.unused inv.once inv.delivered (λ c. omega (arith, keeps c))
        (λ c. omega (arith, keeps c, inv.at_most c))
        (λ c. subst (λ n. Unused c m.got ⊎ (c + 2 ^ k ≤ n)) (sym (keeps c)) (inv.freed c))

  -- The number of a slot grows.
  grows :
      (c n : ℕ)
      → R.number c m.queue.slots ≤ n
      → (d : ℕ) → R.number d m.queue.slots ≤ R.number d (R.store_number c n m.queue.slots)
  grows c n le d = elim (after_store k R law c d n m.queue.slots) [
    | inl (at, new, was) ↦ omega (arith, new, was)
    | inr (ne, kept) ↦ omega (arith, kept)
  ]

  below :
      (c n : ℕ)
      → n ≤ m.pushes + m.pops + 2 ^ k
      → (d : ℕ) → R.number d (R.store_number c n m.queue.slots) ≤ m.pushes + m.pops + 2 ^ k
  below c n le d = elim (after_store k R law c d n m.queue.slots) [
    | inl (at, new, was) ↦ omega (arith, new)
    | inr (ne, kept) ↦ omega (arith, kept, inv.at_most d)
  ]

  -- The number that push_publishes stores has not wrapped.
  pub push_publishes-Inv :
      (pos : ℕ) (v : A)
      → m.threads i ≡ push_publishes pos v
      → Inv R k (go k R i (push_publishes pos v) m)
  unfolding go
  push_publishes-Inv pos v at =
      let (a, b, s, w) = owns at in
      let next : pos + 1 ≡ add_size pos 1 = omega (arith, a, bound) in
      let mem : M = R.store_number pos (pos + 1) m.queue.slots in
      let up : (c : ℕ) → R.number c m.queue.slots ≤ R.number c mem =
        grows pos (pos + 1) (omega arith) in
      subst
        (λ n. Inv R k (record m {
          queue = record m.queue { slots = R.store_number pos n m.queue.slots };
          threads = set_thread i idle m.threads;
        }))
        next
        (move-Inv k R inv i (push_publishes pos v) idle mem m.got at (λ c h. cc) (λ c h. cc) tt
          (others_push pos (push_publishes pos v) mem at refl s a (λ d ne. (
            law.number_other pos d (pos + 1) m.queue.slots ne,
            law.value_number pos d (pos + 1) m.queue.slots,
          )))
          (Ready-publish k R law two m.queue.slots m.pushes m.pops m.issued m.got pos v a b w
            inv.ready)
          inv.unused inv.once inv.delivered up (below pos (pos + 1) (omega arith))
          (λ c. elim (inv.freed c) [ inl free ↦ inl free | inr large ↦ inr (omega (arith, up c)) ]))

  pub pop_frees-Inv :
      (pos : ℕ) (v : A) → m.threads i ≡ pop_frees pos v → Inv R k (go k R i (pop_frees pos v) m)
  unfolding go
  pop_frees-Inv pos v at =
      let (a, u, s, b, w) = owns at in
      let next : pos + 2 ^ k ≡ add_size pos (2 ^ k) = omega (arith, a, bound) in
      let n : ℕ = pos + 2 ^ k in
      let mem : M = R.store_number pos n m.queue.slots in
      let up : (c : ℕ) → R.number c m.queue.slots ≤ R.number c mem = grows pos n (omega arith) in
      subst
        (λ n'. Inv R k (record m {
          queue = record m.queue { slots = R.store_number pos n' m.queue.slots };
          threads = set_thread i idle m.threads;
          got = (pos, v) ∷ m.got;
        }))
        next
        (move-Inv k R inv i (pop_frees pos v) idle mem ((pos, v) ∷ m.got) at (λ c h. cc) (λ c h. cc)
          tt
          (λ j ne.
            let mine = inv.pops_apart i j pos (λ e. ne (sym e)) (ap pop_ticket at) in
            Own-elsewhere k R m.queue.slots mem (pos % 2 ^ k) m.pushes m.pops m.issued
              ((pos, v) ∷ m.got) (m.threads j)
              (λ d other. (
                law.number_other pos d n m.queue.slots other,
                law.value_number pos d n m.queue.slots,
              ))
              (apart_pop k R law two m.queue.slots m.pushes m.pops m.issued m.got pos (m.threads j)
                s a mine (inv.own j))
              (Own-got R m.queue.slots m.pushes m.pops m.issued m.got pos v (m.threads j) mine
                (inv.own j)))
          (Ready-free k R law two m.queue.slots m.pushes m.pops m.issued m.got pos inv.ready)
          (λ c le. (omega arith, inv.unused c le)) (u, inv.once) (b, w, inv.delivered) up
          (below pos n (omega arith))
          (λ c. elim (Bool-cases (c == pos)) [
            | inl same ↦
                let e : c ≡ pos = ==→eq c pos same in
                inr
                  (omega (arith, ap (λ x. R.number x mem) e, law.number_stored pos n m.queue.slots))
            | inr diff ↦ elim (inv.freed c) [
              | inl free ↦ inl ((λ e. cc (eq→== c pos e)), free)
              | inr large ↦ inr (omega (arith, up c))
            ]
          ]))
