-- ===== src/Mpmc/States/Turns.antt =====
-- include/mpmc_1.h: every step of a thread keeps the invariant.
use lock_free_stuffs.Prelude.{
  ℕ, ◌+◌, ◌%◌, ◌^◌, ◌<◌, ◌≡◌, ◌==◌, refl, sym, ◌∙◌, subst, some, if_split, ==→eq, eq→==, arith,
  word,
}
use lock_free_stuffs.Mpmc.Machine.{set_thread}
use lock_free_stuffs.Mpmc.Moves.{Distinct-set}
use mathlib.Core.Option.{some-injective}
use lock_free_stuffs.Mpmc.States.{is_vacant, is_stored, state_index, looks_full, looks_empty}
use lock_free_stuffs.Mpmc.States.Machine.{
  Thread, Machine, idle, push_claims, push_spins, push_writes, push_stores, pop_claims, pop_spins,
  pop_reads, pop_frees, try_push_loads, try_push_tests, try_push_raises, try_pop_loads,
  try_pop_tests, try_pop_raises, go,
}
use lock_free_stuffs.Mpmc.States.Inv.{push_of, push_ticket, claimed, Claim, Pending, Inv}
use lock_free_stuffs.Mpmc.States.Moves.{push_of-ticket}
use lock_free_stuffs.Mpmc.Tickets.{Delivered-take_push}
use lock_free_stuffs.Mpmc.States.Machine.{raise_head, raise_tail, fail}
use lock_free_stuffs.Mpmc.States.Steps.{
  Delivered-Unused, claims, stay-Inv, push_claims-Inv, push_writes-Inv,
}
use lock_free_stuffs.Mpmc.States.Stores.{push_stores-Inv, pop_claims-Inv, pop_frees-Inv}

module _ {ℓ} {A : Type ℓ} (k elem : ℕ) (i : ℕ) {m : Machine A} (inv : Inv k elem m) where
  -- `m'` is `m` with a thread at another place that no ticket and no claim depend on.
  pub raise_tail-Inv : (t : Thread A) (pos : ℕ) → m.threads i ≡ t → Inv k elem (raise_tail i pos m)
  raise_tail-Inv t pos at =
      let h = stay-Inv k elem i inv t (pop_claims pos) at (λ x h. cc) (λ p h. cc) tt in
      record {
        head_at = h.head_at;
        pending = λ j c v e.
            let was = h.pending j c v e in
            record { below = was.below; put = was.put; unused = was.unused; not_in = was.not_in };
        claim = h.claim;
        live = λ c e.
            let was = h.live c e in
            record { below = was.below; put = was.put; unused = was.unused; place = was.place };
        pushes_apart = h.pushes_apart;
        claims_apart = h.claims_apart;
        once = h.once;
        delivered = h.delivered;
        of_slot = h.of_slot;
      }

  -- The ticket is new.
  pub raise_head-Inv :
      (t : Thread A) (pos : ℕ) (v : A)
      → m.threads i ≡ t
      → m.queue.head ≡ pos
      → m.pushes + 1 < word
      → Inv k elem (raise_head i pos v m)
  raise_head-Inv t pos v at now bound = record {
    head_at = omega (arith, inv.head_at, bound);
    pending = λ j d w.
        if_split (λ x. push_of x ≡ some (d, w) → Pending k elem m' d w) (j == i)
          (λ e h.
            let same : (pos, v) ≡ (d, w) = some-injective (pos, v) (d, w) h in
            subst (λ (x : ℕ × A). Pending k elem m' x.0 x.1) same new)
          (λ e h. old d w (inv.pending j d w h));
    claim = λ j. if_split (λ x. Claim k elem m.queue x) (j == i) (λ e. tt) (λ e. inv.claim j);
    live = λ d h.
        let was = inv.live d h in
        record {
          below = omega (arith, was.below);
          put = issued_old (m.last (d % 2 ^ k)) was.below ∙ was.put;
          unused = was.unused;
          place = was.place;
        };
    pushes_apart =
        Distinct-set push_ticket i (push_claims pos v) m.threads inv.pushes_apart (λ j d ne h g.
          let (w, f) = push_of-ticket (m.threads j) d g in
          let was = inv.pending j d w f in
          omega (arith, was.below, some-injective pos d h, now, inv.head_at));
    claims_apart =
        Distinct-set (claimed k) i (push_claims pos v) m.threads inv.claims_apart (λ j p ne h. cc);
    once = inv.once;
    delivered = Delivered-take_push m.pushes m.issued m.got v inv.delivered;
    of_slot = inv.of_slot;
  }
    where
      m' : Machine A
      m' = raise_head i pos v m

      issued_old : (d : ℕ) → d < m.pushes → m'.issued d ≡ m.issued d
      issued_old d lt = ground (arith, lt)

      old : (d : ℕ) (w : A) → Pending k elem m d w → Pending k elem m' d w
      old d w was = record {
        below = omega (arith, was.below);
        put = issued_old d was.below ∙ was.put;
        unused = was.unused;
        not_in = was.not_in;
      }

      new : Pending k elem m' pos v
      new = record {
        below = omega (arith, now, inv.head_at);
        put = rw (eq→== pos m.pushes (sym now ∙ inv.head_at)) refl;
        unused =
            Delivered-Unused m.issued m.got pos (omega (arith, now, inv.head_at)) inv.delivered;
        not_in = λ h e. let was = inv.live pos h in omega (arith, was.below, e, now, inv.head_at);
      }

  pub go-Inv :
      (t : Thread A)
      → m.threads i ≡ t
      → (go k elem i t m).pushes < word
      → Inv k elem (go k elem i t m)
  unfolding go
  go-Inv idle at bound = inv
  go-Inv (push_claims pos v) at bound = push_claims-Inv k elem i inv pos v at
  go-Inv (push_spins pos v) at bound =
      if_split (λ t. Inv k elem (record m { threads = set_thread i t m.threads }))
        (is_vacant (m.queue.states (state_index k pos)))
        (λ e.
          stay-Inv k elem i inv (push_spins pos v) (push_claims pos v) at (λ x h. h) (λ p h. cc) tt)
        (λ e.
          stay-Inv k elem i inv (push_spins pos v) (push_spins pos v) at (λ x h. h) (λ p h. cc) tt)
  go-Inv (push_writes pos v) at bound = push_writes-Inv k elem i inv pos v at
  go-Inv (push_stores pos v) at bound = push_stores-Inv k elem i inv pos v at
  go-Inv (pop_claims pos) at bound = pop_claims-Inv k elem i inv pos at
  go-Inv (pop_spins pos) at bound =
      if_split (λ t. Inv k elem (record m { threads = set_thread i t m.threads }))
        (is_stored (m.queue.states (state_index k pos)))
        (λ e. stay-Inv k elem i inv (pop_spins pos) (pop_claims pos) at (λ x h. cc) (λ p h. cc) tt)
        (λ e. stay-Inv k elem i inv (pop_spins pos) (pop_spins pos) at (λ x h. cc) (λ p h. cc) tt)
  go-Inv (pop_reads pos) at bound =
      stay-Inv k elem i inv (pop_reads pos) (pop_frees pos _) at (λ x h. cc) (λ p h. h)
        ((claims k elem i inv at).0, refl)
  go-Inv (pop_frees pos v) at bound = pop_frees-Inv k elem i inv pos v at
  go-Inv (try_push_loads v) at bound =
      stay-Inv k elem i inv (try_push_loads v) (try_push_tests _ v) at (λ x h. cc) (λ p h. cc) tt
  go-Inv (try_push_tests pos v) at bound =
      if_split (λ t. Inv k elem (record m { threads = set_thread i t m.threads }))
        (looks_full k (record m.queue { head = pos }))
        (λ e. stay-Inv k elem i inv (try_push_tests pos v) idle at (λ x h. cc) (λ p h. cc) tt)
        (λ e.
          stay-Inv k elem i inv (try_push_tests pos v) (try_push_raises pos v) at (λ x h. cc)
            (λ p h. cc) tt)
  go-Inv (try_push_raises pos v) at bound =
      if_split (λ (m' : Machine A). m'.pushes < word → Inv k elem m') (m.queue.head == pos)
        (λ e bound.
          raise_head-Inv (try_push_raises pos v) pos v at (==→eq m.queue.head pos e) bound)
        (λ e bound.
          stay-Inv k elem i inv (try_push_raises pos v) (try_push_tests _ v) at (λ x h. cc)
            (λ p h. cc) tt)
        bound
  go-Inv try_pop_loads at bound =
      stay-Inv k elem i inv try_pop_loads (try_pop_tests _) at (λ x h. cc) (λ p h. cc) tt
  go-Inv (try_pop_tests pos) at bound =
      if_split (λ t. Inv k elem (record m { threads = set_thread i t m.threads }))
        (looks_empty (record m.queue { tail = pos }))
        (λ e. stay-Inv k elem i inv (try_pop_tests pos) idle at (λ x h. cc) (λ p h. cc) tt)
        (λ e.
          stay-Inv k elem i inv (try_pop_tests pos) (try_pop_raises pos) at (λ x h. cc) (λ p h. cc)
            tt)
  go-Inv (try_pop_raises pos) at bound =
      if_split (λ (m' : Machine A). Inv k elem m') (m.queue.tail == pos)
        (λ e. raise_tail-Inv (try_pop_raises pos) pos at)
        (λ e.
          stay-Inv k elem i inv (try_pop_raises pos) (try_pop_tests _) at (λ x h. cc) (λ p h. cc)
            tt)

  pub fail-Inv : (t : Thread A) → m.threads i ≡ t → Inv k elem (fail i t m)
  unfolding fail
  fail-Inv (push_claims pos v) at =
      stay-Inv k elem i inv (push_claims pos v) (push_spins pos v) at (λ x h. h) (λ p h. cc) tt
  fail-Inv (pop_claims pos) at =
      stay-Inv k elem i inv (pop_claims pos) (pop_spins pos) at (λ x h. cc) (λ p h. cc) tt
  fail-Inv (try_push_raises pos v) at =
      stay-Inv k elem i inv (try_push_raises pos v) (try_push_tests _ v) at (λ x h. cc) (λ p h. cc)
        tt
  fail-Inv (try_pop_raises pos) at =
      stay-Inv k elem i inv (try_pop_raises pos) (try_pop_tests _) at (λ x h. cc) (λ p h. cc) tt
  fail-Inv idle at = inv
  fail-Inv (push_spins pos v) at = inv
  fail-Inv (push_writes pos v) at = inv
  fail-Inv (push_stores pos v) at = inv
  fail-Inv (pop_spins pos) at = inv
  fail-Inv (pop_reads pos) at = inv
  fail-Inv (pop_frees pos v) at = inv
  fail-Inv (try_push_loads v) at = inv
  fail-Inv (try_push_tests pos v) at = inv
  fail-Inv try_pop_loads at = inv
  fail-Inv (try_pop_tests pos) at = inv
