-- ===== src/Mpmc/States/Steps.antt =====
-- include/mpmc_1.h: every step of a thread keeps the invariant.
use lock_free_stuffs.Prelude.{
  ℕ, ◌+◌, ◌%◌, ◌^◌, ◌<◌, ◌≡◌, ◌≢◌, ◌==◌, refl, sym, ap, ◌∙◌, subst, true, Option, some, List, [],
  ◌∷◌, if_split, arith,
}
use lock_free_stuffs.Mpmc.Machine.{set_thread}
use lock_free_stuffs.Mpmc.Inv.{Unused, Delivered}
use lock_free_stuffs.Mpmc.Moves.{Distinct-set}
use lock_free_stuffs.Mpmc.Seq.Laws.{written, elsewhere}
use mathlib.Core.Option.{some-injective}
use lock_free_stuffs.Mpmc.States.{
  SlotState, vacant, storing, stored, loading, is_vacant, is_stored, buffer_index, state_index,
  set_state, store_value,
}
use lock_free_stuffs.Mpmc.States.Rep.{state_at, state_apart, buffer_apart}
use lock_free_stuffs.Mpmc.States.Machine.{
  Thread, Machine, push_claims, push_spins, push_writes, push_stores, pop_reads, pop_frees, go,
}
use lock_free_stuffs.Mpmc.States.Inv.{push_of, push_ticket, claimed, state_of, Claim, Pending, Inv}
use lock_free_stuffs.Mpmc.States.Moves.{push_of-ticket, ticket-push_of, before, Elsewhere, move-Inv}

is_vacant-vacant : (s : SlotState) → is_vacant s ≡ true → s ≡ vacant
is_vacant-vacant vacant e = refl
is_vacant-vacant storing e = cc
is_vacant-vacant stored e = cc
is_vacant-vacant loading e = cc

pub is_stored-stored : (s : SlotState) → is_stored s ≡ true → s ≡ stored
is_stored-stored vacant e = cc
is_stored-stored storing e = cc
is_stored-stored stored e = refl
is_stored-stored loading e = cc

pub Delivered-Unused {ℓ} :
    {A : Type ℓ} {pushes : ℕ} (issued : ℕ → Option A) (got : List (ℕ × A)) (c : ℕ)
    → pushes < c + 1
    → Delivered pushes issued got
    → Unused c got
Delivered-Unused issued [] c le d = tt
Delivered-Unused issued ((e, v) ∷ got) c le (lt, i, d) =
    ((λ same. omega (arith, same, lt, le)), Delivered-Unused issued got c le d)

module _ {ℓ} {A : Type ℓ} (k elem : ℕ) (i : ℕ) {m : Machine A} (inv : Inv k elem m) where
  -- The slot of a thread that is past its claim is in a state that no slot of another's claim can be.
  pub claims : {t : Thread A} → m.threads i ≡ t → Claim k elem m.queue t
  claims at = subst (λ t. Claim k elem m.queue t) at (inv.claim i)

  pub mine :
      {t : Thread A} {c : ℕ} {v : A}
      → m.threads i ≡ t
      → push_of t ≡ some (c, v)
      → Pending k elem m c v
  mine {c = c} {v = v} at e = inv.pending i c v (ap push_of at ∙ e)

  -- Nobody else has claimed the slot of a thread that has.
  pub sole :
      {t : Thread A} (c : ℕ)
      → m.threads i ≡ t
      → claimed k t ≡ some (c % 2 ^ k)
      → (j : ℕ) → j ≢ i
      → claimed k (m.threads j) ≢ some (c % 2 ^ k)
  sole c at e j ne h = inv.claims_apart j i (c % 2 ^ k) ne h (ap (claimed k) at ∙ e)

  -- Nobody has claimed a slot that is neither being stored to nor read.
  pub none_at :
      (c : ℕ)
      → state_of k elem m.queue c ≢ storing
      → state_of k elem m.queue c ≢ loading
      → (j : ℕ) → claimed k (m.threads j) ≢ some (c % 2 ^ k)
  none_at c ns nl j = at (m.threads j) (inv.claim j)
    where
      here :
          (d : ℕ)
          → some (d % 2 ^ k) ≡ some (c % 2 ^ k)
          → state_of k elem m.queue c ≡ state_of k elem m.queue d
      here d e = ap m.queue.states (state_at k c d (sym (some-injective (d % 2 ^ k) (c % 2 ^ k) e)))

      at : (t : Thread A) → Claim k elem m.queue t → claimed k t ≢ some (c % 2 ^ k)
      at (push_writes d v) (s, u) e = ns (here d e ∙ s)
      at (push_stores d v) (s, u) e = ns (here d e ∙ s)
      at (pop_reads d) (s, u) e = nl (here d e ∙ s)
      at (pop_frees d v) (s, u) e = nl (here d e ∙ s)
      at _ o e = cc

  -- The thread moves on and touches nothing.
  pub stay-Inv :
      (t t' : Thread A)
      → m.threads i ≡ t
      → ((x : ℕ × A) → push_of t' ≡ some x → push_of t ≡ some x)
      → ((p : ℕ) → claimed k t' ≡ some p → claimed k t ≡ some p)
      → Claim k elem m.queue t'
      → Inv k elem (record m { threads = set_thread i t' m.threads })
  stay-Inv t t' at pushes claimed_before o = record {
    head_at = inv.head_at;
    pending = λ j d w e.
        let was = inv.pending j d w (before m i t t' at pushes j d w e) in
        record { below = was.below; put = was.put; unused = was.unused; not_in = was.not_in };
    claim = λ j. if_split (λ x. Claim k elem m.queue x) (j == i) (λ e. o) (λ e. inv.claim j);
    live = λ d h.
        let was = inv.live d h in
        record { below = was.below; put = was.put; unused = was.unused; place = was.place };
    pushes_apart = Distinct-set push_ticket i t' m.threads inv.pushes_apart (λ j d ne h.
        let (w, f) = push_of-ticket t' d h in
        inv.pushes_apart i j d (λ e. ne (sym e))
          (ap push_ticket at ∙ ticket-push_of t d w (pushes (d, w) f)));
    claims_apart = Distinct-set (claimed k) i t' m.threads inv.claims_apart (λ j p ne h.
        inv.claims_apart i j p (λ e. ne (sym e)) (ap (claimed k) at ∙ claimed_before p h));
    once = inv.once;
    delivered = inv.delivered;
    of_slot = inv.of_slot;
  }

  pub after_set_state :
      (c : ℕ) (s : SlotState)
      → Elsewhere k elem c m.queue (set_state k elem c s m.queue) m.last m.last
  unfolding set_state
  after_set_state c s = record {
    states = λ d ne.
        elsewhere m.queue.states (state_index k c) s (state_index k d) (state_apart k c d ne);
    values = λ d ne. refl;
    lasts = λ d ne. refl;
  }

  pub push_claims-Inv :
      (pos : ℕ) (v : A)
      → m.threads i ≡ push_claims pos v
      → Inv k elem (go k elem i (push_claims pos v) m)
  unfolding go set_state
  push_claims-Inv pos v at =
      if_split (λ (m' : Machine A). Inv k elem m') (is_vacant (m.queue.states (state_index k pos)))
        (λ e.
          let was = is_vacant-vacant (m.queue.states (state_index k pos)) e in
          let now = written m.queue.states (state_index k pos) storing in
          move-Inv k elem inv i pos (push_claims pos v) (push_writes pos v)
            (set_state k elem pos storing m.queue) m.last m.got m.served at refl
            (after_set_state pos storing) (λ x h. h) (λ j ne. none_at pos (λ s. cc) (λ s. cc) j)
            (λ p h. cc) (now, tt) (λ h. cc) (λ d ne was'. was'.unused)
            (λ j d w h was'. (was'.unused, (λ live. cc))) inv.once inv.delivered inv.of_slot)
        (λ e. stay-Inv (push_claims pos v) (push_spins pos v) at (λ x h. h) (λ p h. cc) tt)

  pub push_writes-Inv :
      (pos : ℕ) (v : A)
      → m.threads i ≡ push_writes pos v
      → Inv k elem (go k elem i (push_writes pos v) m)
  unfolding go store_value
  push_writes-Inv pos v at =
      let (s, u) = claims at in
      move-Inv k elem inv i pos (push_writes pos v) (push_stores pos v)
        (store_value k elem pos v m.queue) m.last m.got m.served at refl
        (record {
          states = λ d ne. refl;
          values = λ d ne.
              elsewhere m.queue.buffer (buffer_index k elem pos) v (buffer_index k elem d)
                (buffer_apart k elem pos d ne);
          lasts = λ d ne. refl;
        })
        (λ x h. h) (sole pos at refl) (λ p h. cc)
        (s, written m.queue.buffer (buffer_index k elem pos) v) (λ h. cc) (λ d ne was. was.unused)
        (λ j d w h was. (was.unused, (λ live. cc))) inv.once inv.delivered inv.of_slot
