-- ===== src/Mpmc/States/Stores.antt =====
-- include/mpmc_1.h: a push that makes its value seen and a pop that takes one keep the invariant.
use lock_free_stuffs.Prelude.{
  ℕ, ◌%◌, ◌^◌, ◌<◌, ◌≡◌, ◌≢◌, ◌==◌, refl, sym, ap, ◌∙◌, subst, true, some, none, ◌∷◌, if_split,
  eq→==,
}
use lock_free_stuffs.Mpmc.Machine.{set_thread}
use lock_free_stuffs.Mpmc.Inv.{Unused}
use lock_free_stuffs.Mpmc.Seq.Laws.{written, elsewhere}
use lock_free_stuffs.Spsc.Cells.{write}
use lock_free_stuffs.Mpmc.States.{vacant, stored, loading, is_stored, state_index, set_state}
use lock_free_stuffs.Mpmc.States.Rep.{state_at}
use lock_free_stuffs.Mpmc.States.Machine.{
  Thread, Machine, idle, push_stores, pop_claims, pop_spins, pop_reads, pop_frees, go,
}
use lock_free_stuffs.Mpmc.States.Inv.{is_live, push_of, push_ticket, state_of, Pending, Live, Inv}
use lock_free_stuffs.Mpmc.States.Moves.{ticket-push_of, move-Inv}
use lock_free_stuffs.Mpmc.States.Steps.{
  is_stored-stored, claims, mine, sole, none_at, stay-Inv, after_set_state,
}

module _ {ℓ} {A : Type ℓ} (k elem : ℕ) (i : ℕ) {m : Machine A} (inv : Inv k elem m) where
  -- Two pushes at work have different tickets, and that of the other is not that of this one.
  other_ticket :
      (t t' : Thread A) (pos : ℕ) (v : A)
      → m.threads i ≡ t
      → push_of t ≡ some (pos, v)
      → push_ticket t' ≡ none
      → (j d : ℕ) (w : A) → push_of (set_thread i t' m.threads j) ≡ some (d, w)
      → pos ≢ d
  other_ticket t t' pos v at e gone j d w =
      if_split (λ x. push_of x ≡ some (d, w) → pos ≢ d) (j == i)
        (λ same h f. cc (ticket-push_of t' d w h))
        (λ diff h f.
          inv.pushes_apart i j pos (λ s. cc (eq→== j i (sym s)))
            (ap push_ticket at ∙ ticket-push_of t pos v e)
            (ticket-push_of (m.threads j) d w h ∙ ap some (sym f)))

  -- The value that a slot has is not that of a push which has yet to store its own.
  not_last :
      (pos d : ℕ) (w : A)
      → Live k elem m pos
      → is_live (state_of k elem m.queue pos) ≡ true
      → Pending k elem m d w
      → m.last (pos % 2 ^ k) ≢ d
  not_last pos d w was live pending f =
      let r : d % 2 ^ k ≡ pos % 2 ^ k = ap (λ n. n % 2 ^ k) (sym f) ∙ was.place in
      pending.not_in (ap (λ p. is_live (m.queue.states p)) (state_at k d pos r) ∙ live)
        (ap m.last r ∙ f)

  pub push_stores-Inv :
      (pos : ℕ) (v : A)
      → m.threads i ≡ push_stores pos v
      → Inv k elem (go k elem i (push_stores pos v) m)
  unfolding go set_state
  push_stores-Inv pos v at =
      let (s, u) = claims k elem i inv at in
      let was : Pending k elem m pos v = mine k elem i inv at refl in
      let new : write m.last (pos % 2 ^ k) pos (pos % 2 ^ k) ≡ pos =
        written m.last (pos % 2 ^ k) pos in
      move-Inv k elem inv i pos (push_stores pos v) idle (set_state k elem pos stored m.queue)
        (write m.last (pos % 2 ^ k) pos) m.got m.served at refl
        (record {
          states = (after_set_state k elem i inv pos stored).states;
          values = λ d ne. refl;
          lasts = λ d ne. elsewhere m.last (pos % 2 ^ k) pos (d % 2 ^ k) ne;
        })
        (λ x h. cc) (sole k elem i inv pos at refl) (λ p h. cc) tt
        (λ h. record {
          below = subst (λ n. n < m.pushes) (sym new) was.below;
          put = ap m.issued new ∙ was.put ∙ ap some (sym u);
          unused = subst (λ n. Unused n m.got) (sym new) was.unused;
          place = ap (λ n. n % 2 ^ k) new;
        })
        (λ d ne was'. was'.unused)
        (λ j d w h was'. (
          was'.unused,
          (λ live e.
              other_ticket (push_stores pos v) idle pos v at refl refl j d w h (sym new ∙ e)),
        ))
        inv.once inv.delivered inv.of_slot

  pub pop_claims-Inv :
      (pos : ℕ) → m.threads i ≡ pop_claims pos → Inv k elem (go k elem i (pop_claims pos) m)
  unfolding go set_state
  pop_claims-Inv pos at =
      if_split (λ (m' : Machine A). Inv k elem m') (is_stored (m.queue.states (state_index k pos)))
        (λ e.
          let s = is_stored-stored (m.queue.states (state_index k pos)) e in
          let was : Live k elem m pos = inv.live pos (ap is_live s) in
          move-Inv k elem inv i pos (pop_claims pos) (pop_reads pos)
            (set_state k elem pos loading m.queue) m.last m.got m.served at refl
            (after_set_state k elem i inv pos loading) (λ x h. cc)
            (λ j ne. none_at k elem i inv pos (λ f. cc) (λ f. cc) j) (λ p h. cc)
            (written m.queue.states (state_index k pos) loading, tt)
            (λ h. record {
              below = was.below;
              put = was.put;
              unused = was.unused;
              place = was.place;
            })
            (λ d ne was'. was'.unused)
            (λ j d w h was'. (was'.unused, (λ live. not_last pos d w was (ap is_live s) was')))
            inv.once inv.delivered inv.of_slot)
        (λ e. stay-Inv k elem i inv (pop_claims pos) (pop_spins pos) at (λ x h. cc) (λ p h. cc) tt)

  pub pop_frees-Inv :
      (pos : ℕ) (v : A)
      → m.threads i ≡ pop_frees pos v
      → Inv k elem (go k elem i (pop_frees pos v) m)
  unfolding go set_state
  pop_frees-Inv pos v at =
      let (s, u) = claims k elem i inv at in
      let was : Live k elem m pos = inv.live pos (ap is_live s) in
      let now = written m.queue.states (state_index k pos) vacant in
      move-Inv k elem inv i pos (pop_frees pos v) idle (set_state k elem pos vacant m.queue) m.last
        ((m.last (pos % 2 ^ k), v) ∷ m.got) ((pos, m.last (pos % 2 ^ k)) ∷ m.served) at refl
        (after_set_state k elem i inv pos vacant) (λ x h. cc) (sole k elem i inv pos at refl)
        (λ p h. cc) tt (λ h. cc)
        (λ d ne was'. ((λ e. ne (sym was'.place ∙ ap (λ n. n % 2 ^ k) e ∙ was.place)), was'.unused))
        (λ j d w h was'.
          (((λ e. not_last pos d w was (ap is_live s) was' (sym e)), was'.unused), (λ live. cc)))
        (was.unused, inv.once) (was.below, was.put ∙ ap some u, inv.delivered)
        (sym was.place, inv.of_slot)
