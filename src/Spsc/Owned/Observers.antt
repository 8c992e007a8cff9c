-- ===== src/Spsc/Owned/Observers.antt =====
-- include/spsc_final.h, LockFreeQueue2<T, SIZE, false>: the spinning calls, with nobody else at work.
use lock_free_stuffs.Prelude.{
  ℕ, zero, suc, ◌+◌, ◌-◌, ◌^◌, ◌<◌, ◌≤◌, ◌≡◌, refl, false, Option, none, some, List, [], ◌∷◌,
  length, ltb, if◌then◌else◌, if_split, Bool-cases, inl, inr, arith,
}
use mathlib.Core.Option
use mathlib.Core.List.{head?}
use lock_free_stuffs.Spsc.Protocol.{quiet}
use lock_free_stuffs.Spsc.Counted.{Queue, looks_full, looks_empty, has_room, has_value, load_value}
use lock_free_stuffs.Spsc.Counted.Rep.{
  Stands, claim, find, still_full, still_empty, load_read_index-Rep, load_write_index-Rep,
}
use lock_free_stuffs.Spsc.Counted.Laws.{load_lem}
use lock_free_stuffs.Spsc.Owned.{try_emplace, try_pop, emplace, pop, read_value}
use lock_free_stuffs.Spsc.Owned.Rep.{Rep}

module _ {ℓ} {A : Type ℓ} (k elem : ℕ) (size_ok : k ≤ 63) where
  -- A full ring keeps the spinning emplace for ever.
  spin_full :
      (fuel : ℕ) (v : A) {xs : List A} {q : Queue (Option A)}
      → Stands some k elem quiet false xs q
      → length xs + 1 ≡ 2 ^ k
      → emplace k elem fuel v q ≡ none
  unfolding emplace
  spin_full zero v r full = refl
  spin_full (suc fuel) v {xs} {q} r full =
      if_split (λ t. t ≡ none) (looks_full k elem q)
        (λ e. rw (spin_full fuel v (load_read_index-Rep k elem size_ok r) full))
        (λ e. absurd (omega (arith, (claim k elem size_ok r e).ring.fits)))

  -- Two rounds are enough where there is room: at most one goes by before the test passes.
  spin_room :
      (fuel : ℕ) (v : A) {xs : List A} {q : Queue (Option A)}
      → Stands some k elem quiet false xs q
      → length xs + 1 < 2 ^ k
      → emplace k elem (suc (suc fuel)) v q ≡ some (0, (try_emplace k elem v q).1)
  unfolding emplace try_emplace has_room
  spin_room fuel v {xs} {q} r room = ground (arith, still_full k elem size_ok r)

  pub owned_emplace :
      (fuel : ℕ) (v : A) {xs : List A} {q : Queue (Option A)}
      → Rep k elem quiet false xs q
      → emplace k elem (suc (suc fuel)) v q
        ≡ (if ltb (length xs) (2 ^ k - 1) then some (0, (try_emplace k elem v q).1) else none)
  owned_emplace fuel v {xs} {q} r = elim (Bool-cases (ltb (length xs) (2 ^ k - 1))) [
    | inl room ↦ rw room (spin_room fuel v r.stands (ground arith))
    | inr full ↦
        rw full (spin_full (suc (suc fuel)) v r.stands (ground (arith, r.stands.ring.fits)))
  ]

  spin_empty :
      (fuel : ℕ) {q : Queue (Option A)}
      → Stands some k elem quiet false [] q
      → pop k elem fuel q ≡ none
  unfolding pop
  spin_empty zero r = refl
  spin_empty (suc fuel) {q} r =
      if_split (λ t. t ≡ none) (looks_empty k elem q)
        (λ e. rw (spin_empty fuel (load_write_index-Rep k elem size_ok r false (omega arith))))
        (λ e. cc ((find k elem size_ok r e).0))

  spin_value :
      (fuel : ℕ) {x : A} {xs : List A} {q : Queue (Option A)}
      → Stands some k elem quiet false (x ∷ xs) q
      → pop k elem (suc (suc fuel)) q ≡ some (0, some x, (try_pop k elem q).1)
  unfolding pop try_pop has_value read_value load_value
  spin_value fuel {q = q} r = ground (
    arith,
    still_empty k elem size_ok r,
    load_lem k elem size_ok r,
    load_lem k elem size_ok (load_write_index-Rep k elem size_ok r false (omega arith)),
  )

  pub owned_pop :
      (fuel : ℕ) {xs : List A} {q : Queue (Option A)}
      → Rep k elem quiet false xs q
      → pop k elem (suc (suc fuel)) q
        ≡ Option.map (λ x. (0, some x, (try_pop k elem q).1)) (head? xs)
  owned_pop fuel {xs = []} r = spin_empty (suc (suc fuel)) r.stands
  owned_pop fuel {xs = x ∷ xs} r = spin_value fuel r.stands

  -- For SIZE = 2^k with k ≤ 63 and a ring of LockFreeQueue2<T, SIZE, false> between calls that
  -- stands for the values `xs`: run with nobody else at work, the spinning emplace with two or
  -- more rounds of fuel ends, without a pause, with the queue that try_emplace leaves if fewer
  -- than SIZE - 1 values are in; it does not end within any fuel if SIZE - 1 values are in; and
  -- the spinning pop(T&) with two or more rounds of fuel returns, without a pause, the first
  -- value and the queue that try_pop leaves if there is a value; it does not end within any fuel
  -- if there is no value.
  pub owned_spinning :
      (fuel : ℕ) (v : A) {xs : List A} {q : Queue (Option A)}
      → Rep k elem quiet false xs q
      → (emplace k elem (suc (suc fuel)) v q
          ≡ (if ltb (length xs) (2 ^ k - 1) then some (0, (try_emplace k elem v q).1) else none))
        × (pop k elem (suc (suc fuel)) q
            ≡ Option.map (λ x. (0, some x, (try_pop k elem q).1)) (head? xs))
  owned_spinning fuel v r = (owned_emplace fuel v r, owned_pop fuel r)
