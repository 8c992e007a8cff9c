-- ===== src/Spsc/Cached/Observers.antt =====
-- include/spsc_1.h to spsc_3.h: the other calls, on a ring that stands for the values `xs`.
use lock_free_stuffs.Prelude.{
  ℕ, zero, suc, ◌+◌, ◌-◌, ◌^◌, ◌<◌, ◌≤◌, ◌≡◌, refl, ap, ap₂, ◌∙◌, Bool, true, false, not, none,
  some, List, [], ◌∷◌, length, null, ltb, if◌then◌else◌, if_split, Bool-cases, inl, inr, arith,
  mask, sub_size, ring_distance, pow_pos, mod-lt,
}
use mathlib.Core.Option
use mathlib.Core.List.{head?}
use lock_free_stuffs.Spsc.Layout.{padding, nslots}
use lock_free_stuffs.Spsc.Protocol.{Phase, quiet}
use lock_free_stuffs.Spsc.Cached.{
  Queue, looks_full, looks_empty, has_room, has_value, load_value, try_emplace, try_pop, emplace,
  pop, front, dequeue, try_dequeue, empty, size,
}
use lock_free_stuffs.Spsc.Cached.Rep.{
  Rep, claim, find, still_full, still_empty, write_empty_lem, load_read_index-Rep,
  load_write_index-Rep,
}
use lock_free_stuffs.Spsc.Cached.Laws.{load_lem, has_value-Rep}

module _ {ℓ} {A : Type ℓ} (k elem : ℕ) (size_ok : k ≤ 63) (pauses : Bool → ℕ) where
  -- A full ring keeps the spinning emplace for ever.
  spin_full :
      (fuel : ℕ) (v : A) {xs : List A} {q : Queue A}
      → Rep k elem quiet false xs q
      → length xs + 1 ≡ 2 ^ k
      → emplace k elem pauses fuel v q ≡ none
  unfolding emplace
  spin_full zero v r full = refl
  spin_full (suc fuel) v {xs} {q} r full =
      if_split (λ t. t ≡ none) (looks_full k elem q)
        (λ e. rw (spin_full fuel v (load_read_index-Rep k elem size_ok r) full))
        (λ e. absurd (omega (arith, (claim k elem size_ok r e).ring.fits)))

  -- Two rounds are enough where there is room: at most one goes by before the test passes.
  spin_room :
      (fuel : ℕ) (v : A) {xs : List A} {q : Queue A}
      → Rep k elem quiet false xs q
      → length xs + 1 < 2 ^ k
      → emplace k elem pauses (suc (suc fuel)) v q
        ≡ some (if looks_full k elem q then pauses false else 0, (try_emplace k elem v q).1)
  unfolding emplace try_emplace has_room
  spin_room fuel v {xs} {q} r room = ground (arith, still_full k elem size_ok r)

  pub cached_emplace :
      (fuel : ℕ) (v : A) {xs : List A} {q : Queue A}
      → Rep k elem quiet false xs q
      → emplace k elem pauses (suc (suc fuel)) v q ≡ (
          if ltb (length xs) (2 ^ k - 1)
          then some (if looks_full k elem q then pauses false else 0, (try_emplace k elem v q).1)
          else none)
  cached_emplace fuel v {xs} {q} r = elim (Bool-cases (ltb (length xs) (2 ^ k - 1))) [
    | inl room ↦ rw room (spin_room fuel v r (ground arith))
    | inr full ↦ rw full (spin_full (suc (suc fuel)) v r (ground (arith, r.ring.fits)))
  ]

  spin_empty :
      (fuel : ℕ) {q : Queue A} → Rep k elem quiet false [] q → pop k elem pauses fuel q ≡ none
  unfolding pop
  spin_empty zero r = refl
  spin_empty (suc fuel) {q} r =
      if_split (λ t. t ≡ none) (looks_empty k elem q)
        (λ e. rw (spin_empty fuel (load_write_index-Rep k elem size_ok r false (omega arith))))
        (λ e. cc ((find k elem size_ok r e).0))

  spin_value :
      (fuel : ℕ) {x : A} {xs : List A} {q : Queue A}
      → Rep k elem quiet false (x ∷ xs) q
      → pop k elem pauses (suc (suc fuel)) q
        ≡ some (if looks_empty k elem q then pauses false else 0, x, (try_pop k elem q).1)
  unfolding pop try_pop has_value
  spin_value fuel {q = q} r = ground (
    arith,
    still_empty k elem size_ok r,
    load_lem k elem size_ok r,
    load_lem k elem size_ok (load_write_index-Rep k elem size_ok r false (omega arith)),
  )

  pub cached_pop :
      (fuel : ℕ) {xs : List A} {q : Queue A}
      → Rep k elem quiet false xs q
      → pop k elem pauses (suc (suc fuel)) q
        ≡ Option.map
            (λ x. (if looks_empty k elem q then pauses false else 0, x, (try_pop k elem q).1))
            (head? xs)
  cached_pop fuel {xs = []} r = spin_empty (suc (suc fuel)) r
  cached_pop fuel {xs = x ∷ xs} r = spin_value fuel r

  -- For SIZE = 2^k with k ≤ 63 and a ring between calls that stands for the values `xs`: run
  -- with nobody else at work, the spinning emplace with two or more rounds of fuel ends with the
  -- queue that try_emplace leaves if fewer than SIZE - 1 values are in, after the pauses of one
  -- round if the cached index was stale and none otherwise; it does not end within any fuel if
  -- SIZE - 1 values are in; and the spinning pop(T&) with two or more rounds of fuel returns the
  -- first value and the queue that try_pop leaves if there is a value, after the pauses of one
  -- round if the cached index was stale and none otherwise; it does not end within any fuel if
  -- there is no value.
  pub cached_spinning :
      (fuel : ℕ) (v : A) {xs : List A} {q : Queue A}
      → Rep k elem quiet false xs q
      → (emplace k elem pauses (suc (suc fuel)) v q ≡ (
          if ltb (length xs) (2 ^ k - 1)
          then some (if looks_full k elem q then pauses false else 0, (try_emplace k elem v q).1)
          else none))
        × (pop k elem pauses (suc (suc fuel)) q
            ≡ Option.map
                (λ x. (if looks_empty k elem q then pauses false else 0, x, (try_pop k elem q).1))
                (head? xs))
  cached_spinning fuel v r = (cached_emplace fuel v r, cached_pop fuel r)

module _ {ℓ} {A : Type ℓ} (k elem : ℕ) (size_ok : k ≤ 63) where
  pub cached_dequeue :
      (wanted : Bool) {xs : List A} {q : Queue A}
      → Rep k elem quiet false xs q
      → (dequeue k elem q ≡ (head? xs, (try_pop k elem q).1))
        × (try_dequeue k elem wanted q
            ≡ (not (null xs), if wanted then head? xs else none, (try_pop k elem q).1))
  unfolding dequeue try_dequeue try_pop
  cached_dequeue true {xs = []} r = rw (has_value-Rep k elem size_ok r).0 (refl, refl)
  cached_dequeue false {xs = []} r = rw (has_value-Rep k elem size_ok r).0 (refl, refl)
  cached_dequeue true {xs = x ∷ xs} r =
      let (pass, r') = has_value-Rep k elem size_ok r in
      rw (pass, load_lem k elem size_ok r') (refl, refl)
  cached_dequeue false {xs = x ∷ xs} r =
      let (pass, r') = has_value-Rep k elem size_ok r in
      rw (pass, load_lem k elem size_ok r') (refl, refl)

  size_at :
      {xs : List A} {q : Queue A}
      → Rep k elem quiet false xs q
      → mask k (sub_size q.write_index q.read_index) ≡ length xs
  size_at {xs} {q} r =
      ap₂ (λ w i. mask k (sub_size w i)) r.ring.write_at r.ring.read_at
      ∙ ring_distance k r.reads (length xs) (omega arith) (omega (arith, r.ring.fits))

  pub cached_observers :
      {xs : List A} {q : Queue A}
      → Rep k elem quiet false xs q
      → (size k elem q ≡ length xs)
        × (empty k elem q ≡ null xs)
        × (Option.map (front k elem q).1.buffer (front k elem q).0 ≡ head? xs)
  unfolding size empty front load_value
  cached_observers {xs = []} r =
      (size_at r, write_empty_lem k elem size_ok r, rw (has_value-Rep k elem size_ok r).0)
  cached_observers {xs = x ∷ xs} r =
      let (pass, r') = has_value-Rep k elem size_ok r in
      (size_at r, write_empty_lem k elem size_ok r, rw pass (ap some (load_lem k elem size_ok r')))

  -- For SIZE = 2^k with k ≤ 63 and a ring between calls that stands for the values `xs`: dequeue
  -- answers with the first of `xs`, or nothing if `xs` is empty, and leaves the queue that
  -- try_pop leaves; so does try_dequeue, which says whether there was a value and gives it only
  -- if a pointer was passed. Size is the length of `xs`, empty tells whether `xs` is empty, and
  -- front points to the first of `xs`, or is null if `xs` is empty.
  pub cached_answers :
      (wanted : Bool) {xs : List A} {q : Queue A}
      → Rep k elem quiet false xs q
      → ((dequeue k elem q ≡ (head? xs, (try_pop k elem q).1))
          × (try_dequeue k elem wanted q
              ≡ (not (null xs), if wanted then head? xs else none, (try_pop k elem q).1)))
        × ((size k elem q ≡ length xs)
            × (empty k elem q ≡ null xs)
            × (Option.map (front k elem q).1.buffer (front k elem q).0 ≡ head? xs))
  cached_answers wanted r = (cached_dequeue wanted r, cached_observers r)

  -- For SIZE = 2^k with k ≤ 63, at every step of the calls in progress on a ring that stands for
  -- `xs`: the slots at write_index + PADDING and read_index + PADDING are elements of the array,
  -- with at least PADDING further elements behind each.
  pub cached_accesses_in_range :
      {ph : Phase A} {f : Bool} {xs : List A} {q : Queue A}
      → Rep k elem ph f xs q
      → (q.write_index + padding elem + padding elem < nslots k elem)
        × (q.read_index + padding elem + padding elem < nslots k elem)
  unfolding nslots
  cached_accesses_in_range {xs} r = omega (
    arith,
    r.ring.read_at,
    r.ring.write_at,
    mod-lt r.reads (pow_pos k),
    mod-lt (r.reads + length xs) (pow_pos k),
  )
