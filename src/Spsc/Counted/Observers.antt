-- ===== src/Spsc/Counted/Observers.antt =====
-- include/spsc_4.h, spsc_5.h and the direct-slot class of spsc_final.h: the other calls, on a ring that stands for the values `xs`.
use lock_free_stuffs.Prelude.{
  ℕ, zero, suc, ◌+◌, ◌-◌, ◌^◌, ◌<◌, ◌≤◌, ◌≡◌, refl, ap, Bool, true, false, not, none, some, List,
  [], ◌∷◌, length, null, ltb, if◌then◌else◌, if_split, Bool-cases, inl, inr, arith, sub_size,
  pow-le-word,
}
use mathlib.Core.Option
use mathlib.Core.List.{head?}
use lock_free_stuffs.Spsc.Protocol.{quiet}
use lock_free_stuffs.Spsc.Counted.{
  Queue, looks_full, looks_empty, has_room, has_value, load_value, try_emplace, try_pop, emplace,
  pop, front, dequeue, try_dequeue, empty, size,
}
use lock_free_stuffs.Spsc.Counted.Rep.{
  Rep, claim, find, still_full, still_empty, write_empty_lem, load_read_index-Rep,
  load_write_index-Rep,
}
use lock_free_stuffs.Spsc.Counted.Laws.{load_lem, has_value-Rep}

module _ {ℓ} {A : Type ℓ} (k elem : ℕ) (size_ok : k ≤ 63) (pauses : Bool → ℕ) where
  -- A full ring keeps the spinning emplace for ever.
  spin_full :
      (fuel : ℕ) (v : A) {xs : List A} {q : Queue A}
      → Rep k elem quiet false xs q
      → length xs + 1 ≡ 2 ^ k
      → emplace k elem pauses fuel v q ≡ none
  unfolding emplace
  spin_full zero v r full = refl
  spin_full (suc fuel) v {xs} {q} r full =
      if_split (λ t. t ≡ none) (looks_full k elem q)
        (λ e. rw (spin_full fuel v (load_read_index-Rep k elem size_ok r) full))
        (λ e. absurd (omega (arith, (claim k elem size_ok r e).ring.fits)))

  -- Two rounds are enough where there is room: at most one goes by before the test passes.
  spin_room :
      (fuel : ℕ) (v : A) {xs : List A} {q : Queue A}
      → Rep k elem quiet false xs q
      → length xs + 1 < 2 ^ k
      → emplace k elem pauses (suc (suc fuel)) v q
        ≡ some (if looks_full k elem q then pauses false else 0, (try_emplace k elem v q).1)
  unfolding emplace try_emplace has_room
  spin_room fuel v {xs} {q} r room = ground (arith, still_full k elem size_ok r)

  pub counted_emplace :
      (fuel : ℕ) (v : A) {xs : List A} {q : Queue A}
      → Rep k elem quiet false xs q
      → emplace k elem pauses (suc (suc fuel)) v q ≡ (
          if ltb (length xs) (2 ^ k - 1)
          then some (if looks_full k elem q then pauses false else 0, (try_emplace k elem v q).1)
          else none)
  counted_emplace fuel v {xs} {q} r = elim (Bool-cases (ltb (length xs) (2 ^ k - 1))) [
    | inl room ↦ rw room (spin_room fuel v r (ground arith))
    | inr full ↦ rw full (spin_full (suc (suc fuel)) v r (ground (arith, r.ring.fits)))
  ]

  spin_empty :
      (fuel : ℕ) {q : Queue A} → Rep k elem quiet false [] q → pop k elem pauses fuel q ≡ none
  unfolding pop
  spin_empty zero r = refl
  spin_empty (suc fuel) {q} r =
      if_split (λ t. t ≡ none) (looks_empty k elem q)
        (λ e. rw (spin_empty fuel (load_write_index-Rep k elem size_ok r false (omega arith))))
        (λ e. cc ((find k elem size_ok r e).0))

  spin_value :
      (fuel : ℕ) {x : A} {xs : List A} {q : Queue A}
      → Rep k elem quiet false (x ∷ xs) q
      → pop k elem pauses (suc (suc fuel)) q
        ≡ some (if looks_empty k elem q then pauses false else 0, x, (try_pop k elem q).1)
  unfolding pop try_pop has_value
  spin_value fuel {q = q} r = ground (
    arith,
    still_empty k elem size_ok r,
    load_lem k elem size_ok r,
    load_lem k elem size_ok (load_write_index-Rep k elem size_ok r false (omega arith)),
  )

  pub counted_pop :
      (fuel : ℕ) {xs : List A} {q : Queue A}
      → Rep k elem quiet false xs q
      → pop k elem pauses (suc (suc fuel)) q
        ≡ Option.map
            (λ x. (if looks_empty k elem q then pauses false else 0, x, (try_pop k elem q).1))
            (head? xs)
  counted_pop fuel {xs = []} r = spin_empty (suc (suc fuel)) r
  counted_pop fuel {xs = x ∷ xs} r = spin_value fuel r

  -- For SIZE = 2^k with k ≤ 63 and a ring between calls that stands for the values `xs`: run
  -- with nobody else at work, the spinning emplace with two or more rounds of fuel ends with the
  -- queue that try_emplace leaves if fewer than SIZE - 1 values are in, after the pauses of one
  -- round if the cached index was stale and none otherwise; it does not end within any fuel if
  -- SIZE - 1 values are in; and the spinning pop(T&) with two or more rounds of fuel returns the
  -- first value and the queue that try_pop leaves if there is a value, after the pauses of one
  -- round if the cached index was stale and none otherwise; it does not end within any fuel if
  -- there is no value.
  pub counted_spinning :
      (fuel : ℕ) (v : A) {xs : List A} {q : Queue A}
      → Rep k elem quiet false xs q
      → (emplace k elem pauses (suc (suc fuel)) v q ≡ (
          if ltb (length xs) (2 ^ k - 1)
          then some (if looks_full k elem q then pauses false else 0, (try_emplace k elem v q).1)
          else none))
        × (pop k elem pauses (suc (suc fuel)) q
            ≡ Option.map
                (λ x. (if looks_empty k elem q then pauses false else 0, x, (try_pop k elem q).1))
                (head? xs))
  counted_spinning fuel v r = (counted_emplace fuel v r, counted_pop fuel r)

module _ {ℓ} {A : Type ℓ} (k elem : ℕ) (size_ok : k ≤ 63) where
  pub counted_dequeue :
      (wanted : Bool) {xs : List A} {q : Queue A}
      → Rep k elem quiet false xs q
      → (dequeue k elem q ≡ (head? xs, (try_pop k elem q).1))
        × (try_dequeue k elem wanted q
            ≡ (not (null xs), if wanted then head? xs else none, (try_pop k elem q).1))
  unfolding dequeue try_dequeue try_pop
  counted_dequeue true {xs = []} r = rw (has_value-Rep k elem size_ok r).0 (refl, refl)
  counted_dequeue false {xs = []} r = rw (has_value-Rep k elem size_ok r).0 (refl, refl)
  counted_dequeue true {xs = x ∷ xs} r =
      let (pass, r') = has_value-Rep k elem size_ok r in
      rw (pass, load_lem k elem size_ok r') (refl, refl)
  counted_dequeue false {xs = x ∷ xs} r =
      let (pass, r') = has_value-Rep k elem size_ok r in
      rw (pass, load_lem k elem size_ok r') (refl, refl)

  size_at :
      {xs : List A} {q : Queue A}
      → Rep k elem quiet false xs q
      → sub_size q.published_write q.published_read ≡ length xs
  size_at r = omega (
    arith,
    r.ring.write_at,
    r.ring.read_at,
    r.write_published,
    r.read_published,
    r.ring.fits,
    pow-le-word k (omega arith),
  )

  pub counted_observers :
      {xs : List A} {q : Queue A}
      → Rep k elem quiet false xs q
      → (size k elem q ≡ length xs)
        × (empty k elem q ≡ null xs)
        × (Option.map (front k elem q).1.buffer (front k elem q).0 ≡ head? xs)
  unfolding size empty front load_value
  counted_observers {xs = []} r =
      (size_at r, write_empty_lem k elem size_ok r, rw (has_value-Rep k elem size_ok r).0)
  counted_observers {xs = x ∷ xs} r =
      let (pass, r') = has_value-Rep k elem size_ok r in
      (size_at r, write_empty_lem k elem size_ok r, rw pass (ap some (load_lem k elem size_ok r')))

  -- For SIZE = 2^k with k ≤ 63 and a ring between calls that stands for the values `xs`: dequeue
  -- answers with the first of `xs`, or nothing if `xs` is empty, and leaves the queue that
  -- try_pop leaves; so does try_dequeue, which says whether there was a value and gives it only
  -- if a pointer was passed. Size is the length of `xs`, empty tells whether `xs` is empty, and
  -- front points to the first of `xs`, or is null if `xs` is empty.
  pub counted_answers :
      (wanted : Bool) {xs : List A} {q : Queue A}
      → Rep k elem quiet false xs q
      → ((dequeue k elem q ≡ (head? xs, (try_pop k elem q).1))
          × (try_dequeue k elem wanted q
              ≡ (not (null xs), if wanted then head? xs else none, (try_pop k elem q).1)))
        × ((size k elem q ≡ length xs)
            × (empty k elem q ≡ null xs)
            × (Option.map (front k elem q).1.buffer (front k elem q).0 ≡ head? xs))
  counted_answers wanted r = (counted_dequeue wanted r, counted_observers r)
