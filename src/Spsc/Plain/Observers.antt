-- ===== src/Spsc/Plain/Observers.antt =====
-- include/spsc.h: the other calls, on a ring that stands for the values `xs`.
use lock_free_stuffs.Prelude.{
  ℕ, zero, suc, ◌+◌, ◌-◌, ◌^◌, ◌<◌, ◌≤◌, ◌≡◌, ap₂, ◌∙◌, Bool, true, false, none, some, List, [],
  ◌∷◌, length, null, ltb, if◌then◌else◌, arith, mask, sub_size, ring_distance, pow_pos, mod-lt, not,
}
use mathlib.Core.Option
use mathlib.Core.List.{head?}
use lock_free_stuffs.Spsc.Layout.{padding, nslots}
use lock_free_stuffs.Spsc.Protocol.{Phase, quiet}
use lock_free_stuffs.Spsc.Plain.{
  Queue, has_room, has_value, load_value, discard, try_emplace, try_pop, emplace, pop, front,
  dequeue, try_dequeue, empty, size, slot_ptr,
}
use lock_free_stuffs.Spsc.Plain.Rep.{Rep, full_lem, empty_lem, write_empty_lem, load_lem}

module _ {ℓ} {A : Type ℓ} (k elem : ℕ) (size_ok : k ≤ 63) where
  pub plain_emplace :
      (fuel : ℕ) (v : A) {xs : List A} {q : Queue A}
      → Rep k elem quiet false xs q
      → emplace k elem (suc fuel) v q
        ≡ (if ltb (length xs) (2 ^ k - 1) then some (try_emplace k elem v q).1 else none)
  unfolding emplace try_emplace has_room
  plain_emplace zero v {xs} {q} r = ground (arith, full_lem k elem size_ok r, r.ring.fits)
  plain_emplace (suc fuel) v {xs} {q} r =
      ground (arith, full_lem k elem size_ok r, r.ring.fits, plain_emplace fuel v r)

  pub plain_pop :
      (fuel : ℕ) {xs : List A} {q : Queue A}
      → Rep k elem quiet false xs q
      → pop k elem (suc fuel) q ≡ Option.map (λ x. (x, discard k elem q)) (head? xs)
  unfolding pop
  plain_pop zero {xs = []} r = ground (arith, empty_lem k elem size_ok r)
  plain_pop zero {xs = x ∷ xs} r =
      ground (arith, empty_lem k elem size_ok r, load_lem k elem size_ok r)
  plain_pop (suc fuel) {xs = []} r = ground (arith, empty_lem k elem size_ok r, plain_pop fuel r)
  plain_pop (suc fuel) {xs = x ∷ xs} r =
      ground (arith, empty_lem k elem size_ok r, load_lem k elem size_ok r)

  -- For SIZE = 2^k with k ≤ 63 and a ring between calls that stands for the values `xs`: run
  -- with nobody else at work, the spinning emplace with one or more rounds of fuel ends with the
  -- queue that try_emplace leaves if fewer than SIZE - 1 values are in, and does not end within
  -- any fuel otherwise; and the spinning pop(T&) with one or more rounds of fuel returns the
  -- first value and the queue that void pop() leaves if there is a value, and does not end
  -- within any fuel otherwise.
  pub plain_spinning :
      (fuel : ℕ) (v : A) {xs : List A} {q : Queue A}
      → Rep k elem quiet false xs q
      → (emplace k elem (suc fuel) v q
          ≡ (if ltb (length xs) (2 ^ k - 1) then some (try_emplace k elem v q).1 else none))
        × (pop k elem (suc fuel) q ≡ Option.map (λ x. (x, discard k elem q)) (head? xs))
  plain_spinning fuel v r = (plain_emplace fuel v r, plain_pop fuel r)

  pub plain_dequeue :
      (wanted : Bool) {xs : List A} {q : Queue A}
      → Rep k elem quiet false xs q
      → (dequeue k elem q ≡ try_pop k elem q)
        × (try_dequeue k elem wanted q
            ≡ (not (null xs), if wanted then (try_pop k elem q).0 else none, (try_pop k elem q).1))
        × ((try_pop k elem q).0 ≡ head? xs)
  unfolding dequeue try_dequeue try_pop has_value
  plain_dequeue true {xs = []} r = ground (arith, empty_lem k elem size_ok r)
  plain_dequeue true {xs = x ∷ xs} r =
      ground (arith, empty_lem k elem size_ok r, load_lem k elem size_ok r)
  plain_dequeue false {xs = []} r = ground (arith, empty_lem k elem size_ok r)
  plain_dequeue false {xs = x ∷ xs} r =
      ground (arith, empty_lem k elem size_ok r, load_lem k elem size_ok r)

  size_at :
      {xs : List A} {q : Queue A}
      → Rep k elem quiet false xs q
      → mask k (sub_size q.write_index q.read_index) ≡ length xs
  size_at {xs} {q} r =
      ap₂ (λ w i. mask k (sub_size w i)) r.ring.write_at r.ring.read_at
      ∙ ring_distance k r.reads (length xs) (omega arith) (omega (arith, r.ring.fits))

  pub plain_observers :
      {xs : List A} {q : Queue A}
      → Rep k elem quiet false xs q
      → (size k elem q ≡ length xs)
        × (empty k elem q ≡ (null xs))
        × (Option.map q.buffer (front k elem q) ≡ head? xs)
  unfolding size empty front slot_ptr load_value
  plain_observers {xs = []} {q} r =
      (size_at r, write_empty_lem k elem size_ok r, ground (arith, empty_lem k elem size_ok r))
  plain_observers {xs = x ∷ xs} {q} r = (
    size_at r,
    write_empty_lem k elem size_ok r,
    ground (arith, empty_lem k elem size_ok r, load_lem k elem size_ok r),
  )

  -- For SIZE = 2^k with k ≤ 63 and a ring between calls that stands for the values `xs`: dequeue
  -- does what try_pop does; try_dequeue leaves the ring that try_pop leaves, says whether there
  -- was a value, and gives what try_pop gives if a pointer was passed and nothing otherwise; and
  -- try_pop gives the first of `xs`, or nothing if `xs` is empty. Size is the length of `xs`,
  -- empty tells whether `xs` is empty, and front points to the first of `xs`, or is null if `xs`
  -- is empty.
  pub plain_answers :
      (wanted : Bool) {xs : List A} {q : Queue A}
      → Rep k elem quiet false xs q
      → ((dequeue k elem q ≡ try_pop k elem q)
          × (try_dequeue k elem wanted q ≡ (
            not (null xs),
            if wanted then (try_pop k elem q).0 else none,
            (try_pop k elem q).1,
          ))
          × ((try_pop k elem q).0 ≡ head? xs))
        × ((size k elem q ≡ length xs)
            × (empty k elem q ≡ (null xs))
            × (Option.map q.buffer (front k elem q) ≡ head? xs))
  plain_answers wanted r = (plain_dequeue wanted r, plain_observers r)

  -- For SIZE = 2^k with k ≤ 63, at every step of the calls in progress on a ring that stands for
  -- `xs`: the slots at write_index + PADDING and read_index + PADDING are elements of the array,
  -- with at least PADDING further elements behind each.
  pub plain_accesses_in_range :
      {ph : Phase A} {f : Bool} {xs : List A} {q : Queue A}
      → Rep k elem ph f xs q
      → (q.write_index + padding elem + padding elem < nslots k elem)
        × (q.read_index + padding elem + padding elem < nslots k elem)
  unfolding nslots
  plain_accesses_in_range {xs} r = omega (
    arith,
    r.ring.read_at,
    r.ring.write_at,
    r.ring.fits,
    mod-lt r.reads (pow_pos k),
    mod-lt (r.reads + length xs) (pow_pos k),
  )
