-- ===== src/Mpmc/States/Alone.antt =====
-- include/mpmc_1.h: the calls run with nobody else at work are those of a bounded FIFO queue.
use lock_free_stuffs.Prelude.{
  ℕ, suc, ◌+◌, ◌%◌, ◌^◌, ◌<◌, ◌≤◌, ◌≡◌, ◌≢◌, refl, sym, ap, ◌∙◌, true, false, some, List, [], ◌∷◌,
  ◌++◌, length, length-snoc, null, drop, ltb, leb, ◌==◌, ==→eq, if◌then◌else◌, Bool-cases, inl, inr,
  arith, add_size, mod_apart, pow_pos, word,
}
use native.Mathlib.Nat.{add-mod_right, pow-le-pow_right}
use mathlib.Core.List.{head?}
use lock_free_stuffs.Spsc.Cells.{write}
use lock_free_stuffs.Mpmc.Seq.Laws.{written, elsewhere}
use lock_free_stuffs.Mpmc.States.{
  vacant, storing, stored, loading, Queue, buffer_index, state_index, looks_full, looks_empty, size,
  set_state, store_value, push_direct, pop_direct, push, pop, try_emplace, try_pop,
}
use lock_free_stuffs.Mpmc.States.Rep.{
  state_at, state_apart, buffer_apart, Holds, Full-elsewhere, Full-snoc,
}

module _ {ℓ} {A : Type ℓ} (k elem : ℕ) where
  push_room :
      (fuel : ℕ) (v : A) {xs : List A} {q : Queue A}
      → Holds k elem xs q
      → q.head + 1 < word
      → length xs < 2 ^ k
      → (q' : Queue A) × (push k elem (suc fuel) v q ≡ some q') × Holds k elem (xs ++ (v ∷ [])) q'
  unfolding push push_direct set_state store_value
  push_room fuel v {xs} {q} h small room = (
    q',
    rw (next, turn) refl,
    record {
      at = omega (arith, h.at, length-snoc xs v);
      fits = omega (arith, length-snoc xs v);
      full =
          Full-snoc k elem q' q.tail xs v
            (Full-elsewhere k elem q q' p q.tail xs same
              (λ d ge lt. mod_apart (2 ^ k) d p (omega (arith, h.at)) (omega (arith, h.at, room)))
              h.full)
            (ap (λ t. q'.states (state_index k t)) (sym h.at)
              ∙ written (write q.states (state_index k p) storing) (state_index k p) stored)
            (ap (λ t. q'.buffer (buffer_index k elem t)) (sym h.at)
              ∙ written q.buffer (buffer_index k elem p) v);
      free = λ c ge lt.
          (same c (λ e. mod_apart (2 ^ k) p c (omega arith) (omega (arith, h.at)) (sym e))).0
          ∙ h.free c (omega arith) lt;
    },
  )
    where
      p : ℕ
      p = q.head

      q' : Queue A
      q' = record q {
        head = p + 1;
        buffer = write q.buffer (buffer_index k elem p) v;
        states = write (write q.states (state_index k p) storing) (state_index k p) stored;
      }

      turn : q.states (state_index k p) ≡ vacant
      turn = h.free p (omega arith) (omega (arith, h.at))

      next : add_size p 1 ≡ p + 1
      next = omega (arith, small)

      same :
          (d : ℕ)
          → d % 2 ^ k ≢ p % 2 ^ k
          → (q'.states (state_index k d) ≡ q.states (state_index k d))
            × (q'.buffer (buffer_index k elem d) ≡ q.buffer (buffer_index k elem d))
      same d ne = (
        elsewhere (write q.states (state_index k p) storing) (state_index k p) stored
              (state_index k d) (state_apart k p d ne)
            ∙ elsewhere q.states (state_index k p) storing (state_index k d) (state_apart k p d ne),
        elsewhere q.buffer (buffer_index k elem p) v (buffer_index k elem d)
            (buffer_apart k elem p d ne),
      )

  pop_value :
      (fuel : ℕ) {x : A} {xs : List A} {q : Queue A}
      → Holds k elem (x ∷ xs) q
      → q.tail + 1 < word
      → (q' : Queue A) × (pop k elem (suc fuel) q ≡ some (x, q')) × Holds k elem xs q'
  unfolding pop pop_direct set_state
  pop_value fuel {x} {xs} {q} h small = (
    q',
    rw (next, h.full.0, h.full.1) refl,
    record {
      at = omega (arith, h.at);
      fits = omega (arith, h.fits);
      full =
          Full-elsewhere k elem q q' t (t + 1) xs (λ d ne. (same d ne, refl))
            (λ d ge lt e. mod_apart (2 ^ k) t d (omega arith) (omega (arith, h.fits)) (sym e))
            h.full.2;
      free = λ c ge lt. elim (Bool-cases (c == t + 2 ^ k)) [
        | inl last ↦
            ap q'.states (
              state_at k c t
                (ap (λ y. y % 2 ^ k) (==→eq c (t + 2 ^ k) last) ∙ add-mod_right t (2 ^ k)))
            ∙ written (write q.states (state_index k t) loading) (state_index k t) vacant
        | inr inside ↦
            same c
              (λ e. mod_apart (2 ^ k) t c (omega (arith, h.at)) (ground (arith, inside)) (sym e))
            ∙ h.free c ge (ground (arith, inside))
      ];
    },
  )
    where
      t : ℕ
      t = q.tail

      q' : Queue A
      q' = record q {
        tail = t + 1;
        states = write (write q.states (state_index k t) loading) (state_index k t) vacant;
      }

      next : add_size t 1 ≡ t + 1
      next = omega (arith, small)

      same :
          (d : ℕ) → d % 2 ^ k ≢ t % 2 ^ k → q'.states (state_index k d) ≡ q.states (state_index k d)
      same d ne =
          elsewhere (write q.states (state_index k t) loading) (state_index k t) vacant
            (state_index k d) (state_apart k t d ne)
          ∙ elsewhere q.states (state_index k t) loading (state_index k d) (state_apart k t d ne)

  full_lem :
      {xs : List A} {q : Queue A}
      → k ≤ 62
      → Holds k elem xs q
      → q.head + 2 ^ k < word
      → looks_full k q ≡ leb (2 ^ k) (length xs)
  unfolding looks_full
  full_lem le h small =
      ground (arith, h.at, h.fits, small, pow-le-pow_right {n = 2} (omega arith) le)

  empty_lem :
      {xs : List A} {q : Queue A}
      → k ≤ 62
      → Holds k elem xs q
      → q.head + 2 ^ k < word
      → looks_empty q ≡ (length xs == 0)
  unfolding looks_empty
  empty_lem le h small =
      ground (arith, h.at, h.fits, small, pow-le-pow_right {n = 2} (omega arith) le)

  -- For SIZE = 2^k with k ≤ 62 and a LockFreeQueueMpmc1 between calls that holds the values `xs`, with
  -- its head below 2^64 - SIZE: run with nobody else at work, try_emplace ends in the first round of
  -- its loops, appends the value and returns true if fewer than SIZE values are in, and otherwise
  -- returns false and leaves the queue, counters, buffer and states, as it was; try_pop ends in the
  -- first round of its loops, and takes and returns the first of `xs` if there is one, and otherwise
  -- returns nothing and leaves the queue as it was; and size is the length of `xs`.
  pub states_alone :
      (fuel : ℕ) (v : A) {xs : List A} {q : Queue A}
      → k ≤ 62
      → Holds k elem xs q
      → q.head + 2 ^ k < word
      → ((pushed : Queue A) × (try_emplace k elem (suc fuel) v q
            ≡ some ((ltb (length xs) (2 ^ k), if ltb (length xs) (2 ^ k) then pushed else q)))
          × Holds k elem
              (if ltb (length xs) (2 ^ k) then xs ++ (v ∷ []) else xs)
              (if ltb (length xs) (2 ^ k) then pushed else q))
        × ((popped : Queue A) × (try_pop k elem (suc fuel) q
              ≡ some (head? xs, if null xs then q else popped))
            × Holds k elem (drop 1 xs) (if null xs then q else popped))
        × (size q ≡ length xs)
  unfolding size try_emplace try_pop
  states_alone fuel v {xs} {q} le h small = (emplaced, taken xs h, ground (arith, h.at, small))
    where
      emplaced :
          (pushed : Queue A) × (try_emplace k elem (suc fuel) v q
            ≡ some ((ltb (length xs) (2 ^ k), if ltb (length xs) (2 ^ k) then pushed else q)))
          × Holds k elem
              (if ltb (length xs) (2 ^ k) then xs ++ (v ∷ []) else xs)
              (if ltb (length xs) (2 ^ k) then pushed else q)
      emplaced = elim (Bool-cases (ltb (length xs) (2 ^ k))) [
        | inl room ↦
            let not_full : looks_full k q ≡ false = full_lem le h small ∙ ground (arith, room) in
            let (q', e, h') =
              push_room fuel v h (omega (arith, small, pow_pos k)) (ground (arith, room)) in
            rw (room, not_full, e) (q', refl, h')
        | inr crowded ↦
            let is_full : looks_full k q ≡ true = full_lem le h small ∙ ground (arith, crowded) in
            rw (crowded, is_full) (q, refl, h)
      ]

      taken :
          (ys : List A)
          → Holds k elem ys q
          → (popped : Queue A) × (try_pop k elem (suc fuel) q
              ≡ some (head? ys, if null ys then q else popped))
            × Holds k elem (drop 1 ys) (if null ys then q else popped)
      taken [] h' = (q, rw (empty_lem le h' small) refl, h')
      taken (y ∷ ys) h' =
          let some_in : looks_empty q ≡ false = empty_lem le h' small ∙ ground arith in
          let (q', e, h'') = pop_value fuel h' (omega (arith, small, h'.at, pow_pos k)) in
          rw (some_in, e) (q', refl, h'')
