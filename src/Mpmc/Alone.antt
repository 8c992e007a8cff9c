-- ===== src/Mpmc/Alone.antt =====
-- include/mpmc_seq.h and include/mpmc_seq_split.h: what the calls that do not wait answer with nobody
-- else at work.
use lock_free_stuffs.Prelude.{
  ℕ, suc, ◌+◌, ◌%◌, ◌^◌, ◌<◌, ◌≤◌, ◌≡◌, ◌≢◌, refl, sym, ap, ◌∙◌, true, false, none, some, List, [],
  ◌∷◌, ◌++◌, length, length-snoc, null, drop, ltb, ◌==◌, eq→==, ==→eq, if◌then◌else◌, Bool-cases,
  inl, inr, arith, add_size, mod_apart, pow_pos,
}
use native.Mathlib.Nat.{add-mod_right, mod-eq_of_lt}
use mathlib.Core.List.{head?}
use lock_free_stuffs.Mpmc.Ring.{Queue, Ring, Lawful}
use lock_free_stuffs.Mpmc.Machine.{has_turn, behind}
use lock_free_stuffs.Mpmc.Calls.{try_emplace, try_pop, Holds, Full-elsewhere, Full-snoc}

module _ {ℓ} {A M : Type ℓ} (k : ℕ) (R : Ring A M) (law : Lawful k R) where
  emplace_room :
      (fuel : ℕ) (v : A) {xs : List A} {q : Queue M}
      → Holds k R xs q
      → q.head + 2 ^ k + 1 < 2 ^ 63
      → length xs < 2 ^ k
      → (q' : Queue M) × (try_emplace k R (suc fuel) v q ≡ some (true, q'))
        × Holds k R (xs ++ (v ∷ [])) q'
  unfolding try_emplace has_turn
  emplace_room fuel v {xs} {q} h small room = (
    record q { head = p + 1; slots = mem },
    rw (eq→== (R.number p q.slots) p turn, next) refl,
    record {
      at = omega (arith, h.at, length-snoc xs v);
      fits = omega (arith, length-snoc xs v);
      full =
          Full-snoc k R law mem q.tail xs v
            (Full-elsewhere k R law q.slots mem p q.tail xs same
              (λ d ge lt. mod_apart (2 ^ k) d p (omega (arith, h.at)) (omega (arith, h.at, room)))
              h.full)
            (ap (λ t. R.number t mem) (sym h.at)
              ∙ law.number_stored p (p + 1) (R.store_value p v q.slots)
              ∙ omega (arith, h.at))
            (ap (λ t. R.value t mem) (sym h.at)
              ∙ law.value_number p p (p + 1) (R.store_value p v q.slots)
              ∙ law.value_stored p v q.slots);
      free = λ c ge lt.
          (same c (λ e. mod_apart (2 ^ k) p c (omega arith) (omega (arith, h.at)) (sym e))).0
          ∙ h.free c (omega arith) lt;
    },
  )
    where
      p : ℕ
      p = q.head

      turn : R.number p q.slots ≡ p
      turn = h.free p (omega arith) (omega (arith, h.at))

      mem : M
      mem = R.store_number p (p + 1) (R.store_value p v q.slots)

      next : add_size p 1 ≡ p + 1
      next = omega (arith, small)

      same :
          (d : ℕ)
          → d % 2 ^ k ≢ p % 2 ^ k
          → (R.number d mem ≡ R.number d q.slots) × (R.value d mem ≡ R.value d q.slots)
      same d ne = (
        law.number_other p d (p + 1) (R.store_value p v q.slots) ne
            ∙ law.number_value p d v q.slots,
        law.value_number p d (p + 1) (R.store_value p v q.slots) ∙ law.value_other p d v q.slots ne,
      )

  -- With two slots or more, where all hold values the number of the head's slot is that of a pop.
  emplace_full :
      (fuel : ℕ) (v : A) {xs : List A} {q : Queue M}
      → 2 ≤ 2 ^ k
      → Holds k R xs q
      → q.head + 2 ^ k + 1 < 2 ^ 63
      → length xs ≡ 2 ^ k
      → try_emplace k R (suc fuel) v q ≡ some (false, q)
  unfolding try_emplace has_turn behind
  emplace_full fuel v {xs = []} two h small crowded = absurd (omega arith)
  emplace_full fuel v {xs = x ∷ xs} {q} two h small crowded =
      let number : R.number q.head q.slots ≡ q.tail + 1 =
        law.number_at q.head q.tail q.slots
          (ap (λ t. t % 2 ^ k) (h.at ∙ ap (λ n. q.tail + n) crowded) ∙ add-mod_right q.tail (2 ^ k))
        ∙ h.full.0 in
      ground (arith, number, h.at, small)

  pop_value :
      (fuel : ℕ) {x : A} {xs : List A} {q : Queue M}
      → Holds k R (x ∷ xs) q
      → q.head + 2 ^ k + 1 < 2 ^ 63
      → (q' : Queue M) × (try_pop k R (suc fuel) q ≡ some (some x, q')) × Holds k R xs q'
  unfolding try_pop has_turn
  pop_value fuel {x} {xs} {q} h small = (
    record q { tail = t + 1; slots = mem },
    rw (next, round, eq→== (R.number t q.slots) (t + 1) h.full.0, h.full.1) refl,
    record {
      at = omega (arith, h.at);
      fits = omega (arith, h.fits);
      full =
          Full-elsewhere k R law q.slots mem t (t + 1) xs same
            (λ d ge lt e. mod_apart (2 ^ k) t d (omega arith) (omega (arith, h.fits)) (sym e))
            h.full.2;
      free = λ c ge lt. elim (Bool-cases (c == t + 2 ^ k)) [
        | inl last ↦
            let e : c ≡ t + 2 ^ k = ==→eq c (t + 2 ^ k) last in
            law.number_at c t mem (ap (λ y. y % 2 ^ k) e ∙ add-mod_right t (2 ^ k))
            ∙ law.number_stored t (t + 2 ^ k) q.slots
            ∙ sym e
        | inr inside ↦
            (same c
              (λ e. mod_apart (2 ^ k) t c (omega (arith, h.at)) (ground (arith, inside)) (sym e))).0
            ∙ h.free c ge (ground (arith, inside))
      ];
    },
  )
    where
      t : ℕ
      t = q.tail

      next : add_size t 1 ≡ t + 1
      next = omega (arith, small, h.at)

      round : add_size t (2 ^ k) ≡ t + 2 ^ k
      round = omega (arith, small, h.at)

      mem : M
      mem = R.store_number t (t + 2 ^ k) q.slots

      same :
          (d : ℕ)
          → d % 2 ^ k ≢ t % 2 ^ k
          → (R.number d mem ≡ R.number d q.slots) × (R.value d mem ≡ R.value d q.slots)
      same d ne =
          (law.number_other t d (t + 2 ^ k) q.slots ne, law.value_number t d (t + 2 ^ k) q.slots)

  pop_none :
      (fuel : ℕ) {q : Queue M}
      → Holds k R [] q
      → q.head + 2 ^ k + 1 < 2 ^ 63
      → try_pop k R (suc fuel) q ≡ some (none, q)
  unfolding try_pop has_turn behind
  pop_none fuel {q} h small =
      let number : R.number q.tail q.slots ≡ q.tail =
        h.free q.tail (omega (arith, h.at)) (omega (arith, pow_pos k)) in
      ground (arith, number, h.at, small)

  pub new-Holds :
      (made : M)
      → ((c : ℕ) → R.number c made ≡ c % 2 ^ k)
      → Holds k R [] (record { head = 0; tail = 0; slots = made })
  new-Holds made numbered = record {
    at = refl;
    fits = omega arith;
    full = tt;
    free = λ c ge lt. numbered c ∙ mod-eq_of_lt {n = c} {m = 2 ^ k} (omega arith);
  }

  -- For SIZE = 2^k of at least two and a LockFreeQueueMpmcSeq or LockFreeQueueMpmcSeqSplit between
  -- calls that holds the values `xs`, with its head below 2^63 - SIZE - 1: run with nobody else at
  -- work, try_emplace ends in its first round, appends the value and returns true if fewer than SIZE
  -- values are in, and otherwise returns false and leaves the queue, counters and slots, as it was; and
  -- try_pop ends in its first round, and takes and returns the first of `xs` if there is one, and
  -- otherwise returns nothing and leaves the queue as it was.
  pub calls_alone :
      (fuel : ℕ) (v : A) {xs : List A} {q : Queue M}
      → 2 ≤ 2 ^ k
      → Holds k R xs q
      → q.head + 2 ^ k + 1 < 2 ^ 63
      → ((pushed : Queue M) × (try_emplace k R (suc fuel) v q
            ≡ some ((ltb (length xs) (2 ^ k), if ltb (length xs) (2 ^ k) then pushed else q)))
          × Holds k R
              (if ltb (length xs) (2 ^ k) then xs ++ (v ∷ []) else xs)
              (if ltb (length xs) (2 ^ k) then pushed else q))
        × ((popped : Queue M) × (try_pop k R (suc fuel) q
              ≡ some (head? xs, if null xs then q else popped))
            × Holds k R (drop 1 xs) (if null xs then q else popped))
  calls_alone fuel v {xs} {q} two h small = (emplaced, taken xs h)
    where
      emplaced :
          (pushed : Queue M) × (try_emplace k R (suc fuel) v q
            ≡ some ((ltb (length xs) (2 ^ k), if ltb (length xs) (2 ^ k) then pushed else q)))
          × Holds k R
              (if ltb (length xs) (2 ^ k) then xs ++ (v ∷ []) else xs)
              (if ltb (length xs) (2 ^ k) then pushed else q)
      emplaced = elim (Bool-cases (ltb (length xs) (2 ^ k))) [
        | inl room ↦ rw room (emplace_room fuel v h small (ground (arith, room)))
        | inr crowded ↦
            rw crowded (q, emplace_full fuel v two h small (ground (arith, crowded, h.fits)), h)
      ]

      taken :
          (ys : List A)
          → Holds k R ys q
          → (popped : Queue M) × (try_pop k R (suc fuel) q
              ≡ some (head? ys, if null ys then q else popped))
            × Holds k R (drop 1 ys) (if null ys then q else popped)
      taken [] h' = (q, pop_none fuel h' small, h')
      taken (y ∷ ys) h' = pop_value fuel h' small
