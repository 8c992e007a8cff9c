-- ===== src/Spsc/Flagged/Observers.antt =====
-- include/spsc_test.h: the other calls, on a ring that stands for the values `xs`.
use lock_free_stuffs.Prelude.{
  ℕ, zero, suc, ◌+◌, ◌%◌, ◌^◌, ◌≤◌, ◌≡◌, refl, sym, ap, ◌∙◌, Bool, true, false, Option, none, some,
  List, [], ◌∷◌, length, null, ltb, ◌==◌, if◌then◌else◌, if_split, Bool-cases, inl, inr, arith,
  subst, append-nil, add_size, word, mod_apart, pow-lt-word,
}
use mathlib.Core.Option
use mathlib.Core.List.{head?}
use lock_free_stuffs.Spsc.Cells.{Cells, Cells-write_other}
use lock_free_stuffs.Spsc.Layout.{slot, slot_index, slot-Apart}
use lock_free_stuffs.Spsc.Protocol.{quiet}
use lock_free_stuffs.Spsc.Owned.{destroy_range}
use lock_free_stuffs.Spsc.Owned
use lock_free_stuffs.Spsc.Flagged.{
  Queue, is_stored, has_room, has_value, try_emplace, try_pop, emplace, pop, empty, size,
  destructor,
}
use lock_free_stuffs.Spsc.Flagged.Rep.{Rep, at_slot, value_at, none_at}
use lock_free_stuffs.Spsc.Flagged.Steps.{has_room_lem, read_lem}

-- The loop of the destructor meets a live value in every round.
destroy_range_ends {ℓ} :
    {A : Type ℓ} (k elem fuel : ℕ) (xs : List A) (reads : ℕ) {r w : ℕ} (buffer : ℕ → Option A)
    → k ≤ 63
    → length xs ≤ fuel
    → length xs ≤ 2 ^ k
    → r ≡ reads % word
    → w ≡ (reads + length xs) % word
    → Cells some (slot k elem) buffer reads xs
    → (b : ℕ → Option A) × (destroy_range k elem fuel r w buffer ≡ some b)
unfolding destroy_range Owned.destroy_slot Option.bind
destroy_range_ends k elem zero [] reads buffer h enough fits er ew cells = (buffer, ground arith)
destroy_range_ends k elem (suc fuel) [] reads buffer h enough fits er ew cells =
    (buffer, ground arith)
destroy_range_ends k elem zero (x ∷ xs) reads buffer h enough fits er ew cells =
    absurd (omega arith)
destroy_range_ends k elem (suc fuel) (x ∷ xs) reads {r} {w} buffer h enough fits er ew
      (first, cells) =
    let (b, done) =
      destroy_range_ends k elem fuel xs (reads + 1) {r = add_size r 1}
        (λ p. if p == slot_index k elem r then none else buffer p) h (omega arith) (omega arith)
        (omega arith) (ew ∙ ap (λ t. t % word) (omega arith))
        (Cells-write_other some (slot k elem) buffer (slot_index k elem r) none (reads + 1) xs
          (λ i a b e.
            slot-Apart k elem reads i (omega (arith, a)) (omega (arith, b, fits))
              (sym (e ∙ at_slot k h elem reads er)))
          cells) in
    (b, rw (goes_on, ap buffer (at_slot k h elem reads er) ∙ first) done)
  where
    goes_on : (r == w) ≡ false
    goes_on = ground (
      arith,
      mod_apart word reads (reads + suc (length xs)) (omega arith)
          (omega (arith, fits, pow-lt-word k h)),
    )

module _ {ℓ} {A : Type ℓ} (direct : Bool) (k elem : ℕ) (size_ok : k ≤ 63) where
  spin_full :
      (fuel : ℕ) (v : A) (q : Queue A)
      → (has_room direct k elem q).0 ≡ false
      → emplace direct k elem fuel v q ≡ none
  unfolding emplace has_room
  spin_full zero v q full = refl
  spin_full (suc fuel) v q full = ground (arith, full, spin_full fuel v q full)

  spin_room :
      (fuel : ℕ) (v : A) (q : Queue A)
      → (has_room direct k elem q).0 ≡ true
      → emplace direct k elem (suc fuel) v q ≡ some (0, (try_emplace direct k elem v q).1)
  unfolding emplace try_emplace has_room
  spin_room fuel v q room = rw room refl

  pub flagged_emplace :
      (fuel : ℕ) (v : A) {xs : List A} {q : Queue A}
      → Rep direct k elem quiet false xs q
      → emplace direct k elem (suc fuel) v q
        ≡ (if ltb (length xs) (2 ^ k) then some (0, (try_emplace direct k elem v q).1) else none)
  flagged_emplace fuel v {xs} {q} r = elim (Bool-cases (ltb (length xs) (2 ^ k))) [
    | inl room ↦ rw room (spin_room fuel v q (has_room_lem direct k elem size_ok r ∙ room))
    | inr full ↦ rw full (spin_full (suc fuel) v q (has_room_lem direct k elem size_ok r ∙ full))
  ]

  spin_none :
      (fuel : ℕ) {q : Queue A}
      → Rep direct k elem quiet false [] q
      → pop direct k elem fuel q ≡ none
  unfolding pop is_stored
  spin_none zero r = refl
  spin_none (suc fuel) r = rw (none_at direct k elem size_ok r, spin_none fuel r)

  pub flagged_pop :
      (fuel : ℕ) {xs : List A} {q : Queue A}
      → Rep direct k elem quiet false xs q
      → pop direct k elem (suc fuel) q
        ≡ Option.map (λ x. (0, some x, (try_pop direct k elem q).1)) (head? xs)
  unfolding pop try_pop has_value is_stored
  flagged_pop fuel {xs = []} r = rw (none_at direct k elem size_ok r, spin_none fuel r)
  flagged_pop fuel {xs = x ∷ xs} r =
      rw (value_at direct k elem size_ok r, read_lem direct k elem size_ok r)

  -- For SIZE = 2^k with k ≤ 63 and a ring between calls that stands for the values `xs`: run
  -- with nobody else at work, the spinning emplace with one or more rounds of fuel ends, without
  -- a pause, with the queue that try_emplace leaves if fewer than SIZE values are in, and does
  -- not end within any fuel otherwise; and the spinning pop(T&) with one or more rounds of fuel
  -- returns, without a pause, the first value and the queue that try_pop leaves if there is a
  -- value, and does not end within any fuel otherwise.
  pub flagged_spinning :
      (fuel : ℕ) (v : A) {xs : List A} {q : Queue A}
      → Rep direct k elem quiet false xs q
      → (emplace direct k elem (suc fuel) v q
          ≡ (if ltb (length xs) (2 ^ k) then some (0, (try_emplace direct k elem v q).1) else none))
        × (pop direct k elem (suc fuel) q
            ≡ Option.map (λ x. (0, some x, (try_pop direct k elem q).1)) (head? xs))
  flagged_spinning fuel v r = (flagged_emplace fuel v r, flagged_pop fuel r)

  empty_lem :
      (xs : List A) {q : Queue A}
      → Rep direct k elem quiet false xs q
      → empty direct k elem q ≡ null xs
  unfolding empty is_stored
  empty_lem [] r = rw (none_at direct k elem size_ok r)
  empty_lem (x ∷ xs) r = rw (value_at direct k elem size_ok r)

  -- For SIZE = 2^k with k ≤ 63 and a ring between calls that stands for the values `xs`: size is
  -- the length of `xs`, empty tells whether `xs` is empty, and the destructor's loop with as many
  -- rounds of fuel as there are values, or more, ends and destroys no slot that holds no value.
  pub flagged_observers :
      (fuel : ℕ) {xs : List A} {q : Queue A}
      → Rep direct k elem quiet false xs q
      → length xs ≤ fuel
      → (size direct k elem q ≡ length xs)
        × (empty direct k elem q ≡ null xs)
        × ((b : ℕ → Option A) × (destructor direct k elem fuel q ≡ some b))
  unfolding size destructor
  flagged_observers fuel {xs} {q} r enough = (
    omega (arith, r.read_at, r.write_at, r.fits, pow-lt-word k size_ok),
    empty_lem xs r,
    if_split (λ t. (b : ℕ → Option A) × (t ≡ some b)) direct (λ e. (q.buffer, refl))
        (λ e.
          destroy_range_ends k elem fuel xs r.reads q.buffer size_ok enough (omega (arith, r.fits))
            r.read_at r.write_at
            (subst (λ l. Cells some (slot k elem) q.buffer r.reads l) (append-nil xs) r.cells)),
  )
