-- ===== src/Spsc/Flagged/Rep.antt =====
-- The values that a ring of include/spsc_test.h stands for, and the laws of its steps.
use lock_free_stuffs.Prelude.{
  ℕ, ◌+◌, ◌%◌, ◌^◌, ◌<◌, ◌≤◌, ◌≡◌, ◌≢◌, refl, ap, ◌∙◌, Bool, false, Option, some, List, [], ◌∷◌,
  ◌++◌, length, arith, word, pow_pos, add-mod_right,
}
use lock_free_stuffs.Spsc.Cells.{write, Cells}
use lock_free_stuffs.Spsc.Layout.{padding, slot, slot_index, slot_index-word}
use lock_free_stuffs.Spsc.Protocol.{Phase, quiet, staged, claimed}
use lock_free_stuffs.Spsc.Flagged.{Queue, SlotState, vacant, stored, new, state_index}

-- the state of the slot with this count
abbrev state_slot : ℕ → ℕ → ℕ
state_slot k i = slot k 1 i

module _ {ℓ} {A : Type ℓ} (direct : Bool) (k elem : ℕ) where
  pub record Rep (ph : Phase A) (found : Bool) (xs : List A) (q : Queue A) : Type ℓ where
    pub reads : ℕ
    pub read_at : q.read_index ≡ reads % word
    pub write_at : q.write_index ≡ (reads + length xs) % word
    pub fits : length xs + claimed ph ≤ 2 ^ k
    pub cells : Cells some (slot k elem) q.buffer reads (xs ++ staged ph)
    pub marked : (i : ℕ) → reads ≤ i → i < reads + length xs → q.states (slot k 1 i) ≡ stored
    pub free : (i : ℕ) → reads + length xs ≤ i → i < reads + 2 ^ k → q.states (slot k 1 i) ≡ vacant

module _ (k : ℕ) (size_ok : k ≤ 63) where
  pub at_slot : (e : ℕ) {r : ℕ} (i : ℕ) → r ≡ i % word → slot_index k e r ≡ slot k e i
  at_slot e i h = ap (slot_index k e) h ∙ slot_index-word k e i (omega arith)

  -- One turn of the ring later it is the same slot.
  pub turn : (e i : ℕ) → slot k e (i + 2 ^ k) ≡ slot k e i
  turn e i = ap (λ t. t + padding e) (add-mod_right i (2 ^ k))

  -- Stores into the state of the slot with the count `c`.
  pub other_state :
      (states : ℕ → SlotState) (s : SlotState) {w : ℕ} (c i : ℕ)
      → w ≡ c % word
      → slot k 1 i ≢ slot k 1 c
      → write states (state_index k w) s (slot k 1 i) ≡ states (slot k 1 i)
  unfolding state_index
  other_state states s c i at apart = ground (arith, at_slot 1 c at)

  pub this_state :
      (states : ℕ → SlotState) (s : SlotState) {w : ℕ} (c : ℕ)
      → w ≡ c % word
      → write states (state_index k w) s (slot k 1 c) ≡ s
  unfolding state_index
  this_state states s c at = ground (arith, at_slot 1 c at)

module _ {ℓ} {A : Type ℓ} (direct : Bool) (k elem : ℕ) (size_ok : k ≤ 63) where
  pub new-Rep : (raw : ℕ → Option A) → Rep direct k elem quiet false [] (new raw)
  unfolding new
  new-Rep raw = record {
    reads = 0;
    read_at = refl;
    write_at = refl;
    fits = omega arith;
    cells = tt;
    marked = λ i a b. absurd (omega arith);
    free = λ i a b. refl;
  }

  module _ {ph : Phase A} {f : Bool} {xs : List A} {q : Queue A}
      (r : Rep direct k elem ph f xs q) where
    pub write_state :
        q.states (state_index k q.write_index) ≡ q.states (slot k 1 (r.reads + length xs))
    unfolding state_index
    write_state = ap q.states (at_slot k size_ok 1 _ r.write_at)

    pub read_state : q.states (state_index k q.read_index) ≡ q.states (slot k 1 r.reads)
    unfolding state_index
    read_state = ap q.states (at_slot k size_ok 1 _ r.read_at)

    -- The state at the write index tells whether the ring has room.
    pub room_at : length xs < 2 ^ k → q.states (state_index k q.write_index) ≡ vacant
    room_at room = write_state ∙ r.free _ (omega arith) (omega arith)

    pub full_at : length xs ≡ 2 ^ k → q.states (state_index k q.write_index) ≡ stored
    full_at full =
        write_state
        ∙ ap (λ n. q.states (slot k 1 (r.reads + n))) full
        ∙ ap q.states (turn k size_ok 1 r.reads)
        ∙ r.marked r.reads (omega arith) (omega (arith, pow_pos k))

  -- The state at the read index tells whether there is a value.
  pub value_at :
      {ph : Phase A} {f : Bool} {x : A} {xs : List A} {q : Queue A}
      → Rep direct k elem ph f (x ∷ xs) q
      → q.states (state_index k q.read_index) ≡ stored
  value_at r = read_state r ∙ r.marked r.reads (omega arith) (omega arith)

  pub none_at :
      {ph : Phase A} {f : Bool} {q : Queue A}
      → Rep direct k elem ph f [] q
      → q.states (state_index k q.read_index) ≡ vacant
  none_at r = read_state r ∙ r.free r.reads (omega arith) (omega (arith, pow_pos k))
