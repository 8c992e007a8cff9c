-- ===== src/Deque/Rep.antt =====
-- The values that a deque of include/work_steal_deque.h stands for, and what each part of a call does
-- to them. All is stated for indices that have not wrapped.
use lock_free_stuffs.Prelude.{
  ℕ, ◌+◌, ◌^◌, ◌<◌, ◌≤◌, ◌≡◌, refl, Bool, true, false, List, [], ◌++◌, length, leb, ◌==◌, if_split,
  arith, word,
}
use lock_free_stuffs.Spsc.Cells.{Cells}
use lock_free_stuffs.Spsc.Layout.{slot}
use lock_free_stuffs.Deque.{Deque, new, used, refresh, has_space, has_item}

module _ {ℓ} {A : Type ℓ} (k elem : ℕ) where
  -- `xs` are in, and `pending` are stored behind them; `off` is 1 while a pop has lowered the bottom
  -- below the last value.
  pub record Stands (off : ℕ) (pending xs : List A) (q : Deque A) : Type ℓ where
    pub at : q.bottom + off ≡ q.top + length xs
    pub published : q.published_bottom ≡ q.bottom
    pub old : q.top_cache ≤ q.top
    pub fits : length xs ≤ 2 ^ k
    pub cells : Cells (λ x. x) (slot k elem) q.buffer q.top (xs ++ pending)

  pub new-Stands : (raw : ℕ → A) → Stands 0 [] [] (new raw)
  unfolding new
  new-Stands raw = record {
    at = refl;
    published = refl;
    old = omega arith;
    fits = omega arith;
    cells = tt;
  }

module _ {ℓ} {A : Type ℓ} (k elem : ℕ) {xs : List A} {q : Deque A} where
  pub refresh-Stands : Stands k elem 0 [] xs q → Stands k elem 0 [] xs (refresh q)
  refresh-Stands s = record {
    at = s.at;
    published = s.published;
    old = omega arith;
    fits = s.fits;
    cells = s.cells;
  }

  -- The owner's test for room: where it passes there is a free slot behind the bottom, where it
  -- fails there is none at all.
  pub has_space_room :
      Stands k elem 0 [] xs q
      → q.bottom < word
      → (has_space k elem q).0 ≡ true
      → Stands k elem 0 [] xs (has_space k elem q).1
        × ((has_space k elem q).1.bottom < (has_space k elem q).1.top_cache + 2 ^ k)
        × ((has_space k elem q).1.bottom ≡ q.bottom)
  unfolding has_space
  has_space_room s small =
      if_split
        (λ (t : Bool × Deque A).
          t.0 ≡ true
          → Stands k elem 0 [] xs t.1
            × (t.1.bottom < t.1.top_cache + 2 ^ k)
            × (t.1.bottom ≡ q.bottom))
        (leb (2 ^ k) (used q)) (λ e pass. (refresh-Stands s, ground (arith, s.at), refl))
        (λ e pass. (s, ground (arith, s.at, s.old), refl))

  pub has_space_full :
      Stands k elem 0 [] xs q
      → q.bottom < word
      → (has_space k elem q).0 ≡ false
      → Stands k elem 0 [] xs (has_space k elem q).1
        × (length xs ≡ 2 ^ k)
        × ((has_space k elem q).1.bottom ≡ q.bottom)
  unfolding has_space
  has_space_full s small =
      if_split
        (λ (t : Bool × Deque A).
          t.0 ≡ false → Stands k elem 0 [] xs t.1 × (length xs ≡ 2 ^ k) × (t.1.bottom ≡ q.bottom))
        (leb (2 ^ k) (used q)) (λ e fail. (refresh-Stands s, ground (arith, s.at, s.fits), refl))
        (λ e fail. cc)

  -- The owner's test for a value.
  pub has_item_some :
      Stands k elem 0 [] xs q
      → (has_item q).0 ≡ true
      → Stands k elem 0 [] xs (has_item q).1
        × (1 ≤ (has_item q).1.bottom)
        × ((has_item q).1.bottom ≡ q.bottom)
  unfolding has_item
  has_item_some s =
      if_split
        (λ (t : Bool × Deque A).
          t.0 ≡ true → Stands k elem 0 [] xs t.1 × (1 ≤ t.1.bottom) × (t.1.bottom ≡ q.bottom))
        (q.bottom == q.top_cache) (λ e pass. (refresh-Stands s, ground (arith, s.at), refl))
        (λ e pass. (s, ground (arith, s.at, s.old), refl))

  pub has_item_none :
      Stands k elem 0 [] xs q
      → (has_item q).0 ≡ false
      → Stands k elem 0 [] xs (has_item q).1 × (length xs ≡ 0) × ((has_item q).1.bottom ≡ q.bottom)
  unfolding has_item
  has_item_none s =
      if_split
        (λ (t : Bool × Deque A).
          t.0 ≡ false → Stands k elem 0 [] xs t.1 × (length xs ≡ 0) × (t.1.bottom ≡ q.bottom))
        (q.bottom == q.top_cache) (λ e fail. (refresh-Stands s, ground (arith, s.at), refl))
        (λ e fail. cc)
