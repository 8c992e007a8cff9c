-- ===== src/Spsc/Cells.antt =====
-- A circular array read as a list: cell `slot (r + i)` holds element `i`, as a
-- cell stores it. The physical position
-- of a logical index is a parameter, since the queues compute it in different ways.
use lock_free_stuffs.Prelude.{
  ℕ, ◌+◌, ◌≤◌, ◌<◌, ◌≡◌, ◌≢◌, ap, ◌∙◌, List, [], ◌∷◌, ◌++◌, length, ◌==◌, if◌then◌else◌, arith,
}

-- an assignment to one array element
abbrev pub write {ℓ} : {B : Type ℓ} → (ℕ → B) → ℕ → B → ℕ → B
write buffer p v j = if j == p then v else buffer j

-- Two logical indices fewer than `n` apart stand in different cells.
abbrev pub Apart : ℕ → (ℕ → ℕ) → Type 0
Apart n slot = (i j : ℕ) → i < j → j < i + n → slot i ≢ slot j

module _ {ℓ} {A B : Type ℓ} (stored : A → B) (slot : ℕ → ℕ) where
  abbrev pub Cells : (ℕ → B) → ℕ → List A → Type ℓ
  Cells buffer r [] = Unit
  Cells buffer r (x ∷ xs) = (buffer (slot r) ≡ stored x) × Cells buffer (r + 1) xs

  -- A write to a cell of none of the elements leaves the list as it is.
  pub Cells-write_other :
      (buffer : ℕ → B) (p : ℕ) (v : B) (r : ℕ) (xs : List A)
      → ((i : ℕ) → r ≤ i → i < r + length xs → slot i ≢ p)
      → Cells buffer r xs
      → Cells (write buffer p v) r xs
  Cells-write_other buffer p v r [] h c = tt
  Cells-write_other buffer p v r (x ∷ xs) h (e, c) = (
    ground (arith, h r),
    Cells-write_other buffer p v (r + 1) xs (λ i a b. h i (omega arith) (omega arith)) c,
  )

  -- A write behind the last element appends.
  pub Cells-write_next :
      {n : ℕ}
      → Apart n slot
      → (buffer : ℕ → B) (v : A) (t r : ℕ) (xs : List A) → t ≡ r + length xs
      → length xs < n
      → Cells buffer r xs
      → Cells (write buffer (slot t) (stored v)) r (xs ++ (v ∷ []))
  Cells-write_next apart buffer v t r [] at h c = (ground (arith, ap slot at), tt)
  Cells-write_next apart buffer v t r (x ∷ xs) at h (e, c) = (
    ground (arith, apart r t),
    Cells-write_next apart buffer v t (r + 1) xs (omega arith) (omega arith) c,
  )

  -- The last element, and those before it.
  pub Cells-last :
      (buffer : ℕ → B) (r : ℕ) (xs : List A) (v : A) {t : ℕ}
      → t ≡ r + length xs
      → Cells buffer r (xs ++ (v ∷ []))
      → (buffer (slot t) ≡ stored v) × Cells buffer r xs
  Cells-last buffer r [] v at (e, c) = (ap (λ i. buffer (slot i)) (omega (arith, at)) ∙ e, tt)
  Cells-last buffer r (x ∷ xs) v at (e, c) =
      let (last, rest) = Cells-last buffer (r + 1) xs v (omega (arith, at)) c in (last, (e, rest))
