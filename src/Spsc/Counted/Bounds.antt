-- ===== src/Spsc/Counted/Bounds.antt =====
-- include/spsc_4.h, spsc_5.h and the direct-slot class of spsc_final.h: the elements of the array that
-- the calls touch.
use lock_free_stuffs.Prelude.{
  ℕ, zero, suc, ◌+◌, ◌<◌, ◌≤◌, ◌≡◌, refl, sym, ap, subst, Bool, not, Option, none, some, inl, inr,
  ◌⊎◌, if_split, Bool-cases, ◌==◌, ==→eq, arith, mask_lem, pow_pos, mod-lt,
}
use mathlib.Core.Option
use lock_free_stuffs.Spsc.Layout.{padding, nslots, slot_index}
use lock_free_stuffs.Spsc.Counted.{
  Queue, looks_full, looks_empty, load_read_index, load_write_index, has_room, has_value,
  store_value, load_value, publish_write, discard, try_emplace, try_pop, emplace, pop, front,
}

-- A position behind the first padding and before the second.
abbrev pub Inner : ℕ → ℕ → ℕ → Type 0
Inner k elem j = (padding elem ≤ j) × (j + padding elem < nslots k elem)

-- The element that a call gives a pointer to is such a one.
abbrev pub Points : ℕ → ℕ → Option ℕ → Type 0
Points k elem none = Unit
Points k elem (some j) = Inner k elem j

slot_index-Inner : (k elem i : ℕ) → Inner k elem (slot_index k elem i)
unfolding nslots slot_index
slot_index-Inner k elem i = omega (arith, mask_lem k i, mod-lt i (pow_pos k))

module _ {ℓ} {A : Type ℓ} (k elem : ℕ) where
  -- Writing into the slot of a counter changes an inner element or none.
  stores_inside :
      (v : A) (q : Queue A) (j : ℕ)
      → Inner k elem j ⊎ ((store_value k elem v q).buffer j ≡ q.buffer j)
  unfolding store_value
  stores_inside v q j = elim (Bool-cases (j == slot_index k elem q.write_index)) [
    | inl same ↦ inl (
        subst (Inner k elem) (sym (==→eq j (slot_index k elem q.write_index) same))
          (slot_index-Inner k elem q.write_index))
    | inr other ↦ inr (rw other refl)
  ]

  try_emplace_inside :
      (v : A) (q : Queue A) (j : ℕ)
      → Inner k elem j ⊎ ((try_emplace k elem v q).1.buffer j ≡ q.buffer j)
  unfolding try_emplace has_room load_read_index publish_write
  try_emplace_inside v q j = elim (Bool-cases (looks_full k elem q)) [
    | inl full ↦ rw full (
        if_split (λ (r : Bool × Queue A). Inner k elem j ⊎ (r.1.buffer j ≡ q.buffer j))
          (not (looks_full k elem (load_read_index k elem q)))
          (λ e. stores_inside v (load_read_index k elem q) j) (λ e. inr refl))
    | inr room ↦ rw room (stores_inside v q j)
  ]

  -- front and try_pop make the same test, which leaves the array alone.
  has_value-buffer : (q : Queue A) → (has_value k elem q).1.buffer ≡ q.buffer
  unfolding has_value load_write_index
  has_value-buffer q =
      if_split (λ (r : Bool × Queue A). r.1.buffer ≡ q.buffer) (looks_empty k elem q) (λ e. refl)
        (λ e. refl)

  front_inside : (q : Queue A) → Points k elem (front k elem q).0
  unfolding front
  front_inside q =
      if_split (λ (r : Option ℕ × Queue A). Points k elem r.0) (has_value k elem q).0
        (λ e. slot_index-Inner k elem (has_value k elem q).1.read_index) (λ e. tt)

  try_pop_reads :
      (q : Queue A)
      → ((try_pop k elem q).0 ≡ Option.map q.buffer (front k elem q).0)
        × ((try_pop k elem q).1.buffer ≡ q.buffer)
  unfolding front try_pop load_value discard
  try_pop_reads q =
      let kept = has_value-buffer q in
      elim (Bool-cases (has_value k elem q).0) [
        | inl ready ↦
            rw ready
              (ap (λ b. some (b (slot_index k elem (has_value k elem q).1.read_index))) kept, kept)
        | inr not_ready ↦ rw not_ready (refl, kept)
      ]

  -- What a call that stores leaves in an element, and where a call that loads has its value from.
  abbrev pub Stores : ℕ → Queue A → Option (ℕ × Queue A) → Type ℓ
  Stores j q none = Unit
  Stores j q (some (n, q')) = Inner k elem j ⊎ (q'.buffer j ≡ q.buffer j)

  abbrev pub Loads : Queue A → Option (ℕ × A × Queue A) → Type ℓ
  Loads q none = Unit
  Loads q (some (n, x, q')) = (i : ℕ) × Inner k elem i × (x ≡ q.buffer i) × (q'.buffer ≡ q.buffer)

  Stores-map :
      (j n : ℕ) (q : Queue A) (o : Option (ℕ × Queue A))
      → Stores j q o
      → Stores j q (Option.map (λ (r : ℕ × Queue A). (r.0 + n, r.1)) o)
  Stores-map j n q none h = tt
  Stores-map j n q (some (m, q')) h = h

  Loads-map :
      (n : ℕ) (q : Queue A) (o : Option (ℕ × A × Queue A))
      → Loads q o
      → Loads q (Option.map (λ (r : ℕ × A × Queue A). (r.0 + n, r.1, r.2)) o)
  Loads-map n q none h = tt
  Loads-map n q (some (m, x, q')) h = h

  module _ (pauses : Bool → ℕ) where
    emplace_inside :
        (fuel : ℕ) (v : A) (q : Queue A) (j : ℕ) → Stores j q (emplace k elem pauses fuel v q)
    unfolding emplace load_read_index publish_write
    emplace_inside zero v q j = tt
    emplace_inside (suc fuel) v q j =
        if_split (Stores j q) (looks_full k elem q)
          (λ e.
            Stores-map j (pauses (looks_full k elem (load_read_index k elem q))) q
              (emplace k elem pauses fuel v (load_read_index k elem q))
              (emplace_inside fuel v (load_read_index k elem q) j))
          (λ e. stores_inside v q j)

    pop_inside : (fuel : ℕ) (q : Queue A) → Loads q (pop k elem pauses fuel q)
    unfolding pop load_write_index load_value discard
    pop_inside zero q = tt
    pop_inside (suc fuel) q =
        if_split (Loads q) (looks_empty k elem q)
          (λ e.
            Loads-map (pauses (looks_empty k elem (load_write_index k elem q))) q
              (pop k elem pauses fuel (load_write_index k elem q))
              (pop_inside fuel (load_write_index k elem q)))
          (λ e. (slot_index k elem q.read_index, slot_index-Inner k elem q.read_index, refl, refl))

    -- For SIZE = 2^k and a queue whose counters, published or cached, may be any numbers: try_emplace
    -- and, if it ends, the spinning emplace change no element of the array but those between the two
    -- paddings; the pointer that front gives, if it gives one, is to an element between the two
    -- paddings; try_pop returns what is in the element that front points to, or nothing where front is
    -- null, and leaves the array as it was; and the spinning pop(T&), if it ends, returns what is in an
    -- element between the two paddings, and leaves the array as it was.
    pub counted_accesses_in_range :
        (fuel : ℕ) (v : A) (q : Queue A) (j : ℕ)
        → (Inner k elem j ⊎ ((try_emplace k elem v q).1.buffer j ≡ q.buffer j))
          × Stores j q (emplace k elem pauses fuel v q)
          × Points k elem (front k elem q).0
          × ((try_pop k elem q).0 ≡ Option.map q.buffer (front k elem q).0)
          × ((try_pop k elem q).1.buffer ≡ q.buffer)
          × Loads q (pop k elem pauses fuel q)
    counted_accesses_in_range fuel v q j =
        let (read, kept) = try_pop_reads q in
        (
          try_emplace_inside v q j,
          emplace_inside fuel v q j,
          front_inside q,
          read,
          kept,
          pop_inside fuel q,
        )
