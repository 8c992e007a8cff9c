-- ===== src/Deque/Bulk.antt =====
-- include/work_steal_deque.h: batches. A stale top_cache may let fewer values in than there is room
-- for, but never none where there is room.
use lock_free_stuffs.Prelude.{
  ℕ, zero, suc, ◌+◌, ◌-◌, ◌^◌, ◌<◌, ◌≤◌, ◌≡◌, refl, sym, ap, ◌∙◌, subst, false, ◌||◌, some, List,
  [], ◌∷◌, ◌++◌, length, length-append, length-take, length-drop, append-nil, append_assoc, take,
  drop, ◌==◌, Bool-cases, inl, inr, arith, add_size, word,
}
use lock_free_stuffs.Deque.{
  Deque, has_space, store_all, set_bottom, room, try_bulk_push_bottom, bulk_push_bottom,
}
use lock_free_stuffs.Deque.Rep.{Stands, has_space_room, has_space_full}
use lock_free_stuffs.Deque.Parts.{store_all-Stands, publish-Stands}

module _ {ℓ} {A : Type ℓ} (k elem : ℕ) where
  -- The test has passed.
  batch :
      (vs : List A) {xs : List A} {q : Deque A}
      → Stands k elem 0 [] xs q
      → q.bottom < q.top_cache + 2 ^ k
      → q.bottom + 2 ^ k < word
      → Stands k elem 0 [] (xs ++ take (room k elem (length vs) q) vs) (
          set_bottom
            (add_size q.bottom (room k elem (length vs) q))
            (store_all k elem q.bottom (take (room k elem (length vs) q) vs) q))
  batch vs {xs} {q} s free small =
      let n : ℕ = room k elem (length vs) q in
      let count : length (take n vs) ≡ n = length-take n vs (omega arith) in
      let fits : q.bottom + n ≤ q.top_cache + 2 ^ k = omega (arith, s.at, s.old) in
      let (s', eb, ec) =
        store_all-Stands k elem (take n vs) q.bottom s (omega arith) (omega (arith, count))
          (omega (arith, s.at, s.old)) in
      publish-Stands k elem (add_size q.bottom n) s' (omega (arith, count, eb, fits, s.at, s.old))
        (omega (arith, ec, fits))

  -- What a batch of `vs` has done to `xs`, with the reply `n`: it took the first `n`, as many as it
  -- said and no more than there are, and none only if there are none or there was no room.
  pub record Batch (vs xs : List A) (q : Deque A) (n : ℕ) (q' : Deque A) : Type ℓ where
    pub stands : Stands k elem 0 [] (xs ++ take n vs) q'
    pub at_most : n ≤ length vs
    pub none_in : (n == 0) ≡ ((length vs == 0) || (length xs == 2 ^ k))
    pub moved : q'.bottom ≡ q.bottom + n

  -- For N = 2^k and a deque between calls that stands for the values `xs`, with its bottom below
  -- 2^64 - N: try_bulk_push_bottom appends the first so many of the values as it returns, which is 0
  -- if there is no value or N values are in, and not 0 otherwise.
  pub deque-Batch :
      (vs : List A) {xs : List A} {q : Deque A}
      → Stands k elem 0 [] xs q
      → q.bottom + 2 ^ k < word
      → Batch vs xs q (try_bulk_push_bottom k elem vs q).0 (try_bulk_push_bottom k elem vs q).1
  unfolding try_bulk_push_bottom set_bottom
  deque-Batch [] {xs} {q} s small = record {
    stands = subst (λ l. Stands k elem 0 [] l q) (sym (append-nil xs)) s;
    at_most = omega arith;
    none_in = refl;
    moved = omega arith;
  }
  deque-Batch (v ∷ vs) {xs} {q} s small = elim (Bool-cases (has_space k elem q).0) [
    | inl pass ↦
        let (s', free, same) = has_space_room k elem s (omega arith) pass in
        rw (pass, some_values)
          (record {
            stands = batch (v ∷ vs) s' free (omega arith);
            at_most = omega arith;
            none_in = ground (arith, s'.at, s'.old, free);
            moved = omega (arith, s'.at, s'.old, free);
          })
    | inr fail ↦
        let (s', full, same) = has_space_full k elem s (omega arith) fail in
        rw (fail, some_values)
          (record {
            stands =
                subst (λ l. Stands k elem 0 [] l (has_space k elem q).1) (sym (append-nil xs)) s';
            at_most = omega arith;
            none_in = ground (arith, full);
            moved = omega arith;
          })
  ]
    where
      some_values : (length (v ∷ vs) == 0) ≡ false
      some_values = ground arith

take-drop {ℓ} : {A : Type ℓ} (n : ℕ) (xs : List A) → take n xs ++ drop n xs ≡ xs
take-drop zero xs = refl
take-drop (suc n) [] = refl
take-drop (suc n) (x ∷ xs) = ap (λ l. x ∷ l) (take-drop n xs)

-- For N = 2^k and a deque between calls that stands for the values `xs`, with its bottom below
-- 2^64 - N by more than there are values to push: run with nobody else at work, bulk_push_bottom ends
-- where the values fit, without a pause and within as many rounds as there are values, and has
-- appended them all.
pub deque_bulk_push {ℓ} :
    {A : Type ℓ} (k elem fuel : ℕ) (vs : List A) {xs : List A} {q : Deque A}
    → Stands k elem 0 [] xs q
    → q.bottom + length vs + 2 ^ k < word
    → length xs + length vs ≤ 2 ^ k
    → length vs ≤ fuel
    → (r : Deque A) × (bulk_push_bottom k elem fuel vs q ≡ some (0, r))
      × Stands k elem 0 [] (xs ++ vs) r
unfolding bulk_push_bottom
deque_bulk_push k elem zero [] {xs} {q} s small fits enough =
    (q, refl, subst (λ l. Stands k elem 0 [] l q) (sym (append-nil xs)) s)
deque_bulk_push k elem (suc fuel) [] {xs} {q} s small fits enough =
    (q, refl, subst (λ l. Stands k elem 0 [] l q) (sym (append-nil xs)) s)
deque_bulk_push k elem zero (v ∷ vs) s small fits enough = absurd (omega arith)
deque_bulk_push k elem (suc fuel) (v ∷ vs) {xs} {q} s small fits enough =
    let b = deque-Batch k elem (v ∷ vs) s (omega arith) in
    let n : ℕ = (try_bulk_push_bottom k elem (v ∷ vs) q).0 in
    let some_in : (n == 0) ≡ false = b.none_in ∙ ground arith in
    let left : length (drop n (v ∷ vs)) ≡ length (v ∷ vs) - n = length-drop n (v ∷ vs) in
    let more : length (xs ++ take n (v ∷ vs)) ≡ length xs + n =
      length-append xs (take n (v ∷ vs))
      ∙ ap (λ c. length xs + c) (length-take n (v ∷ vs) b.at_most) in
    let (r, e, s') =
      deque_bulk_push k elem fuel (drop n (v ∷ vs)) b.stands (omega (arith, b.moved)) (omega arith)
        (ground (arith, some_in)) in
    (
      r,
      rw (some_values, some_in) e,
      subst (λ l. Stands k elem 0 [] l r)
          (append_assoc xs (take n (v ∷ vs)) (drop n (v ∷ vs))
            ∙ ap (λ l. xs ++ l) (take-drop n (v ∷ vs)))
          s',
    )
  where
    some_values : (length (v ∷ vs) == 0) ≡ false
    some_values = ground arith
