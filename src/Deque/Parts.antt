-- ===== src/Deque/Parts.antt =====
-- include/work_steal_deque.h: what the parts of a call do behind their test.
use lock_free_stuffs.Prelude.{
  ℕ, ◌+◌, ◌^◌, ◌<◌, ◌≤◌, ◌≡◌, refl, sym, ap, ◌∙◌, subst, List, [], ◌∷◌, ◌++◌, length, length-append,
  length-snoc, append-nil, append_assoc, unsnoc, arith, add_size, word,
}
use lock_free_stuffs.Spsc.Cells.{write, Cells, Cells-write_next, Cells-last}
use lock_free_stuffs.Spsc.Layout.{slot, slot_index, slot_index_lem, slot-Apart}
use lock_free_stuffs.Deque.{Deque, store, store_all, load, set_bottom, settle}
use lock_free_stuffs.Deque.Rep.{Stands}

module _ {ℓ} {A : Type ℓ} (k elem : ℕ) where
  -- A value goes into the slot behind those that are pending.
  pub store-Stands :
      {ds xs : List A} {q : Deque A} (i : ℕ) (v : A)
      → Stands k elem 0 ds xs q
      → i ≡ q.bottom + length ds
      → i < q.top_cache + 2 ^ k
      → Stands k elem 0 (ds ++ (v ∷ [])) xs (store k elem i v q)
  unfolding store
  store-Stands {ds} {xs} {q} i v s at free = record {
    at = s.at;
    published = s.published;
    old = s.old;
    fits = s.fits;
    cells =
        subst (λ l. Cells (λ x. x) (slot k elem) (write q.buffer (slot_index k elem i) v) q.top l)
          (append_assoc xs ds (v ∷ []))
          (subst
            (λ p. Cells (λ x. x) (slot k elem) (write q.buffer p v) q.top ((xs ++ ds) ++ (v ∷ [])))
            (sym (slot_index_lem k elem i))
            (Cells-write_next (λ x. x) (slot k elem) (slot-Apart k elem) q.buffer v i q.top
              (xs ++ ds) (omega (arith, at, s.at, length-append xs ds))
              (omega (arith, at, s.at, s.old, free, length-append xs ds)) s.cells));
  }

  -- The loop of a batch.
  pub store_all-Stands :
      (vs : List A) {ds xs : List A} {q : Deque A} (i : ℕ)
      → Stands k elem 0 ds xs q
      → i ≡ q.bottom + length ds
      → i + length vs ≤ q.top_cache + 2 ^ k
      → q.top_cache + 2 ^ k < word
      → Stands k elem 0 (ds ++ vs) xs (store_all k elem i vs q)
        × ((store_all k elem i vs q).bottom ≡ q.bottom)
        × ((store_all k elem i vs q).top_cache ≡ q.top_cache)
  unfolding store_all store
  store_all-Stands [] {ds} {xs} {q} i s at free small =
      (subst (λ l. Stands k elem 0 l xs q) (sym (append-nil ds)) s, refl, refl)
  store_all-Stands (v ∷ vs) {ds} {xs} {q} i s at free small =
      let (s', eb, ec) =
        store_all-Stands vs {ds = ds ++ (v ∷ [])} {q = store k elem i v q} (add_size i 1)
          (store-Stands i v s at (omega arith)) (omega (arith, at, length-snoc ds v)) (omega arith)
          (omega arith) in
      (
        subst (λ l. Stands k elem 0 l xs (store_all k elem (add_size i 1) vs (store k elem i v q)))
            (append_assoc ds (v ∷ []) vs) s',
        eb,
        ec,
      )

  pub publish-Stands :
      {ds xs : List A} {q : Deque A} (b : ℕ)
      → Stands k elem 0 ds xs q
      → b ≡ q.bottom + length ds
      → b ≤ q.top_cache + 2 ^ k
      → Stands k elem 0 [] (xs ++ ds) (set_bottom b q)
  unfolding set_bottom
  publish-Stands {ds} {xs} {q} b s at free = record {
    at = omega (arith, at, s.at, length-append xs ds);
    published = refl;
    old = s.old;
    fits = omega (arith, at, s.at, s.old, length-append xs ds);
    cells =
        subst (λ l. Cells (λ x. x) (slot k elem) q.buffer q.top l) (sym (append-nil (xs ++ ds)))
          s.cells;
  }

  -- A pop lowers the bottom, and takes it back where it got nothing.
  pub lower-Stands :
      {xs : List A} {q : Deque A} (b : ℕ)
      → Stands k elem 0 [] xs q
      → b + 1 ≡ q.bottom
      → Stands k elem 1 [] xs (set_bottom b q)
  unfolding set_bottom
  lower-Stands b s at = record {
    at = omega (arith, at, s.at);
    published = refl;
    old = s.old;
    fits = s.fits;
    cells = s.cells;
  }

  pub settle-Stands :
      {xs : List A} {q : Deque A} (b cache : ℕ)
      → Stands k elem 1 [] xs q
      → b ≡ q.bottom + 1
      → cache ≤ q.top
      → Stands k elem 0 [] xs (settle b cache q)
  unfolding settle set_bottom
  settle-Stands b cache s at old = record {
    at = omega (arith, at, s.at);
    published = refl;
    old = old;
    fits = s.fits;
    cells = s.cells;
  }

  -- Where the top is below the lowered bottom, the value there is the last one and is the owner's.
  pub last_lem :
      {xs : List A} {q : Deque A}
      → Stands k elem 1 [] xs q
      → q.top ≤ q.bottom
      → (ys : List A) × (v : A) × (xs ≡ ys ++ (v ∷ []))
        × (load k elem q.bottom q ≡ v)
        × Stands k elem 0 [] ys q
  unfolding load
  last_lem {xs = []} s le = absurd (omega (arith, s.at))
  last_lem {xs = x ∷ xs} {q} s le =
      let (ys, v, e) = unsnoc x xs in
      let count : q.bottom ≡ q.top + length ys =
        omega (arith, s.at, ap length e, length-snoc ys v) in
      let (here, rest) =
        Cells-last (λ y. y) (slot k elem) q.buffer q.top ys v count
          (subst (λ l. Cells (λ y. y) (slot k elem) q.buffer q.top l) (append-nil (x ∷ xs) ∙ e)
            s.cells) in
      (
        ys,
        v,
        e,
        ap q.buffer (slot_index_lem k elem q.bottom) ∙ here,
        record {
          at = omega (arith, count);
          published = s.published;
          old = s.old;
          fits = omega (arith, s.fits, ap length e, length-snoc ys v);
          cells =
              subst (λ l. Cells (λ y. y) (slot k elem) q.buffer q.top l) (sym (append-nil ys)) rest;
        },
      )

  -- The first value is that at the top, and goes with it.
  pub first_lem :
      {off : ℕ} {ds xs : List A} {v : A} {q : Deque A}
      → Stands k elem off ds (v ∷ xs) q
      → load k elem q.top q ≡ v
  unfolding load
  first_lem {q = q} s = ap q.buffer (slot_index_lem k elem q.top) ∙ s.cells.0

  pub raise-Stands :
      {off : ℕ} {ds xs : List A} {v : A} {q : Deque A} (t : ℕ)
      → Stands k elem off ds (v ∷ xs) q
      → t ≡ q.top + 1
      → Stands k elem off ds xs (record q { top = t })
  raise-Stands {off} {ds} {xs} {v} {q} t s at = record {
    at = omega (arith, at, s.at);
    published = s.published;
    old = omega (arith, at, s.old);
    fits = omega (arith, s.fits);
    cells = subst (λ r. Cells (λ x. x) (slot k elem) q.buffer r (xs ++ ds)) (sym at) s.cells.1;
  }
