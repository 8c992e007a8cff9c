-- ===== src/Deque/Calls.antt =====
-- include/work_steal_deque.h: a call that runs with nobody in between refines the specification.
use lock_free_stuffs.Prelude.{
  ℕ, suc, ◌+◌, ◌^◌, ◌<◌, ◌≤◌, ◌≡◌, refl, sym, ap, ap₂, ◌∙◌, subst, true, false, none, some, List,
  [], ◌∷◌, ◌++◌, length, ltb, leb, ◌==◌, if_split, eq→==, ==→eq, Bool-cases, inl, inr, arith,
  add_size, sub_size, word,
}
use lock_free_stuffs.Deque.{
  Deque, new, has_space, has_item, store, load, set_bottom, settle, cas_top, take_bottom,
  try_push_bottom, try_pop_bottom, try_steal_top,
}
use lock_free_stuffs.Deque.Spec
use lock_free_stuffs.Deque.Spec.{Op, put, get_bottom, get_top, put_was, got, spec}
use lock_free_stuffs.Deque.Rep.{
  Stands, refresh-Stands, new-Stands, has_space_room, has_space_full, has_item_some, has_item_none,
}
use lock_free_stuffs.Deque.Parts.{
  store-Stands, publish-Stands, lower-Stands, settle-Stands, last_lem, first_lem, raise-Stands,
}

-- the owner's calls, and a thief's
abbrev pub calls {ℓ} : {A : Type ℓ} → ℕ → ℕ → Spec.Calls A (Deque A)
calls k elem = record {
  push = try_push_bottom k elem;
  pop = try_pop_bottom k elem;
  steal = try_steal_top k elem;
}

pop-snoc {ℓ} : {A : Type ℓ} (xs : List A) (v : A) → Spec.pop (xs ++ (v ∷ [])) ≡ (some v, xs)
unfolding Spec.pop
pop-snoc [] v = refl
pop-snoc (x ∷ []) v = refl
pop-snoc (x ∷ y ∷ xs) v = rw (pop-snoc (y ∷ xs) v)

pub empty_list {ℓ} : {A : Type ℓ} (xs : List A) → length xs ≡ 0 → xs ≡ []
empty_list [] h = refl
empty_list (x ∷ xs) h = absurd (omega arith)

-- What a call has done to `xs`, with at most `n` added to the bottom.
abbrev Done {ℓ κ} :
    {A : Type ℓ} {R : Type κ} → ℕ → ℕ → ℕ → Deque A → R × List A → R × Deque A → Type (ℓ ⊔ κ)
Done k elem n q (r, ys) (r', q') = (r' ≡ r) × Stands k elem 0 [] ys q' × (q'.bottom ≤ q.bottom + n)

module _ {ℓ} {A : Type ℓ} (k elem : ℕ) where
  push_lem :
      (v : A) {xs : List A} {q : Deque A}
      → Stands k elem 0 [] xs q
      → q.bottom + 2 ^ k + 1 < word
      → Done k elem 1 q (Spec.push (2 ^ k) v xs) (try_push_bottom k elem v q)
  unfolding Spec.push try_push_bottom store set_bottom
  push_lem v {xs} {q} s small = elim (Bool-cases (has_space k elem q).0) [
    | inl pass ↦
        let (s', free, same) = has_space_room k elem s (omega arith) pass in
        let roomy : ltb (length xs) (2 ^ k) ≡ true = ground (arith, s'.at, s'.old) in
        let next : add_size (has_space k elem q).1.bottom 1 ≡ (has_space k elem q).1.bottom + 1 =
          omega arith in
        rw (pass, roomy)
          (
            refl,
            publish-Stands k elem _
                (store-Stands k elem (has_space k elem q).1.bottom v s' (omega arith) free) next
                (omega (arith, free)),
            omega arith,
          )
    | inr fail ↦
        let (s', full, same) = has_space_full k elem s (omega arith) fail in
        let crowded : ltb (length xs) (2 ^ k) ≡ false = ground arith in
        rw (fail, crowded) (refl, s', omega arith)
  ]

  -- The owner's compare and swap has taken the only value.
  won :
      {xs : List A} {q : Deque A}
      → Stands k elem 1 [] xs q
      → (v : A) {ys : List A} → xs ≡ ys ++ (v ∷ [])
      → Stands k elem 0 [] ys q
      → q.top ≡ q.bottom
      → q.bottom + 1 < word
      → Stands k elem 0 [] ys
          (settle (add_size q.bottom 1) (add_size q.bottom 1) (record q { top = add_size q.top 1 }))
  won {xs} {q} s v {ys} e s' last small =
      let none_left : ys ≡ [] = empty_list ys (omega (arith, s'.at)) in
      let only : Stands k elem 1 [] (v ∷ []) q =
        subst (λ l. Stands k elem 1 [] l q) (e ∙ ap (λ l. l ++ (v ∷ [])) none_left) s in
      subst
        (λ l. Stands k elem 0 [] l (
          settle (add_size q.bottom 1) (add_size q.bottom 1) (record q { top = add_size q.top 1 })))
        (sym none_left)
        (settle-Stands k elem (add_size q.bottom 1) (add_size q.bottom 1)
          (raise-Stands k elem (add_size q.top 1) only (omega arith)) (omega arith) (omega arith))

  -- The lowered bottom and the top decide who has the last value.
  take_lem :
      {xs : List A} {q : Deque A}
      → Stands k elem 1 [] xs q
      → q.bottom + 1 < word
      → Done k elem 1 q (Spec.pop xs) (take_bottom k elem q)
  unfolding take_bottom cas_top load settle set_bottom Spec.pop
  take_lem {xs} {q} s small =
      if_split (λ t. Done k elem 1 q (Spec.pop xs) t) (ltb q.bottom q.top)
        (λ above.
          let none_left : xs ≡ [] = empty_list xs (ground (arith, s.at)) in
          subst (λ l. Done k elem 1 q (Spec.pop l) (none, settle (add_size q.bottom 1) q.top q))
            (sym none_left)
            (
              refl,
              settle-Stands k elem (add_size q.bottom 1) q.top
                  (subst (λ l. Stands k elem 1 [] l q) none_left s) (omega arith) (omega arith),
              omega arith,
            ))
        (λ below.
          let (ys, v, e, it, s') = last_lem k elem s (ground arith) in
          let reply : Spec.pop xs ≡ (some v, ys) = ap Spec.pop e ∙ pop-snoc ys v in
          if_split (λ t. Done k elem 1 q (Spec.pop xs) t) (q.top == q.bottom)
            (λ last.
              rw (reply, eq→== q.top q.top refl)
                (ap some it, won s v e s' (==→eq q.top q.bottom last) small, omega arith))
            (λ more. rw reply (ap some it, refresh-Stands k elem s', omega arith)))

  pop_lem :
      {xs : List A} {q : Deque A}
      → Stands k elem 0 [] xs q
      → q.bottom + 1 < word
      → Done k elem 0 q (Spec.pop xs) (try_pop_bottom k elem q)
  unfolding try_pop_bottom Spec.pop set_bottom
  pop_lem {xs} {q} s small = elim (Bool-cases (has_item q).0) [
    | inl pass ↦
        let (s', pos, same) = has_item_some k elem s pass in
        let (reply, s2, low) =
          take_lem (lower-Stands k elem (sub_size (has_item q).1.bottom 1) s' (omega arith))
            (omega arith) in
        rw pass (reply, s2, omega arith)
    | inr fail ↦
        let (s', none_left, same) = has_item_none k elem s fail in
        let e : xs ≡ [] = empty_list xs none_left in
        rw fail (
          subst (λ l. Done k elem 0 q (Spec.pop l) (none, (has_item q).1)) (sym e)
            (refl, subst (λ l. Stands k elem 0 [] l (has_item q).1) e s', omega arith))
  ]

  steal_lem :
      {xs : List A} {q : Deque A}
      → Stands k elem 0 [] xs q
      → q.bottom + 1 < word
      → Done k elem 0 q (Spec.steal xs) (try_steal_top k elem q)
  unfolding try_steal_top Spec.steal cas_top
  steal_lem {xs = []} {q} s small = elim (Bool-cases (leb q.published_bottom q.top)) [
    | inl none_left ↦ rw none_left (refl, s, omega arith)
    | inr some_left ↦ absurd (ground (arith, s.at, s.published))
  ]
  steal_lem {xs = x ∷ xs} {q} s small = elim (Bool-cases (leb q.published_bottom q.top)) [
    | inl none_left ↦ absurd (ground (arith, s.at, s.published))
    | inr some_left ↦
        rw (some_left, eq→== q.top q.top refl)
          (
            ap some (first_lem k elem s),
            raise-Stands k elem (add_size q.top 1) s (omega arith),
            omega arith,
          )
  ]

-- how many pushes a script has
abbrev pub puts {ℓ} : {A : Type ℓ} → List (Op A) → ℕ
puts [] = 0
puts (put v ∷ ops) = suc (puts ops)
puts (get_bottom ∷ ops) = puts ops
puts (get_top ∷ ops) = puts ops

-- From a deque that stands for `xs`.
run_lem {ℓ} :
    {A : Type ℓ} (k elem : ℕ) (ops : List (Op A)) (xs : List A) (q : Deque A)
    → Stands k elem 0 [] xs q
    → q.bottom + puts ops + 2 ^ k + 1 < word
    → Spec.run (calls k elem) q ops ≡ Spec.run (spec (2 ^ k)) xs ops
unfolding Spec.run
run_lem k elem [] xs q s small = refl
run_lem k elem (put v ∷ ops) xs q s small =
    let (reply, s', low) = push_lem k elem v s (omega arith) in
    ap₂ ◌∷◌ (ap put_was reply) (run_lem k elem ops _ _ s' (omega arith))
run_lem k elem (get_bottom ∷ ops) xs q s small =
    let (reply, s', low) = pop_lem k elem s (omega arith) in
    ap₂ ◌∷◌ (ap got reply) (run_lem k elem ops _ _ s' (omega arith))
run_lem k elem (get_top ∷ ops) xs q s small =
    let (reply, s', low) = steal_lem k elem s (omega arith) in
    ap₂ ◌∷◌ (ap got reply) (run_lem k elem ops _ _ s' (omega arith))

-- For N = 2^k, every sequence of try_push_bottom, try_pop_bottom and try_steal_top calls on a new
-- WorkStealDeque, each run with nobody in between and with fewer than 2^64 - N - 1 pushes among them,
-- gets the replies of a list of at most N values that is pushed and popped at its end and stolen from
-- at its front.
pub deque_refines {ℓ} :
    {A : Type ℓ} (k elem : ℕ) (raw : ℕ → A) (ops : List (Op A))
    → puts ops + 2 ^ k + 1 < word
    → Spec.run (calls k elem) (new raw) ops ≡ Spec.run (spec (2 ^ k)) [] ops
unfolding new
deque_refines k elem raw ops small =
    run_lem k elem ops [] (new raw) (new-Stands k elem raw) (omega arith)
