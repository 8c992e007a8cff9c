-- ===== src/Deque/Own.antt =====
-- include/work_steal_deque.h: every step of the owner keeps the invariant.
use lock_free_stuffs.Prelude.{
  ℕ, ◌+◌, ◌^◌, ◌≤◌, ◌≡◌, refl, sym, ap, ◌∙◌, subst, Bool, some, List, [], ◌∷◌, ◌++◌, length,
  length-append, length-snoc, length-take, take, ltb, leb, ◌==◌, ==→eq, if_split, Bool-cases, inl,
  inr, arith, add_size, sub_size,
}
use mathlib.Core.List.{head?}
use lock_free_stuffs.Deque.{
  Deque, has_space, has_item, store, load, room, used, set_bottom, settle, cas_top, refresh,
}
use lock_free_stuffs.Deque.Spec.{pushed, refused, popped, push_end, refuse, pop_end, Runs}
use lock_free_stuffs.Deque.Rep.{
  Stands, refresh-Stands, has_space_room, has_space_full, has_item_some, has_item_none,
}
use lock_free_stuffs.Deque.Parts.{
  store-Stands, publish-Stands, lower-Stands, settle-Stands, last_lem, raise-Stands,
}
use lock_free_stuffs.Deque.Calls.{empty_list}
use lock_free_stuffs.Deque.Machine.{
  Owner, Machine, resting, testing, storing, wanting, lowering, looking, contending, giving_back,
  lost, kept, own_step,
}
use lock_free_stuffs.Deque.Inv.{Inv}
use lock_free_stuffs.Deque.Steps.{
  Bounded, owner-Stands, owner_is, moved, on, missed, head_append, head_init, ThiefAt-raised,
}

has_space_top {ℓ} : {A : Type ℓ} (k elem : ℕ) (q : Deque A) → (has_space k elem q).1.top ≡ q.top
unfolding has_space
has_space_top k elem q =
    if_split (λ (t : Bool × Deque _). t.1.top ≡ q.top) (leb (2 ^ k) (used q)) (λ e. refl)
      (λ e. refl)

has_item_top {ℓ} : {A : Type ℓ} (q : Deque A) → (has_item q).1.top ≡ q.top
unfolding has_item
has_item_top q =
    if_split (λ (t : Bool × Deque _). t.1.top ≡ q.top) (q.bottom == q.top_cache) (λ e. refl)
      (λ e. refl)

module _ {ℓ} {A : Type ℓ} (k elem : ℕ) {m : Machine A} (inv : Inv k elem m)
    (small : Bounded k m) where
  testing_lem : (vs : List A) → m.owner ≡ testing vs → Inv k elem (own_step k elem (testing vs) m)
  unfolding own_step
  testing_lem vs at =
      let s = owner-Stands k elem inv (testing vs) at in
      let same = has_space_top k elem m.deque in
      elim (Bool-cases (has_space k elem m.deque).0) [
        | inl pass ↦
            let (s', free, kept_bottom) =
              has_space_room k elem s (omega (arith, s.at, inv.counts)) pass in
            let q : Deque A = (has_space k elem m.deque).1 in
            let n : ℕ = room k elem (length vs) q in
            rw pass (
              on k elem inv (storing [] (take n vs)) q s'
                (omega (arith, length-take n vs (omega arith), s'.at, s'.old, s.at, inv.counts))
                same)
        | inr fail ↦
            let (s', full, kept_bottom) =
              has_space_full k elem s (omega (arith, s.at, inv.counts)) fail in
            rw fail (
              moved k elem inv resting (has_space k elem m.deque).1 (refused ∷ m.log) inv.values
                m.counted (refuse inv.runs (omega arith)) s' tt same (λ x h. h) inv.counts)
      ]

  storing_lem :
      (done todo : List A)
      → m.owner ≡ storing done todo
      → Inv k elem (own_step k elem (storing done todo) m)
  unfolding own_step store set_bottom
  storing_lem done (v ∷ todo) at =
      let s = owner-Stands k elem inv (storing done (v ∷ todo)) at in
      let free = owner_is k elem inv (storing done (v ∷ todo)) at in
      let i : add_size m.deque.bottom (length done) ≡ m.deque.bottom + length done =
        omega (arith, free, s.at, s.old, inv.counts) in
      on k elem inv (storing (done ++ (v ∷ [])) todo)
        (store k elem (add_size m.deque.bottom (length done)) v m.deque)
        (store-Stands k elem _ v s i (omega (arith, free, i)))
        (omega (arith, free, length-snoc done v)) refl
  storing_lem done [] at =
      let s = owner-Stands k elem inv (storing done []) at in
      let free = owner_is k elem inv (storing done []) at in
      let i : add_size m.deque.bottom (length done) ≡ m.deque.bottom + length done =
        omega (arith, free, s.at, s.old, inv.counts) in
      let s' =
        publish-Stands k elem (add_size m.deque.bottom (length done)) s i
          (omega (arith, free, i)) in
      moved k elem inv resting (set_bottom (add_size m.deque.bottom (length done)) m.deque)
        (pushed done ∷ m.log) (inv.values ++ done) (m.counted + length done)
        (push_end done inv.runs s'.fits) s' tt refl (λ x. head_append inv.values done x)
        (omega (arith, inv.counts, length-append inv.values done))

  wanting_lem : m.owner ≡ wanting → Inv k elem (own_step k elem wanting m)
  unfolding own_step
  wanting_lem at =
      let s = owner-Stands k elem inv wanting at in
      let same = has_item_top m.deque in
      elim (Bool-cases (has_item m.deque).0) [
        | inl pass ↦
            let (s', pos, kept_bottom) = has_item_some k elem s pass in
            rw pass (on k elem inv lowering (has_item m.deque).1 s' pos same)
        | inr fail ↦
            let (s', none_left, kept_bottom) = has_item_none k elem s fail in
            rw fail (missed k elem inv (has_item m.deque).1 s' none_left same)
      ]

  lowering_lem : m.owner ≡ lowering → Inv k elem (own_step k elem lowering m)
  unfolding own_step set_bottom
  lowering_lem at =
      let s = owner-Stands k elem inv lowering at in
      let pos = owner_is k elem inv lowering at in
      on k elem inv looking (set_bottom (sub_size m.deque.bottom 1) m.deque)
        (lower-Stands k elem (sub_size m.deque.bottom 1) s (omega (arith, s.at, inv.counts, pos)))
        tt refl

  looking_lem : m.owner ≡ looking → Inv k elem (own_step k elem looking m)
  unfolding own_step
  looking_lem at =
      let s = owner-Stands k elem inv looking at in
      if_split (λ (n : Machine A). Inv k elem n) (ltb m.deque.bottom m.deque.top)
        (λ above.
          on k elem inv (giving_back m.deque.top) m.deque s (ground (arith, s.at), refl) refl)
        (λ below.
          let (ys, v, e, it, s') = last_lem k elem s (ground arith) in
          if_split (λ (n : Machine A). Inv k elem n) (m.deque.top == m.deque.bottom)
            (λ last. on k elem inv contending m.deque s (ground arith) refl)
            (λ more.
              let count = ap length e ∙ length-snoc ys v in
              moved k elem inv resting (refresh m.deque)
                (popped (load k elem m.deque.bottom m.deque) ∷ m.log) ys m.counted
                (subst (λ w. Runs (2 ^ k) (popped w ∷ m.log) ys) (sym it)
                  (pop_end v (subst (λ l. Runs (2 ^ k) m.log l) e inv.runs)))
                (refresh-Stands k elem s') tt refl
                (λ x h.
                  head_init ys v x (ground (arith, s'.at)) (subst (λ l. head? l ≡ some x) e h))
                (omega (arith, inv.counts, count))))

  contending_lem : m.owner ≡ contending → Inv k elem (own_step k elem contending m)
  unfolding own_step cas_top
  contending_lem at =
      let s = owner-Stands k elem inv contending at in
      let le : m.deque.bottom ≤ m.deque.top = owner_is k elem inv contending at in
      elim (Bool-cases (m.deque.top == m.deque.bottom)) [
        | inl last ↦
            let e : m.deque.top ≡ m.deque.bottom = ==→eq m.deque.top m.deque.bottom last in
            let (ys, v, split, it, s') = last_lem k elem s (omega arith) in
            let none_left : ys ≡ [] = empty_list ys (omega (arith, s'.at)) in
            let only : inv.values ≡ v ∷ [] = split ∙ ap (λ l. l ++ (v ∷ [])) none_left in
            let up : add_size m.deque.bottom 1 ≡ m.deque.top + 1 =
              omega (arith, s.at, inv.counts) in
            rw last (record {
              values = [];
              runs =
                  subst (λ w. Runs (2 ^ k) (popped w ∷ m.log) []) (sym it)
                    (pop_end v (subst (λ l. Runs (2 ^ k) m.log l) only inv.runs));
              stands =
                  raise-Stands k elem (add_size m.deque.bottom 1)
                    (subst (λ l. Stands k elem 1 [] l m.deque) only s) up;
              owner_at = refl;
              thief_at = λ i.
                  ThiefAt-raised k elem (m.thieves i) inv.values [] m.deque.top
                    (add_size m.deque.bottom 1) up (inv.thief_at i);
              counts = omega (arith, inv.counts, up, ap length only);
            })
        | inr beaten ↦
            rw beaten (on k elem inv (lost m.deque.top) m.deque s (ground (arith, s.at), refl) refl)
      ]

  giving_back_lem :
      (top : ℕ) → m.owner ≡ giving_back top → Inv k elem (own_step k elem (giving_back top) m)
  unfolding own_step settle set_bottom
  giving_back_lem top at =
      let s = owner-Stands k elem inv (giving_back top) at in
      let (none_left, was) = owner_is k elem inv (giving_back top) at in
      missed k elem inv (settle (add_size m.deque.bottom 1) top m.deque)
        (settle-Stands k elem (add_size m.deque.bottom 1) top s (omega (arith, s.at, inv.counts))
          (omega arith))
        none_left refl

  lost_lem : (top : ℕ) → m.owner ≡ lost top → Inv k elem (own_step k elem (lost top) m)
  unfolding own_step settle set_bottom
  lost_lem top at =
      let s = owner-Stands k elem inv (lost top) at in
      let (none_left, was) = owner_is k elem inv (lost top) at in
      missed k elem inv (settle top top m.deque)
        (settle-Stands k elem top top s (omega (arith, s.at)) (omega arith)) none_left refl

  kept_lem : m.owner ≡ kept → Inv k elem (own_step k elem kept m)
  unfolding own_step settle set_bottom
  kept_lem at =
      let s = owner-Stands k elem inv kept at in
      let none_left : length inv.values ≡ 0 = owner_is k elem inv kept at in
      on k elem inv resting (settle (add_size m.deque.bottom 1) (add_size m.deque.bottom 1) m.deque)
        (settle-Stands k elem (add_size m.deque.bottom 1) (add_size m.deque.bottom 1) s
          (omega (arith, s.at, inv.counts)) (omega (arith, s.at, inv.counts)))
        tt refl

  pub own_step-Inv : (o : Owner A) → m.owner ≡ o → Inv k elem (own_step k elem o m)
  unfolding own_step
  own_step-Inv resting at = inv
  own_step-Inv (testing vs) at = testing_lem vs at
  own_step-Inv (storing done todo) at = storing_lem done todo at
  own_step-Inv wanting at = wanting_lem at
  own_step-Inv lowering at = lowering_lem at
  own_step-Inv looking at = looking_lem at
  own_step-Inv contending at = contending_lem at
  own_step-Inv (giving_back top) at = giving_back_lem top at
  own_step-Inv (lost top) at = lost_lem top at
  own_step-Inv kept at = kept_lem at
