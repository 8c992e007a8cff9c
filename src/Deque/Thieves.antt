-- ===== src/Deque/Thieves.antt =====
-- include/work_steal_deque.h: every step of a thief keeps the invariant.
use lock_free_stuffs.Prelude.{
  ℕ, ◌+◌, ◌^◌, ◌≤◌, ◌≡◌, sym, ap, ◌∙◌, subst, some, List, [], ◌∷◌, length, leb, ◌==◌, ==→eq,
  if◌then◌else◌, if_split, Bool-cases, inl, inr, arith, add_size,
}
use mathlib.Core.Option.{some-injective}
use mathlib.Core.List.{head?}
use lock_free_stuffs.Deque.{Deque, load, cas_top}
use lock_free_stuffs.Deque.Spec.{steal_front, Runs}
use lock_free_stuffs.Deque.Rep.{Stands}
use lock_free_stuffs.Deque.Parts.{first_lem, raise-Stands}
use lock_free_stuffs.Deque.Machine.{
  Owner, Thief, Machine, resting, testing, storing, wanting, lowering, looking, contending,
  giving_back, lost, kept, away, loaded, allowed, holding, steal_step, set_thief,
}
use lock_free_stuffs.Deque.Inv.{off, pending, OwnerAt, ThiefAt, Inv}
use lock_free_stuffs.Deque.Steps.{Bounded, head_some, ThiefAt-raised}

head_cons {ℓ} :
    {A : Type ℓ} (xs : List A) (v : A) → head? xs ≡ some v → (rest : List A) × (xs ≡ v ∷ rest)
head_cons [] v h = cc
head_cons (x ∷ xs) v h = (xs, ap (λ y. y ∷ xs) (some-injective x v h))

module _ {ℓ} {A : Type ℓ} (k elem : ℕ) where
  -- While there is a value the owner is not where it relies on there being none.
  OwnerAt-raised :
      (o : Owner A) (v : A) (xs : List A) (q : Deque A) (top : ℕ)
      → q.top ≤ top
      → OwnerAt k elem o (v ∷ xs) q
      → OwnerAt k elem o xs (record q { top = top })
  OwnerAt-raised resting v xs q top le h = tt
  OwnerAt-raised (testing vs) v xs q top le h = tt
  OwnerAt-raised (storing done todo) v xs q top le h = h
  OwnerAt-raised wanting v xs q top le h = tt
  OwnerAt-raised lowering v xs q top le h = h
  OwnerAt-raised looking v xs q top le h = tt
  OwnerAt-raised contending v xs q top le h = omega (arith, h)
  OwnerAt-raised (giving_back t) v xs q top le (none_left, h) = absurd (omega (arith, none_left))
  OwnerAt-raised (lost t) v xs q top le (none_left, h) = absurd (omega (arith, none_left))
  OwnerAt-raised kept v xs q top le h = absurd (omega (arith, h))

module _ {ℓ} {A : Type ℓ} (k elem : ℕ) {m : Machine A} (inv : Inv k elem m) (i : ℕ) where
  -- Thief `i` moves on, and changes nothing else.
  stay :
      (t : Thief A)
      → ThiefAt k elem t inv.values m.deque.top
      → Inv k elem (record m { thieves = set_thief i t m.thieves })
  stay t h = record {
    values = inv.values;
    runs = inv.runs;
    stands = inv.stands;
    owner_at = inv.owner_at;
    thief_at = λ j.
        if_split (λ x. ThiefAt k elem x inv.values m.deque.top) (j == i) (λ e. h)
          (λ e. inv.thief_at j);
    counts = inv.counts;
  }

  thief_is : (t : Thief A) → m.thieves i ≡ t → ThiefAt k elem t inv.values m.deque.top
  thief_is t e = subst (λ x. ThiefAt k elem x inv.values m.deque.top) e (inv.thief_at i)

  loaded_lem :
      (top : ℕ) → m.thieves i ≡ loaded top → Inv k elem (steal_step k elem i (loaded top) m)
  unfolding steal_step
  loaded_lem top at =
      let (le, _) = thief_is (loaded top) at in
      stay (if leb m.deque.published_bottom top then away else allowed top) (
        if_split (λ t. ThiefAt k elem t inv.values m.deque.top) (leb m.deque.published_bottom top)
          (λ e. tt)
          (λ e. (
            le,
            λ same. head_some inv.values (ground (arith, inv.stands.at, inv.stands.published)),
          )))

  allowed_lem :
      (top : ℕ) → m.thieves i ≡ allowed top → Inv k elem (steal_step k elem i (allowed top) m)
  unfolding steal_step load
  allowed_lem top at =
      let (le, h) = thief_is (allowed top) at in
      stay (holding top (load k elem top m.deque)) (
        le,
        λ same.
            let (x, first) = h same in
            let (rest, e) = head_cons inv.values x first in
            let it : load k elem m.deque.top m.deque ≡ x =
              first_lem k elem (
                subst (λ l. Stands k elem (off m.owner) (pending m.owner) l m.deque) e
                  inv.stands) in
            first ∙ ap some (sym (ap (λ t. load k elem t m.deque) same ∙ it)),
      )

  holding_lem :
      (top : ℕ) (v : A)
      → Bounded k m
      → m.thieves i ≡ holding top v
      → Inv k elem (steal_step k elem i (holding top v) m)
  unfolding steal_step cas_top
  holding_lem top v small at =
      let (le, h) = thief_is (holding top v) at in
      elim (Bool-cases (m.deque.top == top)) [
        | inr beaten ↦ rw beaten (stay away tt)
        | inl mine ↦
            let same : m.deque.top ≡ top = ==→eq m.deque.top top mine in
            let (rest, e) = head_cons inv.values v (h (sym same)) in
            let up : add_size top 1 ≡ m.deque.top + 1 = omega (arith, same, inv.counts) in
            rw mine (record {
              values = rest;
              runs = steal_front v (subst (λ l. Runs (2 ^ k) m.log l) e inv.runs);
              stands =
                  raise-Stands k elem (add_size top 1)
                    (subst (λ l. Stands k elem (off m.owner) (pending m.owner) l m.deque) e
                      inv.stands)
                    up;
              owner_at =
                  OwnerAt-raised k elem m.owner v rest m.deque (add_size top 1) (omega arith)
                    (subst (λ l. OwnerAt k elem m.owner l m.deque) e inv.owner_at);
              thief_at = λ j.
                  if_split (λ x. ThiefAt k elem x rest (add_size top 1)) (j == i) (λ b. tt)
                    (λ b.
                      ThiefAt-raised k elem (m.thieves j) inv.values rest m.deque.top
                        (add_size top 1) up (inv.thief_at j));
              counts = omega (arith, inv.counts, up, ap length e);
            })
      ]

  pub steal_step-Inv :
      (t : Thief A) → Bounded k m → m.thieves i ≡ t → Inv k elem (steal_step k elem i t m)
  unfolding steal_step
  steal_step-Inv away small at = stay (loaded m.deque.top) (omega arith, tt)
  steal_step-Inv (loaded top) small at = loaded_lem top at
  steal_step-Inv (allowed top) small at = allowed_lem top at
  steal_step-Inv (holding top v) small at = holding_lem top v small at
