-- ===== src/Deque/Steps.antt =====
-- include/work_steal_deque.h: how a step of the owner keeps the invariant, by what it changes.
use lock_free_stuffs.Prelude.{
  ℕ, ◌+◌, ◌^◌, ◌<◌, ◌≤◌, ◌≡◌, refl, sym, subst, some, List, [], ◌∷◌, ◌++◌, length, arith, word,
}
use mathlib.Core.List.{head?}
use lock_free_stuffs.Deque.{Deque}
use lock_free_stuffs.Deque.Spec.{Event, found_empty, miss, Runs}
use lock_free_stuffs.Deque.Rep.{Stands}
use lock_free_stuffs.Deque.Calls.{empty_list}
use lock_free_stuffs.Deque.Machine.{Owner, Thief, Machine, resting, away, loaded, allowed, holding}
use lock_free_stuffs.Deque.Inv.{off, pending, OwnerAt, ThiefAt, Inv}

-- Few enough values were pushed that no index has wrapped.
abbrev pub Bounded {ℓ} : {A : Type ℓ} → ℕ → Machine A → Type 0
Bounded k m = m.counted + 2 ^ k + 1 < word

module _ {ℓ} {A : Type ℓ} where
  pub head_append : (xs ys : List A) (x : A) → head? xs ≡ some x → head? (xs ++ ys) ≡ some x
  head_append [] ys x h = cc
  head_append (y ∷ xs) ys x h = h

  pub head_init :
      (ys : List A) (v x : A) → 1 ≤ length ys → head? (ys ++ (v ∷ [])) ≡ some x → head? ys ≡ some x
  head_init [] v x h e = absurd (omega arith)
  head_init (y ∷ ys) v x h e = e

  pub head_some : (xs : List A) → 1 ≤ length xs → (x : A) × (head? xs ≡ some x)
  head_some [] h = absurd (omega arith)
  head_some (x ∷ xs) h = (x, refl)

module _ {ℓ} {A : Type ℓ} (k elem : ℕ) where
  -- A thief keeps what it relies on where the first value stays.
  pub ThiefAt-same :
      (t : Thief A) (xs ys : List A) (top : ℕ)
      → ((x : A) → head? xs ≡ some x → head? ys ≡ some x)
      → ThiefAt k elem t xs top
      → ThiefAt k elem t ys top
  ThiefAt-same away xs ys top keep h = tt
  ThiefAt-same (loaded t) xs ys top keep h = h
  ThiefAt-same (allowed t) xs ys top keep (le, h) =
      (le, λ e. let (x, first) = h e in (x, keep x first))
  ThiefAt-same (holding t v) xs ys top keep (le, h) = (le, λ e. keep v (h e))

  -- Raising the top ends the claim of all who have loaded an earlier one.
  pub ThiefAt-raised :
      (t : Thief A) (xs ys : List A) (top top' : ℕ)
      → top' ≡ top + 1
      → ThiefAt k elem t xs top
      → ThiefAt k elem t ys top'
  ThiefAt-raised away xs ys top top' up h = tt
  ThiefAt-raised (loaded t) xs ys top top' up (le, h) = (omega arith, tt)
  ThiefAt-raised (allowed t) xs ys top top' up (le, h) = (omega arith, λ e. absurd (omega arith))
  ThiefAt-raised (holding t v) xs ys top top' up (le, h) = (omega arith, λ e. absurd (omega arith))

  module _ {m : Machine A} (inv : Inv k elem m) where
    pub owner-Stands :
        (o : Owner A) → m.owner ≡ o → Stands k elem (off o) (pending o) inv.values m.deque
    owner-Stands o e =
        subst (λ p. Stands k elem (off p) (pending p) inv.values m.deque) e inv.stands

    pub owner_is : (o : Owner A) → m.owner ≡ o → OwnerAt k elem o inv.values m.deque
    owner_is o e = subst (λ p. OwnerAt k elem p inv.values m.deque) e inv.owner_at

    -- The owner moves on, and leaves the top and the first value.
    pub moved :
        (o : Owner A) (q : Deque A) (log : List (Event A)) (ys : List A) (counted : ℕ)
        → Runs (2 ^ k) log ys
        → Stands k elem (off o) (pending o) ys q
        → OwnerAt k elem o ys q
        → q.top ≡ m.deque.top
        → ((x : A) → head? inv.values ≡ some x → head? ys ≡ some x)
        → m.deque.top + length ys ≤ counted
        → Inv k elem
            (record { deque = q; owner = o; thieves = m.thieves; log = log; counted = counted })
    moved o q log ys counted runs stands at same keep counts = record {
      values = ys;
      runs = runs;
      stands = stands;
      owner_at = at;
      thief_at = λ i.
          subst (λ t. ThiefAt k elem (m.thieves i) ys t) (sym same)
            (ThiefAt-same (m.thieves i) inv.values ys m.deque.top keep (inv.thief_at i));
      counts = omega arith;
    }

    -- It moves on, and nothing has taken effect.
    pub on :
        (o : Owner A) (q : Deque A)
        → Stands k elem (off o) (pending o) inv.values q
        → OwnerAt k elem o inv.values q
        → q.top ≡ m.deque.top
        → Inv k elem (record m { deque = q; owner = o })
    on o q stands at same =
        moved o q m.log inv.values m.counted inv.runs stands at same (λ x h. h) inv.counts

    -- It has found the deque empty.
    pub missed :
        (q : Deque A)
        → Stands k elem 0 [] inv.values q
        → length inv.values ≡ 0
        → q.top ≡ m.deque.top
        → Inv k elem (record m { deque = q; owner = resting; log = found_empty ∷ m.log })
    missed q stands none_left same =
        let e : inv.values ≡ [] = empty_list inv.values none_left in
        moved resting q (found_empty ∷ m.log) inv.values m.counted
          (subst (λ l. Runs (2 ^ k) (found_empty ∷ m.log) l) (sym e)
            (miss (subst (λ l. Runs (2 ^ k) m.log l) e inv.runs)))
          stands tt same (λ x h. h) inv.counts
