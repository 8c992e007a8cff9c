-- ===== src/Fifo.antt =====
-- The specification: a FIFO of at most `cap` elements, oldest first, with the calls that every
-- queue of include/ offers.
use lock_free_stuffs.Prelude.{
  ℕ, ◌≡◌, refl, ap, ap₂, Bool, true, false, Option, none, some, List, [], ◌∷◌, ◌++◌, length, ltb,
  if◌then◌else◌,
}

-- The two fallible calls: `bool try_emplace(v)`, and `bool try_pop(out)` with `some` for `true`.
pub record Calls {ℓ} (A Q : Type ℓ) : Type ℓ where
  pub try_push : A → Q → Bool × Q
  pub try_pop : Q → Option A × Q

unfoldable pub push {ℓ} : {A : Type ℓ} → ℕ → A → List A → Bool × List A
push cap v xs = if ltb (length xs) cap then (true, xs ++ (v ∷ [])) else (false, xs)

unfoldable pub pop {ℓ} : {A : Type ℓ} → List A → Option A × List A
pop [] = (none, [])
pop (x ∷ xs) = (some x, xs)

-- the specification as an implementation of the calls
abbrev pub fifo {ℓ} : {A : Type ℓ} → ℕ → Calls A (List A)
fifo cap = record { try_push = push cap; try_pop = pop }

pub data Op {ℓ} (A : Type ℓ) : Type ℓ where
  put : A → Op A
  get : Op A

pub data Reply {ℓ} (A : Type ℓ) : Type ℓ where
  put_was : Bool → Reply A
  got : Option A → Reply A

-- what a client sees of a sequence of calls
module _ {ℓ} {A Q : Type ℓ} (calls : Calls A Q) where
  unfoldable pub run : Q → List (Op A) → List (Reply A)
  run q [] = []
  run q (put v ∷ ops) = let (ok, q') = calls.try_push v q in put_was ok ∷ run q' ops
  run q (get ∷ ops) = let (out, q') = calls.try_pop q in got out ∷ run q' ops

-- A relation to a list that both calls keep, with equal replies.
pub record Simulates {ℓ} {A Q : Type ℓ} (cap : ℕ) (Rep : List A → Q → Type ℓ) (calls : Calls A Q)
    : Type ℓ where
  pub push_reply :
      (v : A) (xs : List A) (q : Q) → Rep xs q → (calls.try_push v q).0 ≡ (push cap v xs).0
  pub push_rep :
      (v : A) (xs : List A) (q : Q) → Rep xs q → Rep (push cap v xs).1 (calls.try_push v q).1
  pub pop_reply : (xs : List A) (q : Q) → Rep xs q → (calls.try_pop q).0 ≡ (pop xs).0
  pub pop_rep : (xs : List A) (q : Q) → Rep xs q → Rep (pop xs).1 (calls.try_pop q).1

-- No sequence of calls tells such an implementation from the specification.
pub run_refines {ℓ} :
    {A Q : Type ℓ} {cap : ℕ} {Rep : List A → Q → Type ℓ} {calls : Calls A Q}
    → Simulates cap Rep calls
    → (ops : List (Op A)) (xs : List A) (q : Q) → Rep xs q
    → run calls q ops ≡ run (fifo cap) xs ops
unfolding run
run_refines sim [] xs q rep = refl
run_refines sim (put v ∷ ops) xs q rep =
    ap₂ ◌∷◌ (ap put_was (sim.push_reply v xs q rep))
      (run_refines sim ops _ _ (sim.push_rep v xs q rep))
run_refines sim (get ∷ ops) xs q rep =
    ap₂ ◌∷◌ (ap got (sim.pop_reply xs q rep)) (run_refines sim ops _ _ (sim.pop_rep xs q rep))
