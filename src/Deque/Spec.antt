-- ===== src/Deque/Spec.antt =====
-- The specification of a work-stealing deque: a list of at most `cap` values, pushed and popped at
-- its end and stolen from its front.
use lock_free_stuffs.Prelude.{
  ℕ, ◌≤◌, Bool, true, false, Option, none, some, List, [], ◌∷◌, ◌++◌, length, null, ltb,
  if◌then◌else◌,
}

-- The calls for one value, which may fail.
pub record Calls {ℓ} (A Q : Type ℓ) : Type ℓ where
  pub push : A → Q → Bool × Q
  pub pop : Q → Option A × Q
  pub steal : Q → Option A × Q

module _ {ℓ} {A : Type ℓ} where
  unfoldable pub push : ℕ → A → List A → Bool × List A
  push cap v xs = if ltb (length xs) cap then (true, xs ++ (v ∷ [])) else (false, xs)

  unfoldable pub pop : List A → Option A × List A
  pop [] = (none, [])
  pop (x ∷ xs) = let (v, ys) = pop xs in if null xs then (some x, []) else (v, x ∷ ys)

  unfoldable pub steal : List A → Option A × List A
  steal [] = (none, [])
  steal (x ∷ xs) = (some x, xs)

  abbrev pub spec : ℕ → Calls A (List A)
  spec cap = record { push = push cap; pop = pop; steal = steal }

pub data Op {ℓ} (A : Type ℓ) : Type ℓ where
  put : A → Op A
  get_bottom : Op A
  get_top : Op A

pub data Reply {ℓ} (A : Type ℓ) : Type ℓ where
  put_was : Bool → Reply A
  got : Option A → Reply A

-- what a client sees of a sequence of calls
module _ {ℓ} {A Q : Type ℓ} (calls : Calls A Q) where
  unfoldable pub run : Q → List (Op A) → List (Reply A)
  run q [] = []
  run q (put v ∷ ops) = let (ok, q') = calls.push v q in put_was ok ∷ run q' ops
  run q (get_bottom ∷ ops) = let (out, q') = calls.pop q in got out ∷ run q' ops
  run q (get_top ∷ ops) = let (out, q') = calls.steal q in got out ∷ run q' ops

-- What a thread learns of the deque when its call takes effect.
pub data Event {ℓ} (A : Type ℓ) : Type ℓ where
  pushed : List A → Event A
  refused : Event A
  popped : A → Event A
  found_empty : Event A
  stolen : A → Event A

-- The events, the last one first, happen in this order to a list that is empty at first and ends as
-- given.
pub data Runs {ℓ} {A : Type ℓ} (cap : ℕ) : List (Event A) → List A → Type ℓ where
  nothing : Runs cap [] []
  push_end :
      {log : List (Event A)} {xs : List A} (vs : List A)
      → Runs cap log xs
      → length (xs ++ vs) ≤ cap
      → Runs cap (pushed vs ∷ log) (xs ++ vs)
  refuse :
      {log : List (Event A)} {xs : List A}
      → Runs cap log xs
      → cap ≤ length xs
      → Runs cap (refused ∷ log) xs
  pop_end :
      {log : List (Event A)} {xs : List A} (v : A)
      → Runs cap log (xs ++ (v ∷ []))
      → Runs cap (popped v ∷ log) xs
  miss : {log : List (Event A)} → Runs cap log [] → Runs cap (found_empty ∷ log) []
  steal_front :
      {log : List (Event A)} {xs : List A} (v : A)
      → Runs cap log (v ∷ xs)
      → Runs cap (stolen v ∷ log) xs
