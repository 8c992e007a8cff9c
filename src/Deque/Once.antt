-- ===== src/Deque/Once.antt =====
-- include/work_steal_deque.h: no value is lost, and none is taken twice.
use lock_free_stuffs.Prelude.{ℕ, List, [], ◌∷◌, ◌++◌, append_assoc, subst}
use mathlib.Core.List.{Perm, perm_middle, perm_append_singleton}
use mathlib.Core.List.Perm
use lock_free_stuffs.Deque.Spec.{
  Event, pushed, refused, popped, found_empty, stolen, Runs, nothing, push_end, refuse, pop_end,
  miss, steal_front,
}
use lock_free_stuffs.Deque.Rep.{Stands}
use lock_free_stuffs.Deque.Machine.{Machine, Reach}
use lock_free_stuffs.Deque.Inv.{off, pending}
use lock_free_stuffs.Deque.Steps.{Bounded}
use lock_free_stuffs.Deque.Order.{Reach-Inv}

-- the values that were pushed, and those that were popped or stolen
module _ {ℓ} {A : Type ℓ} where
  abbrev pub put_in : List (Event A) → List A
  put_in [] = []
  put_in (pushed vs ∷ log) = put_in log ++ vs
  put_in (refused ∷ log) = put_in log
  put_in (popped v ∷ log) = put_in log
  put_in (found_empty ∷ log) = put_in log
  put_in (stolen v ∷ log) = put_in log

  abbrev pub taken : List (Event A) → List A
  taken [] = []
  taken (pushed vs ∷ log) = taken log
  taken (refused ∷ log) = taken log
  taken (popped v ∷ log) = v ∷ taken log
  taken (found_empty ∷ log) = taken log
  taken (stolen v ∷ log) = v ∷ taken log

  Runs-conserve :
      {cap : ℕ} {log : List (Event A)} {xs : List A}
      → Runs cap log xs
      → Perm (put_in log) (taken log ++ xs)
  Runs-conserve nothing = Perm.refl []
  Runs-conserve (push_end {log} {xs} vs r fits) =
      subst (λ l. Perm (put_in log ++ vs) l) (append_assoc (taken log) xs vs)
        (Perm.append_right vs (Runs-conserve r))
  Runs-conserve (refuse r full) = Runs-conserve r
  Runs-conserve (pop_end {log} {xs} v r) = Perm.trans (Runs-conserve r) (
      subst (λ l. Perm l (v ∷ (taken log ++ xs))) (append_assoc (taken log) xs (v ∷ []))
        (perm_append_singleton v (taken log ++ xs)))
  Runs-conserve (miss r) = Runs-conserve r
  Runs-conserve (steal_front {log} {xs} v r) =
      Perm.trans (Runs-conserve r) (perm_middle (taken log) xs)

-- For N = 2^k, in every state that the owner and any number of thieves reach by interleaved steps
-- from a new WorkStealDeque, as long as fewer than 2^64 - N - 1 values were pushed: the values that
-- were pushed are, in some order, those that were popped or stolen and at most N more, which the
-- slots from the top on hold.
pub deque_exactly_once {ℓ} :
    {A : Type ℓ} (k elem : ℕ) (raw : ℕ → A) {m : Machine A}
    → Reach k elem raw m
    → Bounded k m
    → (xs : List A) × Perm (put_in m.log) (taken m.log ++ xs)
      × Stands k elem (off m.owner) (pending m.owner) xs m.deque
deque_exactly_once k elem raw r bound =
    let inv = Reach-Inv k elem r bound in (inv.values, Runs-conserve inv.runs, inv.stands)
