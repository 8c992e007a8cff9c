-- ===== src/Deque/Tests.antt =====
-- include/work_steal_deque.h: the theorems at concrete runs on two or four slots of 64 bytes.
use lock_free_stuffs.Prelude.{
  ℕ, ◌≡◌, refl, true, false, none, some, List, [], ◌∷◌, ◌++◌, length, ◌==◌, mask, arith,
}
use mathlib.Core.List.{Perm}
use lock_free_stuffs.Spsc.Layout.{slot_index, padding}
use lock_free_stuffs.Deque.{Deque, new, try_bulk_push_bottom, bulk_push_bottom, size, empty}
use lock_free_stuffs.Deque
use lock_free_stuffs.Deque.Spec
use lock_free_stuffs.Deque.Spec.{
  Op, put, get_bottom, get_top, put_was, got, spec, Runs, pushed, popped, stolen, found_empty,
}
use lock_free_stuffs.Deque.Rep.{Stands, new-Stands}
use lock_free_stuffs.Deque.Calls.{calls, deque_refines}
use lock_free_stuffs.Deque.Bulk.{Batch, deque-Batch, deque_bulk_push}
use lock_free_stuffs.Deque.Machine
use lock_free_stuffs.Deque.Machine.{
  Machine, start, resting, testing, wanting, Reach, here, next, begin_push, begin_pop,
}
use lock_free_stuffs.Deque.Order.{deque_linearizable, deque_size}
use lock_free_stuffs.Deque.Once.{deque_exactly_once}
use lock_free_stuffs.Deque.Ends.{play, play-Reach, deque_wait_free}

abbrev zeros : ℕ → ℕ
zeros i = 0

-- Two go in, the third is refused; one is stolen, one popped, and then there is none.
abbrev script : List (Op ℕ)
script = put 7 ∷ put 8 ∷ put 9 ∷ get_top ∷ get_bottom ∷ get_bottom ∷ get_top ∷ []

deque_refines_example :
    Spec.run (calls 1 64) (new zeros) script
    ≡ put_was true
      ∷ put_was true
      ∷ put_was false
      ∷ got (some 7)
      ∷ got (some 8)
      ∷ got none
      ∷ got none
      ∷ []
unfolding Spec.run Spec.push Spec.pop Spec.steal
deque_refines_example = deque_refines 1 64 zeros script (omega arith)

-- Five values for four slots.
abbrev five : List ℕ
five = 1 ∷ 2 ∷ 3 ∷ 4 ∷ 5 ∷ []

deque-Batch_example :
    Batch 2 64 five []
      (new zeros)
      (try_bulk_push_bottom 2 64 five (new zeros)).0
      (try_bulk_push_bottom 2 64 five (new zeros)).1
unfolding new
deque-Batch_example = deque-Batch 2 64 five (new-Stands 2 64 zeros) (omega arith)

abbrev three : List ℕ
three = 1 ∷ 2 ∷ 3 ∷ []

deque_bulk_push_example :
    (r : Deque ℕ) × (bulk_push_bottom 2 64 3 three (new zeros) ≡ some (0, r))
    × Stands 2 64 0 [] three r
unfolding new
deque_bulk_push_example =
    deque_bulk_push 2 64 3 three (new-Stands 2 64 zeros) (omega arith) (omega arith) (omega arith)

abbrev pushing : Machine ℕ
pushing = record (start zeros) { owner = testing (7 ∷ 8 ∷ []) }

-- Thief 0 has read 7 and not yet taken it, when the owner pops.
abbrev popping : Machine ℕ
popping = record (play 1 64 (0 ∷ 0 ∷ 0 ∷ 0 ∷ 1 ∷ 1 ∷ 1 ∷ []) pushing) { owner = wanting }

-- The owner gets 8, then finds the top at its lowered bottom, and thief 0 is the first to raise it.
abbrev again : Machine ℕ
again = record (play 1 64 (0 ∷ 0 ∷ 0 ∷ []) popping) { owner = wanting }

abbrev ended : Machine ℕ
ended = play 1 64 (0 ∷ 0 ∷ 0 ∷ 1 ∷ 0 ∷ 0 ∷ []) again

ended_lem : ended.log ≡ found_empty ∷ stolen 7 ∷ popped 8 ∷ pushed (7 ∷ 8 ∷ []) ∷ []
unfolding Machine.own_step Machine.steal_step new Deque.has_space Deque.has_item Deque.store
    Deque.load Deque.set_bottom Deque.settle Deque.cas_top slot_index padding mask
ended_lem = refl

again-Reach : Reach 1 64 zeros again
unfolding Machine.own_step Machine.steal_step new Deque.has_space Deque.has_item Deque.store
    Deque.load Deque.set_bottom Deque.settle Deque.cas_top slot_index padding mask
again-Reach =
    next
      (play-Reach 1 64 (0 ∷ 0 ∷ 0 ∷ []) (
        next
          (play-Reach 1 64 (0 ∷ 0 ∷ 0 ∷ 0 ∷ 1 ∷ 1 ∷ 1 ∷ [])
            (next here (begin_push 7 (8 ∷ []) refl)))
          (begin_pop refl)))
      (begin_pop refl)

ended-Reach : Reach 1 64 zeros ended
ended-Reach = play-Reach 1 64 (0 ∷ 0 ∷ 0 ∷ 1 ∷ 0 ∷ 0 ∷ []) again-Reach

deque_linearizable_example :
    (xs : List ℕ) × Runs 2 (found_empty ∷ stolen 7 ∷ popped 8 ∷ pushed (7 ∷ 8 ∷ []) ∷ []) xs
    × Stands 1 64 0 [] xs ended.deque
unfolding Machine.own_step Machine.steal_step new Deque.has_space Deque.has_item Deque.store
    Deque.load Deque.set_bottom Deque.settle Deque.cas_top slot_index padding mask
deque_linearizable_example = deque_linearizable 1 64 zeros {m = ended} ended-Reach (omega arith)

deque_size_example :
    (xs : List ℕ) × Runs 2 (found_empty ∷ stolen 7 ∷ popped 8 ∷ pushed (7 ∷ 8 ∷ []) ∷ []) xs
    × (size ended.deque ≡ length xs)
    × (empty ended.deque ≡ (length xs == 0))
unfolding Machine.own_step Machine.steal_step new Deque.has_space Deque.has_item Deque.store
    Deque.load Deque.set_bottom Deque.settle Deque.cas_top slot_index padding mask
deque_size_example = deque_size 1 64 zeros {m = ended} ended-Reach (omega arith) refl

deque_exactly_once_example :
    (xs : List ℕ) × Perm (7 ∷ 8 ∷ []) ((7 ∷ 8 ∷ []) ++ xs) × Stands 1 64 0 [] xs ended.deque
unfolding Machine.own_step Machine.steal_step new Deque.has_space Deque.has_item Deque.store
    Deque.load Deque.set_bottom Deque.settle Deque.cas_top slot_index padding mask
deque_exactly_once_example = deque_exactly_once 1 64 zeros {m = ended} ended-Reach (omega arith)

-- Five steps of the owner end its pop, with the thief's in between.
deque_wait_free_example : (play 1 64 (0 ∷ 0 ∷ 0 ∷ 1 ∷ 0 ∷ 0 ∷ []) again).owner ≡ resting
deque_wait_free_example = deque_wait_free 1 64 (0 ∷ 0 ∷ 0 ∷ 1 ∷ 0 ∷ 0 ∷ []) again (omega arith)
