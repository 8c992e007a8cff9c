-- ===== src/Spsc/Flagged/Tests.antt =====
-- include/spsc_test.h: the theorems at concrete inputs.
use lock_free_stuffs.Prelude.{
  ℕ, ◌≡◌, refl, true, false, Option, none, some, List, [], ◌∷◌, mask, ltb, ◌==◌, if◌then◌else◌,
  arith,
}
use lock_free_stuffs.Fifo
use lock_free_stuffs.Fifo.{Op, Reply, put, get, put_was, got, fifo}
use lock_free_stuffs.Spsc.Layout.{padding, slot_index}
use lock_free_stuffs.Spsc.Protocol.{quiet}
use lock_free_stuffs.Spsc.Machine.{Machine, Producer, produce}
use lock_free_stuffs.Spsc.Schedule.{Move, push, pop, producer, consumer, drive, drive-Reach}
use lock_free_stuffs.Spsc.Order.{InOrder}
use lock_free_stuffs.Spsc.Flagged
use lock_free_stuffs.Spsc.Flagged.{
  Queue, stored, vacant, new, calls, protocol, destructor, read_value,
}
use lock_free_stuffs.Spsc.Flagged.Rep.{Rep}
use lock_free_stuffs.Spsc.Flagged.Order.{flagged_refines, flagged-InOrder, flagged_push_passes}
use lock_free_stuffs.Spsc.Flagged.Observers.{flagged_spinning, flagged_observers}

abbrev raws : ℕ → Option ℕ
raws i = none

abbrev script : List (Op ℕ)
script = get ∷ put 1 ∷ put 2 ∷ put 3 ∷ put 4 ∷ put 9 ∷ get ∷ put 5 ∷ get ∷ []

script_replies :
    Fifo.run (calls false 2 4) (new raws) script
    ≡ got none
      ∷ put_was true
      ∷ put_was true
      ∷ put_was true
      ∷ put_was true
      ∷ put_was false
      ∷ got (some 1)
      ∷ put_was true
      ∷ got (some 2)
      ∷ []
unfolding Fifo.run Flagged.try_emplace Flagged.try_pop Flagged.has_room Flagged.has_value
    Flagged.construct_slot Flagged.mark_stored Flagged.read_value Flagged.release
    Flagged.destroy_slot Flagged.new Flagged.is_empty Flagged.is_stored Flagged.state_index
    slot_index padding mask
script_replies = refl

flagged_refines_example : Fifo.run (calls false 2 4) (new raws) script ≡ Fifo.run (fifo 4) [] script
flagged_refines_example = flagged_refines false 2 4 raws script (omega arith)

-- Two pushes and a pop, interleaved; the first move stands last.
abbrev schedule : List (Move ℕ)
schedule =
    consumer
    ∷ producer
    ∷ consumer
    ∷ producer
    ∷ consumer
    ∷ producer
    ∷ push true 8
    ∷ producer
    ∷ producer
    ∷ pop true
    ∷ producer
    ∷ push false 7
    ∷ []

abbrev after : Machine ℕ (Queue ℕ)
after = drive (protocol false 2 4) schedule (new raws)

flagged-InOrder_example : InOrder 4 after
flagged-InOrder_example =
    flagged-InOrder false 2 4 raws (omega arith)
      (drive-Reach (protocol false 2 4) schedule (new raws))

abbrev pushing : Machine ℕ (Queue ℕ)
pushing = drive (protocol false 2 4) (push true 8 ∷ []) (new raws)

flagged_push_passes_example :
    (produce (protocol false 2 4) pushing.producer pushing).producer ≡ Producer.writing 8
unfolding drive
flagged_push_passes_example =
    flagged_push_passes false 2 4 raws (omega arith)
      (drive-Reach (protocol false 2 4) (push true 8 ∷ []) (new raws)) refl (omega arith)

-- Five values have gone by and one is left.
abbrev one : Queue ℕ
one = record {
  write_index = 6;
  read_index = 5;
  states = λ j. if j == 65 then stored else vacant;
  buffer = λ j. if j == 17 then some 7 else none;
}

one-Rep : Rep false 2 4 quiet false (7 ∷ []) one
unfolding padding
one-Rep = record {
  reads = 5;
  read_at = refl;
  write_at = refl;
  fits = omega arith;
  cells = (refl, tt);
  marked = λ i a b. ground arith;
  free = λ i a b. ground arith;
}

flagged_spinning_example :
    (Flagged.emplace false 2 4 1 9 one
      ≡ (if ltb 1 4 then some (0, (Flagged.try_emplace false 2 4 9 one).1) else none))
    × (Flagged.pop false 2 4 1 one ≡ some (0, some 7, (Flagged.try_pop false 2 4 one).1))
flagged_spinning_example = flagged_spinning false 2 4 (omega arith) 0 9 one-Rep

flagged_observers_example :
    (Flagged.size false 2 4 one ≡ 1)
    × (Flagged.empty false 2 4 one ≡ false)
    × ((b : ℕ → Option ℕ) × (destructor false 2 4 1 one ≡ some b))
flagged_observers_example = flagged_observers false 2 4 (omega arith) 1 one-Rep (omega arith)
