-- ===== src/Spsc/Plain/Tests.antt =====
-- include/spsc.h: the theorems at concrete inputs, and runs that can be followed in the source.
use lock_free_stuffs.Prelude.{
  ℕ, ◌+◌, ◌<◌, ◌≡◌, refl, true, false, none, some, List, [], ◌∷◌, mask, ltb, ◌==◌, if◌then◌else◌,
  arith,
}
use mathlib.Core.Option
use lock_free_stuffs.Fifo
use lock_free_stuffs.Fifo.{Op, Reply, put, get, put_was, got, fifo}
use lock_free_stuffs.Spsc.Layout.{padding, nslots}
use lock_free_stuffs.Spsc.Protocol.{quiet}
use lock_free_stuffs.Spsc.Machine.{Machine, Producer, Consumer, produce, consume}
use lock_free_stuffs.Spsc.Schedule.{Move, push, pop, producer, consumer, drive, drive-Reach}
use lock_free_stuffs.Spsc.Order.{InOrder}
use lock_free_stuffs.Spsc.Plain
use lock_free_stuffs.Spsc.Plain.{Queue, new, calls, protocol}
use lock_free_stuffs.Spsc.Plain.Rep.{Rep}
use lock_free_stuffs.Spsc.Plain.Order.{
  plain_refines, plain-InOrder, plain_push_passes, plain_pop_passes,
}
use lock_free_stuffs.Spsc.Plain.Observers.{plain_spinning, plain_answers, plain_accesses_in_range}

abbrev zeros : ℕ → ℕ
zeros i = 0

abbrev script : List (Op ℕ)
script = get ∷ put 1 ∷ put 2 ∷ put 3 ∷ put 4 ∷ get ∷ put 5 ∷ get ∷ get ∷ get ∷ get ∷ []

-- A ring of four elements takes three values.
script_replies :
    Fifo.run (calls 2 4) (new zeros) script
    ≡ got none
      ∷ put_was true
      ∷ put_was true
      ∷ put_was true
      ∷ put_was false
      ∷ got (some 1)
      ∷ put_was true
      ∷ got (some 2)
      ∷ got (some 3)
      ∷ got (some 5)
      ∷ got none
      ∷ []
unfolding Fifo.run Plain.try_emplace Plain.try_pop Plain.has_room Plain.has_value Plain.store_value
    Plain.publish_write Plain.load_value Plain.discard Plain.new padding mask
script_replies = refl

plain_refines_example : Fifo.run (calls 2 4) (new zeros) script ≡ Fifo.run (fifo 3) [] script
plain_refines_example = plain_refines 2 4 zeros script (omega arith)

-- Two pushes and a pop, interleaved; the first move stands last.
abbrev schedule : List (Move ℕ)
schedule =
    consumer
    ∷ producer
    ∷ consumer
    ∷ producer
    ∷ consumer
    ∷ producer
    ∷ push true 8
    ∷ producer
    ∷ producer
    ∷ pop true
    ∷ producer
    ∷ push false 7
    ∷ []

plain-InOrder_example : InOrder 3 (drive (protocol 2 4) schedule (new zeros))
plain-InOrder_example =
    plain-InOrder 2 4 zeros (omega arith) (drive-Reach (protocol 2 4) schedule (new zeros))

abbrev pushing : Machine ℕ (Queue ℕ)
pushing = drive (protocol 2 4) (push true 8 ∷ []) (new zeros)

plain_push_passes_example :
    (produce (protocol 2 4) pushing.producer pushing).producer ≡ Producer.writing 8
unfolding drive
plain_push_passes_example =
    plain_push_passes 2 4 zeros (omega arith)
      (drive-Reach (protocol 2 4) (push true 8 ∷ []) (new zeros)) refl (omega arith)

abbrev popping : Machine ℕ (Queue ℕ)
popping =
    drive (protocol 2 4) (pop true ∷ producer ∷ producer ∷ producer ∷ push true 8 ∷ []) (new zeros)

plain_pop_passes_example :
    (consume (protocol 2 4) popping.consumer popping).consumer ≡ Consumer.reading
unfolding drive produce Plain.has_room Plain.new mask
plain_pop_passes_example =
    plain_pop_passes 2 4 zeros (omega arith)
      (drive-Reach (protocol 2 4) (pop true ∷ producer ∷ producer ∷ producer ∷ push true 8 ∷ [])
        (new zeros))
      refl (omega arith)

-- Five values have gone by and one is left.
abbrev one : Queue ℕ
one = record { write_index = 2; read_index = 1; buffer = λ j. if j == 17 then 7 else 0 }

one-Rep : Rep 2 4 quiet false (7 ∷ []) one
unfolding padding
one-Rep = record {
  reads = 5;
  ring = record { read_at = refl; write_at = refl; fits = omega arith; cells = (refl, tt) };
}

plain_spinning_example :
    (Plain.emplace 2 4 1 9 one ≡ (if ltb 1 3 then some (Plain.try_emplace 2 4 9 one).1 else none))
    × (Plain.pop 2 4 1 one ≡ some (7, Plain.discard 2 4 one))
plain_spinning_example = plain_spinning 2 4 (omega arith) 0 9 one-Rep

plain_answers_example :
    ((Plain.dequeue 2 4 one ≡ Plain.try_pop 2 4 one)
      × (Plain.try_dequeue 2 4 false one ≡ (true, none, (Plain.try_pop 2 4 one).1))
      × ((Plain.try_pop 2 4 one).0 ≡ some 7))
    × ((Plain.size 2 4 one ≡ 1)
        × (Plain.empty 2 4 one ≡ false)
        × (Option.map one.buffer (Plain.front 2 4 one) ≡ some 7))
plain_answers_example = plain_answers 2 4 (omega arith) false one-Rep

plain_accesses_in_range_example :
    (2 + padding 4 + padding 4 < nslots 2 4) × (1 + padding 4 + padding 4 < nslots 2 4)
plain_accesses_in_range_example = plain_accesses_in_range 2 4 (omega arith) one-Rep
