-- ===== src/Spsc/Counted/Tests.antt =====
-- include/spsc_4.h, spsc_5.h and the direct-slot class of spsc_final.h: the theorems at concrete inputs, and runs that can be followed in the source.
use lock_free_stuffs.Prelude.{
  ℕ, ◌≡◌, refl, ◌⊎◌, true, false, none, some, List, [], ◌∷◌, mask, ltb, ◌==◌, if◌then◌else◌, arith,
}
use mathlib.Core.Option
use lock_free_stuffs.Fifo
use lock_free_stuffs.Fifo.{Op, Reply, put, get, put_was, got, fifo}
use lock_free_stuffs.Spsc.Layout.{padding, slot_index}
use lock_free_stuffs.Spsc.Protocol.{quiet}
use lock_free_stuffs.Spsc.Machine.{Machine, Producer, Consumer, produce, consume}
use lock_free_stuffs.Spsc.Schedule.{Move, push, pop, producer, consumer, drive, drive-Reach}
use lock_free_stuffs.Spsc.Order.{InOrder}
use lock_free_stuffs.Spsc.Counted
use lock_free_stuffs.Spsc.Counted.{Queue, new, calls, protocol}
use lock_free_stuffs.Spsc.Counted.Rep.{Rep}
use lock_free_stuffs.Spsc.Counted.Order.{
  counted_refines, counted-InOrder, counted_push_passes, counted_pop_passes,
}
use lock_free_stuffs.Spsc.Counted.Observers.{counted_spinning, counted_answers}
use lock_free_stuffs.Spsc.Counted.Bounds.{Inner, Points, Stores, Loads, counted_accesses_in_range}

abbrev zeros : ℕ → ℕ
zeros i = 0

abbrev script : List (Op ℕ)
script = get ∷ put 1 ∷ put 2 ∷ put 3 ∷ put 4 ∷ get ∷ put 5 ∷ get ∷ get ∷ get ∷ get ∷ []

-- A ring of four elements takes three values.
script_replies :
    Fifo.run (calls 2 4) (new zeros) script
    ≡ got none
      ∷ put_was true
      ∷ put_was true
      ∷ put_was true
      ∷ put_was false
      ∷ got (some 1)
      ∷ put_was true
      ∷ got (some 2)
      ∷ got (some 3)
      ∷ got (some 5)
      ∷ got none
      ∷ []
unfolding Fifo.run Counted.try_emplace Counted.try_pop Counted.has_room Counted.has_value
    Counted.store_value Counted.publish_write Counted.load_value Counted.discard Counted.new
    Counted.load_read_index Counted.load_write_index slot_index padding mask
script_replies = refl

counted_refines_example : Fifo.run (calls 2 4) (new zeros) script ≡ Fifo.run (fifo 3) [] script
counted_refines_example = counted_refines 2 4 zeros script (omega arith)

-- Two pushes and a pop, interleaved; the first move stands last.
abbrev schedule : List (Move ℕ)
schedule =
    consumer
    ∷ producer
    ∷ consumer
    ∷ producer
    ∷ consumer
    ∷ producer
    ∷ push true 8
    ∷ producer
    ∷ producer
    ∷ pop true
    ∷ producer
    ∷ push false 7
    ∷ []

counted-InOrder_example : InOrder 3 (drive (protocol 2 4) schedule (new zeros))
counted-InOrder_example =
    counted-InOrder 2 4 zeros (omega arith) (drive-Reach (protocol 2 4) schedule (new zeros))

abbrev pushing : Machine ℕ (Queue ℕ)
pushing = drive (protocol 2 4) (push true 8 ∷ []) (new zeros)

counted_push_passes_example :
    (produce (protocol 2 4) pushing.producer pushing).producer ≡ Producer.writing 8
unfolding drive
counted_push_passes_example =
    counted_push_passes 2 4 zeros (omega arith)
      (drive-Reach (protocol 2 4) (push true 8 ∷ []) (new zeros)) refl (omega arith)

abbrev popping : Machine ℕ (Queue ℕ)
popping =
    drive (protocol 2 4) (pop true ∷ producer ∷ producer ∷ producer ∷ push true 8 ∷ []) (new zeros)

counted_pop_passes_example :
    (consume (protocol 2 4) popping.consumer popping).consumer ≡ Consumer.reading
unfolding drive produce Counted.has_room Counted.new Counted.load_read_index
    Counted.load_write_index slot_index mask
counted_pop_passes_example =
    counted_pop_passes 2 4 zeros (omega arith)
      (drive-Reach (protocol 2 4) (pop true ∷ producer ∷ producer ∷ producer ∷ push true 8 ∷ [])
        (new zeros))
      refl (omega arith)

-- Five values have gone by and one is left.
abbrev one : Queue ℕ
one = record {
  write_index = 6;
  read_index_cache = 4;
  published_write = 6;
  read_index = 5;
  write_index_cache = 6;
  published_read = 5;
  buffer = λ j. if j == 17 then 7 else 0;
}

one-Rep : Rep 2 4 quiet false (7 ∷ []) one
unfolding padding
one-Rep = record {
  reads = 5;
  ring = record { read_at = refl; write_at = refl; fits = omega arith; cells = (refl, tt) };
  caches = record {
    read_seen = 4;
    write_seen = 6;
    read_cached = refl;
    write_cached = refl;
    read_old = omega arith;
    read_near = omega arith;
    write_old = omega arith;
    write_near = omega arith;
  };
  write_published = refl;
  read_published = refl;
}

counted_spinning_example :
    (Counted.emplace 2 4 (λ still. if still then 1 else 0) 2 9 one ≡ (
      if ltb 1 3
      then some (if Counted.looks_full 2 4 one then 0 else 0, (Counted.try_emplace 2 4 9 one).1)
      else none))
    × (Counted.pop 2 4 (λ still. if still then 1 else 0) 2 one
        ≡ some (if Counted.looks_empty 2 4 one then 0 else 0, 7, (Counted.try_pop 2 4 one).1))
counted_spinning_example =
    counted_spinning 2 4 (omega arith) (λ still. if still then 1 else 0) 0 9 one-Rep

counted_answers_example :
    ((Counted.dequeue 2 4 one ≡ (some 7, (Counted.try_pop 2 4 one).1))
      × (Counted.try_dequeue 2 4 false one ≡ (true, none, (Counted.try_pop 2 4 one).1)))
    × ((Counted.size 2 4 one ≡ 1)
        × (Counted.empty 2 4 one ≡ false)
        × (Option.map (Counted.front 2 4 one).1.buffer (Counted.front 2 4 one).0 ≡ some 7))
counted_answers_example = counted_answers 2 4 (omega arith) false one-Rep

-- The counters have gone round: the slot of the write counter 6 is element 18.
counted_accesses_in_range_example :
    (Inner 2 4 18 ⊎ ((Counted.try_emplace 2 4 9 one).1.buffer 18 ≡ one.buffer 18))
    × Stores 2 4 18 one (Counted.emplace 2 4 (λ still. if still then 1 else 0) 2 9 one)
    × Points 2 4 (Counted.front 2 4 one).0
    × ((Counted.try_pop 2 4 one).0 ≡ Option.map one.buffer (Counted.front 2 4 one).0)
    × ((Counted.try_pop 2 4 one).1.buffer ≡ one.buffer)
    × Loads 2 4 one (Counted.pop 2 4 (λ still. if still then 1 else 0) 2 one)
counted_accesses_in_range_example =
    counted_accesses_in_range 2 4 (λ still. if still then 1 else 0) 2 9 one 18
