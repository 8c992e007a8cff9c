-- ===== src/Spsc/Cached/Tests.antt =====
-- include/spsc_1.h to spsc_3.h: the theorems at concrete inputs, and runs that can be followed in the source.
use lock_free_stuffs.Prelude.{
  ℕ, ◌+◌, ◌<◌, ◌≡◌, refl, true, false, none, some, List, [], ◌∷◌, mask, ltb, ◌==◌, if◌then◌else◌,
  arith,
}
use mathlib.Core.Option
use lock_free_stuffs.Fifo
use lock_free_stuffs.Fifo.{Op, Reply, put, get, put_was, got, fifo}
use lock_free_stuffs.Spsc.Layout.{padding, nslots}
use lock_free_stuffs.Spsc.Protocol.{quiet}
use lock_free_stuffs.Spsc.Machine.{Machine, Producer, Consumer, produce, consume}
use lock_free_stuffs.Spsc.Schedule.{Move, push, pop, producer, consumer, drive, drive-Reach}
use lock_free_stuffs.Spsc.Order.{InOrder}
use lock_free_stuffs.Spsc.Cached
use lock_free_stuffs.Spsc.Cached.{Queue, new, calls, protocol}
use lock_free_stuffs.Spsc.Cached.Rep.{Rep}
use lock_free_stuffs.Spsc.Cached.Order.{
  cached_refines, cached-InOrder, cached_push_passes, cached_pop_passes,
}
use lock_free_stuffs.Spsc.Cached.Observers.{
  cached_spinning, cached_answers, cached_accesses_in_range,
}

abbrev zeros : ℕ → ℕ
zeros i = 0

abbrev script : List (Op ℕ)
script = get ∷ put 1 ∷ put 2 ∷ put 3 ∷ put 4 ∷ get ∷ put 5 ∷ get ∷ get ∷ get ∷ get ∷ []

-- A ring of four elements takes three values.
script_replies :
    Fifo.run (calls 2 4) (new zeros) script
    ≡ got none
      ∷ put_was true
      ∷ put_was true
      ∷ put_was true
      ∷ put_was false
      ∷ got (some 1)
      ∷ put_was true
      ∷ got (some 2)
      ∷ got (some 3)
      ∷ got (some 5)
      ∷ got none
      ∷ []
unfolding Fifo.run Cached.try_emplace Cached.try_pop Cached.has_room Cached.has_value
    Cached.store_value Cached.publish_write Cached.load_value Cached.discard Cached.new
    Cached.load_read_index Cached.load_write_index padding mask
script_replies = refl

cached_refines_example : Fifo.run (calls 2 4) (new zeros) script ≡ Fifo.run (fifo 3) [] script
cached_refines_example = cached_refines 2 4 zeros script (omega arith)

-- Two pushes and a pop, interleaved; the first move stands last.
abbrev schedule : List (Move ℕ)
schedule =
    consumer
    ∷ producer
    ∷ consumer
    ∷ producer
    ∷ consumer
    ∷ producer
    ∷ push true 8
    ∷ producer
    ∷ producer
    ∷ pop true
    ∷ producer
    ∷ push false 7
    ∷ []

cached-InOrder_example : InOrder 3 (drive (protocol 2 4) schedule (new zeros))
cached-InOrder_example =
    cached-InOrder 2 4 zeros (omega arith) (drive-Reach (protocol 2 4) schedule (new zeros))

abbrev pushing : Machine ℕ (Queue ℕ)
pushing = drive (protocol 2 4) (push true 8 ∷ []) (new zeros)

cached_push_passes_example :
    (produce (protocol 2 4) pushing.producer pushing).producer ≡ Producer.writing 8
unfolding drive
cached_push_passes_example =
    cached_push_passes 2 4 zeros (omega arith)
      (drive-Reach (protocol 2 4) (push true 8 ∷ []) (new zeros)) refl (omega arith)

abbrev popping : Machine ℕ (Queue ℕ)
popping =
    drive (protocol 2 4) (pop true ∷ producer ∷ producer ∷ producer ∷ push true 8 ∷ []) (new zeros)

cached_pop_passes_example :
    (consume (protocol 2 4) popping.consumer popping).consumer ≡ Consumer.reading
unfolding drive produce Cached.has_room Cached.new Cached.load_read_index Cached.load_write_index
    mask
cached_pop_passes_example =
    cached_pop_passes 2 4 zeros (omega arith)
      (drive-Reach (protocol 2 4) (pop true ∷ producer ∷ producer ∷ producer ∷ push true 8 ∷ [])
        (new zeros))
      refl (omega arith)

-- Five values have gone by and one is left.
abbrev one : Queue ℕ
one = record {
  write_index = 2;
  read_index_cache = 0;
  read_index = 1;
  write_index_cache = 2;
  buffer = λ j. if j == 17 then 7 else 0;
}

one-Rep : Rep 2 4 quiet false (7 ∷ []) one
unfolding padding
one-Rep = record {
  reads = 5;
  ring = record { read_at = refl; write_at = refl; fits = omega arith; cells = (refl, tt) };
  caches = record {
    read_seen = 4;
    write_seen = 6;
    read_cached = refl;
    write_cached = refl;
    read_old = omega arith;
    read_near = omega arith;
    write_old = omega arith;
    write_near = omega arith;
  };
}

cached_spinning_example :
    (Cached.emplace 2 4 (λ still. if still then 1 else 0) 2 9 one ≡ (
      if ltb 1 3
      then some (if Cached.looks_full 2 4 one then 0 else 0, (Cached.try_emplace 2 4 9 one).1)
      else none))
    × (Cached.pop 2 4 (λ still. if still then 1 else 0) 2 one
        ≡ some (if Cached.looks_empty 2 4 one then 0 else 0, 7, (Cached.try_pop 2 4 one).1))
cached_spinning_example =
    cached_spinning 2 4 (omega arith) (λ still. if still then 1 else 0) 0 9 one-Rep

cached_answers_example :
    ((Cached.dequeue 2 4 one ≡ (some 7, (Cached.try_pop 2 4 one).1))
      × (Cached.try_dequeue 2 4 false one ≡ (true, none, (Cached.try_pop 2 4 one).1)))
    × ((Cached.size 2 4 one ≡ 1)
        × (Cached.empty 2 4 one ≡ false)
        × (Option.map (Cached.front 2 4 one).1.buffer (Cached.front 2 4 one).0 ≡ some 7))
cached_answers_example = cached_answers 2 4 (omega arith) false one-Rep

cached_accesses_in_range_example :
    (2 + padding 4 + padding 4 < nslots 2 4) × (1 + padding 4 + padding 4 < nslots 2 4)
cached_accesses_in_range_example = cached_accesses_in_range 2 4 (omega arith) one-Rep
