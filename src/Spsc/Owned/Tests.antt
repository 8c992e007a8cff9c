-- ===== src/Spsc/Owned/Tests.antt =====
-- include/spsc_final.h, LockFreeQueue2<T, SIZE, false>: the theorems at concrete inputs.
use lock_free_stuffs.Prelude.{
  ℕ, ◌≡◌, refl, true, false, Option, none, some, List, [], ◌∷◌, mask, ltb, ◌==◌, if◌then◌else◌,
  arith,
}
use lock_free_stuffs.Fifo
use lock_free_stuffs.Fifo.{Op, Reply, put, get, put_was, got, fifo}
use lock_free_stuffs.Spsc.Layout.{padding, slot_index}
use lock_free_stuffs.Spsc.Protocol.{quiet}
use lock_free_stuffs.Spsc.Machine.{Machine, produce, consume}
use lock_free_stuffs.Spsc.Schedule.{Move, push, pop, producer, consumer, drive, drive-Reach}
use lock_free_stuffs.Spsc.Order.{InOrder}
use lock_free_stuffs.Spsc.Counted.{Queue}
use lock_free_stuffs.Spsc.Counted
use lock_free_stuffs.Spsc.Owned
use lock_free_stuffs.Spsc.Owned.{new, calls, protocol, destructor, read_value}
use lock_free_stuffs.Spsc.Owned.Rep.{Rep}
use lock_free_stuffs.Spsc.Owned.Order.{owned_refines, owned-InOrder}
use lock_free_stuffs.Spsc.Owned.Observers.{owned_spinning, owned_pop}
use lock_free_stuffs.Spsc.Owned.Lifetime.{owned_constructs_raw, owned_destructor}

abbrev script : List (Op ℕ)
script = get ∷ put 1 ∷ put 2 ∷ put 3 ∷ put 4 ∷ get ∷ put 5 ∷ get ∷ []

script_replies :
    Fifo.run (calls 2 4) new script
    ≡ got none
      ∷ put_was true
      ∷ put_was true
      ∷ put_was true
      ∷ put_was false
      ∷ got (some 1)
      ∷ put_was true
      ∷ got (some 2)
      ∷ []
unfolding Fifo.run Owned.try_emplace Owned.try_pop Counted.has_room Counted.has_value
    Owned.construct_slot Counted.publish_write Owned.read_value Owned.release Owned.destroy_slot
    Counted.discard Counted.new Owned.new Counted.load_read_index Counted.load_write_index
    slot_index padding mask
script_replies = refl

owned_refines_example : Fifo.run (calls 2 4) new script ≡ Fifo.run (fifo 3) [] script
owned_refines_example = owned_refines 2 4 script (omega arith)

-- Two pushes and a pop, interleaved; the first move stands last.
abbrev schedule : List (Move ℕ)
schedule =
    consumer
    ∷ producer
    ∷ consumer
    ∷ producer
    ∷ consumer
    ∷ producer
    ∷ push true 8
    ∷ producer
    ∷ producer
    ∷ pop true
    ∷ producer
    ∷ push false 7
    ∷ []

abbrev after : Machine ℕ (Queue (Option ℕ))
after = drive (protocol 2 4) schedule new

owned-InOrder_example : InOrder 3 after
owned-InOrder_example = owned-InOrder 2 4 (omega arith) (drive-Reach (protocol 2 4) schedule new)

-- The second push is about to construct its value.
abbrev writing : List (Move ℕ)
writing = producer ∷ push true 8 ∷ producer ∷ producer ∷ producer ∷ push false 7 ∷ []

owned_constructs_raw_example :
    (drive (protocol 2 4) writing new).queue.buffer
      (slot_index 2 4 (drive (protocol 2 4) writing new).queue.write_index)
    ≡ none
unfolding drive produce Counted.has_room Counted.new Owned.new Counted.load_read_index
    Counted.publish_write Owned.construct_slot slot_index mask
owned_constructs_raw_example =
    owned_constructs_raw 2 4 {v = 8} (omega arith) (drive-Reach (protocol 2 4) writing new) refl

-- Both threads are between calls, and the value 8 is left.
owned_destructor_example :
    (b : ℕ → Option ℕ) × (destructor 2 4 4 after.queue ≡ some b) × ((p : ℕ) → b p ≡ none)
unfolding drive produce consume Counted.has_room Counted.has_value Counted.new Owned.new
    Counted.load_read_index Counted.load_write_index Counted.publish_write Owned.construct_slot
    Counted.discard Owned.release Owned.destroy_slot Owned.read_value slot_index padding mask
owned_destructor_example =
    owned_destructor 2 4 4 (omega arith) (omega arith) (drive-Reach (protocol 2 4) schedule new)
      refl refl

-- One value is left, the sixth.
abbrev one : Queue (Option ℕ)
one = record {
  write_index = 6;
  read_index_cache = 4;
  published_write = 6;
  read_index = 5;
  write_index_cache = 6;
  published_read = 5;
  buffer = λ j. if j == 17 then some 7 else none;
}

one-Rep : Rep 2 4 quiet false (7 ∷ []) one
unfolding padding slot_index mask
one-Rep = record {
  stands = record {
    reads = 5;
    ring = record { read_at = refl; write_at = refl; fits = omega arith; cells = (refl, tt) };
    caches = record {
      read_seen = 4;
      write_seen = 6;
      read_cached = refl;
      write_cached = refl;
      read_old = omega arith;
      read_near = omega arith;
      write_old = omega arith;
      write_near = omega arith;
    };
    write_published = refl;
    read_published = refl;
  };
  raw = λ p out. ground (arith, out 0 (omega arith));
}

owned_spinning_example :
    (Owned.emplace 2 4 2 9 one
      ≡ (if ltb 1 3 then some (0, (Owned.try_emplace 2 4 9 one).1) else none))
    × (Owned.pop 2 4 2 one ≡ some (0, some 7, (Owned.try_pop 2 4 one).1))
owned_spinning_example = owned_spinning 2 4 (omega arith) 0 9 one-Rep

owned_pop_example : Owned.pop 2 4 2 one ≡ some (0, some 7, (Owned.try_pop 2 4 one).1)
owned_pop_example = owned_pop 2 4 (omega arith) 0 one-Rep
