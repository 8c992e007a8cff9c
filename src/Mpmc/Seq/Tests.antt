-- ===== src/Mpmc/Seq/Tests.antt =====
-- include/mpmc_seq.h: the theorems at concrete runs on two slots of 64 bytes.
use lock_free_stuffs.Prelude.{ℕ, ◌≤◌, ◌≡◌, ◌≢◌, refl, true, false, none, some, [], ◌∷◌, mask, arith}
use lock_free_stuffs.Spsc.Layout.{slot_index, padding}
use lock_free_stuffs.Mpmc.Ring.{Queue, size, empty}
use lock_free_stuffs.Mpmc.Machine
use lock_free_stuffs.Mpmc.Machine.{
  idle, push_writes, pop_reads, try_push_tests, try_push_loads, set_thread, start, take_push,
  take_pop, go, Reach, here, next, begin_push, begin_pop, begin_try_push, goes,
}
use lock_free_stuffs.Mpmc.Seq.{Slot, ring, new}
use lock_free_stuffs.Mpmc.Seq
use lock_free_stuffs.Mpmc.Seq.Laws.{ring-Lawful, new_numbered}
use lock_free_stuffs.Mpmc.Inv.{Delivered, Once, Unused}
use lock_free_stuffs.Mpmc.Refuse.{try_refuses}
use lock_free_stuffs.Mpmc.Calls.{try_emplace, try_pop, Holds}
use lock_free_stuffs.Mpmc.Alone.{new-Holds, calls_alone}
use lock_free_stuffs.Mpmc.Seq.Order.{seq_delivers, seq_no_race, seq_size}

abbrev zeros : ℕ → ℕ
zeros i = 0

abbrev Run : Type 0
Run = Machine.Machine ℕ (ℕ → Slot ℕ)

-- Thread `i` goes one step.
abbrev step : ℕ → ℕ → Run → Run
step k i m = go k (ring k 64) i (m.threads i) m

-- Thread 1 takes a pop's ticket first, threads 0 and 2 push, and the first push is published.
abbrev begun : ℕ → Run
begun k = step k 0 (
    step k 0 (
      step k 0 (take_push 2 8 (take_push 0 7 (take_pop 1 (start k (ring k 64) (new k 64 zeros)))))))

abbrev begun-Reach : (k : ℕ) → Reach k (ring k 64) (new k 64 zeros) (begun k)
unfolding take_push take_pop
begun-Reach k =
    next
      (next
        (next
          (next (next (next here (begin_pop 1 refl)) (begin_push 0 7 refl)) (begin_push 2 8 refl))
          (goes 0))
        (goes 0))
      (goes 0)

-- Thread 1 is about to read what thread 0 pushed, and thread 2 to store its value.
abbrev both : Run
both = step 1 2 (step 1 1 (begun 1))

abbrev ended : Run
ended = step 1 1 (step 1 1 both)

ended_lem : ended.got ≡ (0, 7) ∷ []
unfolding go take_push take_pop Seq.new Seq.number_slots Seq.store_sequence Seq.store_value
    Seq.load_value Seq.load_sequence Machine.has_turn slot_index padding mask
ended_lem = refl

-- With one slot the number of a pop's turn is that of the next push's: the second push overwrites
-- the first value, which the pop was about to read.
abbrev overwritten : Run
overwritten = step 0 1 (step 0 1 (step 0 2 (step 0 2 (step 0 1 (begun 0)))))

overwritten_lem : overwritten.got ≡ (0, 8) ∷ []
unfolding go take_push take_pop Seq.new Seq.number_slots Seq.store_sequence Seq.store_value
    Seq.load_value Seq.load_sequence Machine.has_turn slot_index padding mask
overwritten_lem = refl

seq_delivers_example : Delivered ended.pushes ended.issued ended.got × Once ended.got
unfolding go take_push take_pop Seq.new Seq.number_slots Seq.store_sequence Seq.store_value
    Seq.load_value Seq.load_sequence Machine.has_turn slot_index padding mask
seq_delivers_example =
    seq_delivers 1 64 zeros {m = ended} (omega arith)
      (next (next (next (next (begun-Reach 1) (goes 1)) (goes 2)) (goes 1)) (goes 1))
      (omega arith, omega arith)

seq_no_race_example : slot_index 1 64 0 ≢ slot_index 1 64 1
unfolding go take_push take_pop Seq.new Seq.number_slots Seq.store_sequence Seq.store_value
    Seq.load_value Seq.load_sequence Machine.has_turn slot_index padding mask
seq_no_race_example =
    seq_no_race 1 64 zeros {m = both} 2 1 {c = 1} {d = 0} {v = 8} (omega arith)
      (next (next (begun-Reach 1) (goes 1)) (goes 2)) (omega arith, omega arith) refl refl

-- One value is left to pop.
seq_size_example : (size ended.queue ≡ 1) × (empty ended.queue ≡ false)
unfolding go take_push take_pop Seq.new Seq.number_slots Seq.store_sequence Seq.store_value
    Seq.load_value Seq.load_sequence Machine.has_turn slot_index padding mask
seq_size_example =
    seq_size 1 64 zeros {m = ended} (omega arith)
      (next (next (next (next (begun-Reach 1) (goes 1)) (goes 2)) (goes 1)) (goes 1))
      (omega arith, omega arith)

-- Threads 0 and 2 have taken the two slots; a third push loads the head and gives up.
abbrev filled : Run
filled = take_push 2 8 (take_push 0 7 (start 1 (ring 1 64) (new 1 64 zeros)))

abbrev trying : Run
trying = step 1 1 (record filled { threads = set_thread 1 (try_push_loads 9) filled.threads })

trying-Reach : Reach 1 (ring 1 64) (new 1 64 zeros) trying
unfolding take_push
trying-Reach =
    next
      (next (next (next here (begin_push 0 7 refl)) (begin_push 2 8 refl))
        (begin_try_push 1 9 refl))
      (goes 1)

try_refuses_example : (2 ≤ 2) × Unused 0 trying.got
unfolding go take_push take_pop Seq.new Seq.number_slots Seq.store_sequence Seq.store_value
    Seq.load_value Seq.load_sequence Machine.has_turn Machine.behind slot_index padding mask
try_refuses_example =
    try_refuses 1 (ring 1 64) (ring-Lawful 1 64) (new 1 64 zeros) {m = trying} 1 2 9 (omega arith)
      (new_numbered 1 64 zeros) trying-Reach (omega arith) refl refl

abbrev nothing_in : Queue (ℕ → Slot ℕ)
nothing_in = record { head = 0; tail = 0; slots = new 1 64 zeros }

calls_alone_example :
    ((pushed : Queue (ℕ → Slot ℕ)) × (try_emplace 1 (ring 1 64) 1 7 nothing_in
        ≡ some (true, pushed))
      × Holds 1 (ring 1 64) (7 ∷ []) pushed)
    × ((popped : Queue (ℕ → Slot ℕ)) × (try_pop 1 (ring 1 64) 1 nothing_in
          ≡ some (none, nothing_in))
        × Holds 1 (ring 1 64) [] nothing_in)
calls_alone_example =
    calls_alone 1 (ring 1 64) (ring-Lawful 1 64) 0 7 (omega arith)
      (new-Holds 1 (ring 1 64) (ring-Lawful 1 64) (new 1 64 zeros) (new_numbered 1 64 zeros))
      (omega arith)
