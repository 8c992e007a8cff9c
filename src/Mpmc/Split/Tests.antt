-- ===== src/Mpmc/Split/Tests.antt =====
-- include/mpmc_seq_split.h and its remap_index: the theorems at concrete inputs.
use lock_free_stuffs.Prelude.{ℕ, ◌<◌, ◌≡◌, ◌≢◌, refl, [], ◌∷◌, mask, arith}
use lock_free_stuffs.Spsc.Layout.{padding}
use lock_free_stuffs.Mpmc.Ring.{size}
use lock_free_stuffs.Mpmc.Machine
use lock_free_stuffs.Mpmc.Machine.{
  idle, push_writes, pop_reads, try_push_loads, try_pop_loads, set_thread, start, go, Reach, here,
  next, begin_try_push, begin_try_pop, goes, fails, fail,
}
use lock_free_stuffs.Mpmc.Remap
use lock_free_stuffs.Mpmc.Remap.{shuffle_bits, remap_index}
use lock_free_stuffs.Mpmc.Remap.Twice.{remap_index_twice}
use lock_free_stuffs.Mpmc.Split.{Arrays, ring, new, value_index}
use lock_free_stuffs.Mpmc.Split
use lock_free_stuffs.Mpmc.Inv.{Delivered, Once}
use lock_free_stuffs.Mpmc.Split.Order.{split_delivers, split_no_race}

-- 16 values of 16 bytes: 6 = 0b0110 becomes 0b1001.
remapped : remap_index (shuffle_bits 4 4) 6 ≡ 9
unfolding remap_index shuffle_bits Remap.cache_line_index_bits Remap.mix mask
remapped = refl

remap_index_twice_example :
    (remap_index (shuffle_bits 4 4) (remap_index (shuffle_bits 4 4) 6) ≡ 6)
    × (remap_index (shuffle_bits 4 4) 6 < 16)
remap_index_twice_example = remap_index_twice 4 4 6 (omega arith)

abbrev zeros : ℕ → ℕ
zeros i = 0

abbrev Run : Type 0
Run = Machine.Machine ℕ (Arrays ℕ)

-- Sixteen values of 16 bytes; thread `i` goes one step.
abbrev step : ℕ → Run → Run
step i m = go 4 (ring 4 16) i (m.threads i) m

abbrev started : Run
started = start 4 (ring 4 16) (new 4 zeros)

-- Thread 0 tries to push 7; its first compare and swap fails without cause.
abbrev pushing : Run
pushing = record started { threads = set_thread 0 (try_push_loads 7) started.threads }

abbrev retried : Run
retried = let m = step 0 (step 0 pushing) in fail 0 (m.threads 0) m

abbrev stored : Run
stored = step 0 (step 0 (step 0 (step 0 (step 0 retried))))

-- Then thread 1 pops it, while thread 0 tries to push 8.
abbrev popping : Run
popping = record stored { threads = set_thread 1 try_pop_loads stored.threads }

abbrev both : Run
both =
    let m = step 1 (step 1 (step 1 popping)) in
    step 0 (step 0 (step 0 (record m { threads = set_thread 0 (try_push_loads 8) m.threads })))

abbrev ended : Run
ended = step 1 (step 1 both)

ended_lem : ended.got ≡ (0, 7) ∷ []
unfolding go fail Split.new Split.number_slots Split.store_sequence Split.store_value
    Split.load_value Split.load_sequence Machine.has_turn Machine.behind value_index Split.seq_index
    remap_index shuffle_bits Remap.cache_line_index_bits Remap.mix padding mask
ended_lem = refl

abbrev both-Reach : Reach 4 (ring 4 16) (new 4 zeros) both
unfolding go fail Split.new Split.number_slots Split.store_sequence Split.store_value
    Split.load_value Split.load_sequence Machine.has_turn Machine.behind value_index Split.seq_index
    remap_index shuffle_bits Remap.cache_line_index_bits Remap.mix padding mask
both-Reach =
    next
      (next
        (next
          (next
            (next
              (next
                (next
                  (next
                    (next
                      (next
                        (next
                          (next
                            (next
                              (next
                                (next (next (next here (begin_try_push 0 7 refl)) (goes 0))
                                  (goes 0))
                                (fails 0))
                              (goes 0))
                            (goes 0))
                          (goes 0))
                        (goes 0))
                      (goes 0))
                    (begin_try_pop 1 refl))
                  (goes 1))
                (goes 1))
              (goes 1))
            (begin_try_push 0 8 refl))
          (goes 0))
        (goes 0))
      (goes 0)

split_delivers_example :
    Delivered ended.pushes ended.issued ended.got × Once ended.got × (size ended.queue ≡ 1)
unfolding go fail Split.new Split.number_slots Split.store_sequence Split.store_value
    Split.load_value Split.load_sequence Machine.has_turn Machine.behind value_index Split.seq_index
    remap_index shuffle_bits Remap.cache_line_index_bits Remap.mix padding mask
split_delivers_example =
    split_delivers 4 16 zeros {m = ended} (omega arith) (next (next both-Reach (goes 1)) (goes 1))
      (omega arith, omega arith)

split_no_race_example : value_index 4 16 0 ≢ value_index 4 16 1
unfolding go fail Split.new Split.number_slots Split.store_sequence Split.store_value
    Split.load_value Split.load_sequence Machine.has_turn Machine.behind value_index Split.seq_index
    remap_index shuffle_bits Remap.cache_line_index_bits Remap.mix padding mask
split_no_race_example =
    split_no_race 4 16 zeros {m = both} 0 1 {c = 1} {d = 0} {v = 8} (omega arith) both-Reach
      (omega arith, omega arith) refl refl
