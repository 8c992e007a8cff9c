-- ===== src/Mpmc/States/Tests.antt =====
-- include/mpmc_1.h: the theorems at concrete inputs, on two slots of 8 bytes.
use lock_free_stuffs.Prelude.{ℕ, zero, suc, ◌≡◌, ◌≢◌, refl, true, some, none, [], ◌∷◌, arith, mask}
use lock_free_stuffs.Spsc.Layout.{padding}
use lock_free_stuffs.Mpmc.Remap
use lock_free_stuffs.Mpmc.Remap.{shuffle_bits, remap_index}
use lock_free_stuffs.Mpmc.Inv.{Once, Delivered}
use lock_free_stuffs.Mpmc.States.Machine.{
  Machine, start, take_push, take_pop, go, Reach, here, next, begin_push, begin_pop, goes,
}
use lock_free_stuffs.Mpmc.States.Inv.{OfSlot}
use lock_free_stuffs.Mpmc.States.Order.{states_delivers, states_no_race}
use lock_free_stuffs.Mpmc.States
use lock_free_stuffs.Mpmc.States.{
  Queue, new, size, push_direct, try_emplace, try_pop, try_dequeue, looks_empty,
}
use lock_free_stuffs.Mpmc.States.Rep.{Holds, new-Holds}
use lock_free_stuffs.Mpmc.States.Alone.{states_alone}

abbrev zeros : ℕ → ℕ
zeros i = 0

-- Where the slot is not free, the call that has taken its ticket waits for ever.
waits : push_direct 1 8 5 7 0 (record (new zeros) { states = λ j. States.loading }) ≡ none
unfolding new push_direct
waits = refl

states_alone_example :
    ((pushed : Queue ℕ) × (try_emplace 1 8 1 7 (new zeros) ≡ some (true, pushed))
      × Holds 1 8 (7 ∷ []) pushed)
    × ((popped : Queue ℕ) × (try_pop 1 8 1 (new zeros) ≡ some (none, new zeros))
        × Holds 1 8 [] (new zeros))
    × (size (new zeros) ≡ 0)
unfolding new
states_alone_example = states_alone 1 8 0 7 (omega arith) (new-Holds 1 8 zeros) (omega arith)

-- Thread `i` goes `n` steps.
abbrev steps : ℕ → ℕ → Machine ℕ → Machine ℕ
steps zero i m = m
steps (suc n) i m = go 1 8 i ((steps n i m).threads i) (steps n i m)

-- On two slots, thread 0 takes the ticket 0 for a push of 7 and stops. Thread 1 pushes 8 and then 9,
-- which gets the ticket 2 and with it the slot of ticket 0. Thread 2 pops twice.
abbrev second : Machine ℕ
second = take_push 1 9 (steps 3 1 (take_push 1 8 (take_push 0 7 (start 1 8 zeros))))

abbrev overtaken : Machine ℕ
overtaken = steps 3 2 (take_pop 2 (steps 3 2 (take_pop 2 (steps 3 1 second))))

-- What one thread pushed as 8 and 9 another pops as 9 and 8.
overtaken_lem : overtaken.got ≡ (1, 8) ∷ (2, 9) ∷ []
unfolding new take_push take_pop go States.set_state States.state_index remap_index shuffle_bits
    Remap.cache_line_index_bits mask States.store_value padding States.buffer_index
overtaken_lem = refl

abbrev goes_on : (n i : ℕ) {m : Machine ℕ} → Reach 1 8 zeros m → Reach 1 8 zeros (steps n i m)
goes_on zero i r = r
goes_on (suc n) i r = next (goes_on n i r) (goes i)

abbrev overtaken-Reach : Reach 1 8 zeros overtaken
unfolding new take_push take_pop go States.set_state States.state_index remap_index shuffle_bits
    Remap.cache_line_index_bits mask States.store_value padding States.buffer_index
overtaken-Reach = goes_on 3 2 (
    next
      (goes_on 3 2 (
        next
          (goes_on 3 1 (
            next (goes_on 3 1 (next (next here (begin_push 0 7 refl)) (begin_push 1 8 refl)))
              (begin_push 1 9 refl)))
          (begin_pop 2 refl)))
      (begin_pop 2 refl))

states_delivers_example :
    Delivered overtaken.pushes overtaken.issued overtaken.got
    × Once overtaken.got
    × OfSlot 1 overtaken.served
unfolding new take_push take_pop go States.set_state States.state_index remap_index shuffle_bits
    Remap.cache_line_index_bits mask States.store_value padding States.buffer_index
states_delivers_example = states_delivers 1 8 zeros {m = overtaken} overtaken-Reach (omega arith)

-- Thread 0 has claimed the first slot and thread 1 the second.
abbrev claiming : Machine ℕ
claiming = steps 1 1 (steps 1 0 (take_push 1 8 (take_push 0 7 (start 1 8 zeros))))

states_no_race_example : States.buffer_index 1 8 1 ≢ States.buffer_index 1 8 0
unfolding new take_push take_pop go States.set_state States.state_index remap_index shuffle_bits
    Remap.cache_line_index_bits mask States.store_value padding States.buffer_index
states_no_race_example =
    states_no_race 1 8 zeros {m = claiming} 0 1
      (goes_on 1 1 (goes_on 1 0 (next (next here (begin_push 0 7 refl)) (begin_push 1 8 refl))))
      (omega arith) (omega arith) refl refl
