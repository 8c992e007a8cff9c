-- ===== src/Spsc/Cached.antt =====
-- include/spsc_1.h, spsc_2.h and spsc_3.h: LockFreeQueue1, LockFreeQueueStage2 and
-- LockFreeQueueStage3, a ring with masked indices where each thread keeps a copy of the other's
-- index. The three classes have one text but for the pauses of the spinning loops, which are the
-- parameter `pauses`: how many `_mm_pause` a round makes, given whether its test still holds after
-- the refresh. The constants padding_cache_ and capacity_cache_ are never read.
pub mod Rep
pub mod Laws
pub mod Order
pub mod Observers
pub mod Tests
use lock_free_stuffs.Prelude.{
  ℕ, zero, suc, ◌+◌, ◌-◌, ◌^◌, Bool, true, false, not, Option, none, some, ◌==◌, if◌then◌else◌,
  mask, add_size, sub_size,
}
use mathlib.Core.Option
use lock_free_stuffs.Fifo.{Calls}
use lock_free_stuffs.Spsc.Cells.{write}
use lock_free_stuffs.Spsc.Class.{Class}
use lock_free_stuffs.Spsc.Layout.{padding}
use lock_free_stuffs.Spsc.Protocol.{Protocol}

-- `writer_` (the first two fields), `reader_` and `buffer_`
pub record Queue {ℓ} (A : Type ℓ) : Type ℓ where
  pub write_index : ℕ
  pub read_index_cache : ℕ
  pub read_index : ℕ
  pub write_index_cache : ℕ
  pub buffer : ℕ → A

unfoldable pub new {ℓ} : {A : Type ℓ} → (ℕ → A) → Queue A
new raw = record {
  write_index = 0;
  read_index_cache = 0;
  read_index = 0;
  write_index_cache = 0;
  buffer = raw;
}

unfoldable pub capacity : ℕ → ℕ
capacity k = 2 ^ k - 1

module _ {ℓ} {A : Type ℓ} (k elem : ℕ) where
  unfoldable pub load_read_index : Queue A → Queue A
  load_read_index q = record q { read_index_cache = q.read_index }

  unfoldable pub load_write_index : Queue A → Queue A
  load_write_index q = record q { write_index_cache = q.write_index }

  -- the test against the cached index
  abbrev pub looks_full : Queue A → Bool
  looks_full q = mask k (add_size q.write_index 1) == q.read_index_cache

  abbrev pub looks_empty : Queue A → Bool
  looks_empty q = q.read_index == q.write_index_cache

  -- the test of `try_emplace`, which refreshes the cache where it seems full
  unfoldable pub has_room : Queue A → Bool × Queue A
  has_room q =
      if looks_full q then (not (looks_full (load_read_index q)), load_read_index q) else (true, q)

  -- the test of `try_pop`
  unfoldable pub has_value : Queue A → Bool × Queue A
  has_value q =
      if looks_empty q
      then (not (looks_empty (load_write_index q)), load_write_index q)
      else (true, q)

  unfoldable pub store_value : A → Queue A → Queue A
  store_value v q = record q { buffer = write q.buffer (q.write_index + padding elem) v }

  unfoldable pub publish_write : Queue A → Queue A
  publish_write q = record q { write_index = mask k (add_size q.write_index 1) }

  unfoldable pub load_value : Queue A → A
  load_value q = q.buffer (q.read_index + padding elem)

  -- `void pop()`
  unfoldable pub discard : Queue A → Queue A
  discard q = record q { read_index = mask k (add_size q.read_index 1) }

  unfoldable pub try_emplace : A → Queue A → Bool × Queue A
  try_emplace v q =
      let (room, q') = has_room q in
      if room then (true, publish_write (store_value v q')) else (false, q')

  unfoldable pub try_pop : Queue A → Option A × Queue A
  try_pop q =
      let (ready, q') = has_value q in
      if ready then (some (load_value q'), discard q') else (none, q')

  unfoldable pub enqueue : A → Queue A → Bool × Queue A
  enqueue item q = try_emplace item q

  unfoldable pub front : Queue A → Option ℕ × Queue A
  front q =
      let (ready, q') = has_value q in
      if ready then (some (q'.read_index + padding elem), q') else (none, q')

  unfoldable pub dequeue : Queue A → Option A × Queue A
  dequeue q =
      let (ready, q') = has_value q in
      if ready then (some (load_value q'), discard q') else (none, q')

  -- `wanted` is `out != nullptr`; the option is what is written through `out`
  unfoldable pub try_dequeue : Bool → Queue A → Bool × Option A × Queue A
  try_dequeue wanted q =
      let (ready, q') = has_value q in
      if ready
      then (true, if wanted then some (load_value q') else none, discard q')
      else (false, none, q')

  unfoldable pub empty : Queue A → Bool
  empty q = q.write_index == q.read_index

  unfoldable pub size : Queue A → ℕ
  size q = mask k (sub_size q.write_index q.read_index)

  -- The spinning loops with the pauses that they made, `none` while they have not ended in `fuel`
  -- rounds.
  module _ (pauses : Bool → ℕ) where
    unfoldable pub emplace : ℕ → A → Queue A → Option (ℕ × Queue A)
    emplace zero v q = none
    emplace (suc fuel) v q =
        let again =
          Option.map (λ (r : ℕ × Queue A). (r.0 + pauses (looks_full (load_read_index q)), r.1))
            (emplace fuel v (load_read_index q)) in
        if looks_full q then again else some (0, publish_write (store_value v q))

    unfoldable pub pop : ℕ → Queue A → Option (ℕ × A × Queue A)
    pop zero q = none
    pop (suc fuel) q =
        let again =
          Option.map
            (λ (r : ℕ × A × Queue A). (r.0 + pauses (looks_empty (load_write_index q)), r.1, r.2))
            (pop fuel (load_write_index q)) in
        if looks_empty q then again else some (0, load_value q, discard q)

  abbrev pub calls : Calls A (Queue A)
  calls = record { try_push = try_emplace; try_pop = try_pop }

  abbrev pub protocol : Protocol A (Queue A)
  protocol = record {
    reserve = has_room;
    write_slot = store_value;
    publish_write = publish_write;
    acquire = has_value;
    read_slot = λ q. some (load_value q);
    publish_read = discard;
  }

  abbrev pub class : (Bool → ℕ) → Class A (Queue A)
  class pauses = record {
    emplace = emplace pauses;
    pop = pop pauses;
    try_emplace = try_emplace;
    try_pop = try_pop;
    enqueue = enqueue;
    front = front;
    discard = discard;
    dequeue = dequeue;
    try_dequeue = try_dequeue;
    empty = empty;
    size = size;
    capacity = capacity k;
  }

  -- LockFreeQueue1, whose spinning loops never pause
  unfoldable pub stage1 : Class A (Queue A)
  stage1 = class (λ still. 0)

  -- LockFreeQueueStage2: one pause in every round
  unfoldable pub stage2 : Class A (Queue A)
  stage2 = class (λ still. 1)

  -- LockFreeQueueStage3: one pause in a round that finds the ring still full, or still empty
  unfoldable pub stage3 : Class A (Queue A)
  stage3 = class (λ still. if still then 1 else 0)
