-- ===== src/Spsc/Owned.antt =====
-- include/spsc_final.h: LockFreeQueue2<T, SIZE, false>, whose slots are raw storage in which values
-- are constructed and destroyed. Its indices are those of the direct-slot class, so a queue is the
-- record of Spsc.Counted over slots that are `none` while they are raw and `some v` while a value
-- lives in them. Destruction is not trivial here: where it is, destroy_slot does nothing and a slot
-- keeps a dead copy. The constant fields are never read.
use lock_free_stuffs.Prelude.{
  ℕ, zero, suc, ◌+◌, ◌≡◌, Bool, true, false, Option, none, some, ◌==◌, if◌then◌else◌, add_size,
}
use mathlib.Core.Option
use lock_free_stuffs.Fifo.{Calls}
use lock_free_stuffs.Spsc.Cells.{write}
use lock_free_stuffs.Spsc.Layout.{slot_index}
use lock_free_stuffs.Spsc.Protocol.{Protocol}
use lock_free_stuffs.Spsc.Counted
use lock_free_stuffs.Spsc.Counted.{
  Queue, has_room, has_value, looks_full, looks_empty, load_read_index, load_write_index,
  publish_write, discard,
}
pub mod Rep
pub mod Order
pub mod Lifetime
pub mod Observers
pub mod Tests

-- A new queue: all storage is raw.
unfoldable pub new {ℓ} : {A : Type ℓ} → Queue (Option A)
new = Counted.new (λ i. none)

module _ {ℓ} {A : Type ℓ} (k elem : ℕ) where
  -- `construct_slot` at the write index
  unfoldable pub construct_slot : A → Queue (Option A) → Queue (Option A)
  construct_slot v q = record q {
    buffer = write q.buffer (slot_index k elem q.write_index) (some v);
  }

  -- `destroy_slot`: what lives in the slot ends; the storage is raw again
  unfoldable pub destroy_slot : ℕ → (ℕ → Option A) → ℕ → Option A
  destroy_slot slot buffer = write buffer slot none

  -- `*slot_ptr(slot)` at the read index: `none` if nothing lives there
  unfoldable pub read_value : Queue (Option A) → Option A
  read_value q = q.buffer (slot_index k elem q.read_index)

  -- the end of `pop` and `try_pop`: destroy the value, then publish the new read index
  unfoldable pub release : Queue (Option A) → Queue (Option A)
  release q =
      discard k elem (record q { buffer = destroy_slot (slot_index k elem q.read_index) q.buffer })

  unfoldable pub try_emplace : A → Queue (Option A) → Bool × Queue (Option A)
  try_emplace v q =
      let (room, q') = has_room k elem q in
      if room then (true, publish_write k elem (construct_slot v q')) else (false, q')

  -- The answer is what is read, so a slot without a value shows as an empty answer.
  unfoldable pub try_pop : Queue (Option A) → Option A × Queue (Option A)
  try_pop q =
      let (ready, q') = has_value k elem q in
      if ready then (read_value q', release q') else (none, q')

  -- The spinning loops, with two pauses in a round that finds the ring still full, or still empty.
  unfoldable pub emplace : ℕ → A → Queue (Option A) → Option (ℕ × Queue (Option A))
  emplace zero v q = none
  emplace (suc fuel) v q =
      let again =
        Option.map
          (λ (r : ℕ × Queue (Option A)).
            (r.0 + (if looks_full k elem (load_read_index k elem q) then 2 else 0), r.1))
          (emplace fuel v (load_read_index k elem q)) in
      if looks_full k elem q then again else some (0, publish_write k elem (construct_slot v q))

  unfoldable pub pop : ℕ → Queue (Option A) → Option (ℕ × Option A × Queue (Option A))
  pop zero q = none
  pop (suc fuel) q =
      let again =
        Option.map
          (λ (r : ℕ × Option A × Queue (Option A)).
            (r.0 + (if looks_empty k elem (load_write_index k elem q) then 2 else 0), r.1, r.2))
          (pop fuel (load_write_index k elem q)) in
      if looks_empty k elem q then again else some (0, read_value q, release q)

  unfoldable pub empty : Queue (Option A) → Bool
  empty = Counted.empty k elem

  unfoldable pub size : Queue (Option A) → ℕ
  size = Counted.size k elem

  -- The loop of the destructor. It is `none` while it has not ended in `fuel` rounds, and where it
  -- destroys what does not live.
  unfoldable pub destroy_range : ℕ → ℕ → ℕ → (ℕ → Option A) → Option (ℕ → Option A)
  destroy_range zero read_index write_index buffer =
      if read_index == write_index then some buffer else none
  destroy_range (suc fuel) read_index write_index buffer =
      let rest =
        destroy_range fuel (add_size read_index 1) write_index
          (destroy_slot (slot_index k elem read_index) buffer) in
      if read_index == write_index
      then some buffer
      else Option.bind (buffer (slot_index k elem read_index)) (λ v. rest)

  unfoldable pub destructor : ℕ → Queue (Option A) → Option (ℕ → Option A)
  destructor fuel q = destroy_range fuel q.published_read q.published_write q.buffer

  abbrev pub calls : Calls A (Queue (Option A))
  calls = record { try_push = try_emplace; try_pop = try_pop }

  abbrev pub protocol : Protocol A (Queue (Option A))
  protocol = record {
    reserve = has_room k elem;
    write_slot = construct_slot;
    publish_write = publish_write k elem;
    acquire = has_value k elem;
    read_slot = read_value;
    publish_read = release;
  }
