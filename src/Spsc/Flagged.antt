-- ===== src/Spsc/Flagged.antt =====
-- include/spsc_test.h: LockFreeQueueTest, a ring whose slots say themselves whether they hold a
-- value, so that all SIZE slots serve and the indices are private. A slot of the array is `none`
-- while it is raw and `some v` while it holds a value. `direct` is USE_DIRECT_SLOTS, under which a
-- value that was moved out stays behind; otherwise destruction is taken not to be trivial. The
-- constant fields are never read.
pub mod Rep
pub mod Steps
pub mod Order
pub mod Observers
pub mod Tests
use lock_free_stuffs.Prelude.{
  ℕ, zero, suc, ◌+◌, ◌^◌, Bool, true, false, not, Option, none, some, if◌then◌else◌, add_size,
  sub_size,
}
use mathlib.Core.Option
use lock_free_stuffs.Fifo.{Calls}
use lock_free_stuffs.Spsc.Cells.{write}
use lock_free_stuffs.Spsc.Layout.{slot_index}
use lock_free_stuffs.Spsc.Protocol.{Protocol}
use lock_free_stuffs.Spsc.Owned

pub data SlotState : Type 0 where
  vacant : SlotState
  stored : SlotState

-- `load() != Empty` and `load() != Stored` fail exactly here
unfoldable pub is_empty : SlotState → Bool
is_empty vacant = true
is_empty stored = false

unfoldable pub is_stored : SlotState → Bool
is_stored vacant = false
is_stored stored = true

pub record Queue {ℓ} (A : Type ℓ) : Type ℓ where
  pub write_index : ℕ
  pub read_index : ℕ
  pub states : ℕ → SlotState
  pub buffer : ℕ → Option A

-- `raw` is what the storage holds at first.
unfoldable pub new {ℓ} : {A : Type ℓ} → (ℕ → Option A) → Queue A
new raw = record { write_index = 0; read_index = 0; states = λ i. vacant; buffer = raw }

-- `state_index`: STATE_PADDING is PADDING for elements of one byte
unfoldable pub state_index : ℕ → ℕ → ℕ
state_index k index = slot_index k 1 index

unfoldable pub capacity : ℕ → ℕ
capacity k = 2 ^ k

module _ {ℓ} {A : Type ℓ} (direct : Bool) (k elem : ℕ) where
  -- the tests, which change nothing
  unfoldable pub has_room : Queue A → Bool × Queue A
  has_room q = (is_empty (q.states (state_index k q.write_index)), q)

  unfoldable pub has_value : Queue A → Bool × Queue A
  has_value q = (is_stored (q.states (state_index k q.read_index)), q)

  unfoldable pub construct_slot : A → Queue A → Queue A
  construct_slot v q = record q {
    buffer = write q.buffer (slot_index k elem q.write_index) (some v);
  }

  unfoldable pub destroy_slot : ℕ → (ℕ → Option A) → ℕ → Option A
  destroy_slot slot buffer = if direct then buffer else write buffer slot none

  unfoldable pub mark_stored : Queue A → Queue A
  mark_stored q = record q {
    states = write q.states (state_index k q.write_index) stored;
    write_index = add_size q.write_index 1;
  }

  unfoldable pub read_value : Queue A → Option A
  read_value q = q.buffer (slot_index k elem q.read_index)

  -- destroy the value, mark the slot as empty and step on
  unfoldable pub release : Queue A → Queue A
  release q = record q {
    buffer = destroy_slot (slot_index k elem q.read_index) q.buffer;
    states = write q.states (state_index k q.read_index) vacant;
    read_index = add_size q.read_index 1;
  }

  unfoldable pub try_emplace : A → Queue A → Bool × Queue A
  try_emplace v q =
      let (room, q') = has_room q in
      if room then (true, mark_stored (construct_slot v q')) else (false, q')

  unfoldable pub try_pop : Queue A → Option A × Queue A
  try_pop q =
      let (ready, q') = has_value q in if ready then (read_value q', release q') else (none, q')

  -- The spinning loops with the pauses that they made, four a round; `none` while they have not
  -- ended in `fuel` rounds.
  unfoldable pub emplace : ℕ → A → Queue A → Option (ℕ × Queue A)
  emplace zero v q = none
  emplace (suc fuel) v q =
      let again = Option.map (λ (r : ℕ × Queue A). (r.0 + 4, r.1)) (emplace fuel v q) in
      if not (is_empty (q.states (state_index k q.write_index)))
      then again
      else some (0, mark_stored (construct_slot v q))

  unfoldable pub pop : ℕ → Queue A → Option (ℕ × Option A × Queue A)
  pop zero q = none
  pop (suc fuel) q =
      let again = Option.map (λ (r : ℕ × Option A × Queue A). (r.0 + 4, r.1, r.2)) (pop fuel q) in
      if not (is_stored (q.states (state_index k q.read_index)))
      then again
      else some (0, read_value q, release q)

  unfoldable pub empty : Queue A → Bool
  empty q = not (is_stored (q.states (state_index k q.read_index)))

  unfoldable pub size : Queue A → ℕ
  size q = sub_size q.write_index q.read_index

  -- The destructor does nothing to direct slots; the loop is that of include/spsc_final.h.
  unfoldable pub destructor : ℕ → Queue A → Option (ℕ → Option A)
  destructor fuel q =
      if direct
      then some q.buffer
      else Owned.destroy_range k elem fuel q.read_index q.write_index q.buffer

  abbrev pub calls : Calls A (Queue A)
  calls = record { try_push = try_emplace; try_pop = try_pop }

  abbrev pub protocol : Protocol A (Queue A)
  protocol = record {
    reserve = has_room;
    write_slot = construct_slot;
    publish_write = mark_stored;
    acquire = has_value;
    read_slot = read_value;
    publish_read = release;
  }
