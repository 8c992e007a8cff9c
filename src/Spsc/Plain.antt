-- ===== src/Spsc/Plain.antt =====
-- include/spsc.h: LockFreeQueue, a ring with two shared masked indices and no caches.
pub mod Rep
pub mod Order
pub mod Observers
pub mod Tests
use lock_free_stuffs.Prelude.{
  ℕ, zero, suc, ◌+◌, ◌-◌, ◌*◌, ◌/◌, ◌^◌, Bool, true, false, not, Option, none, some, ◌==◌,
  if◌then◌else◌, mask, add_size, sub_size,
}
use lock_free_stuffs.Fifo.{Calls}
use lock_free_stuffs.Spsc.Cells.{write}
use lock_free_stuffs.Spsc.Layout.{padding}
use lock_free_stuffs.Spsc.Protocol.{Protocol}

pub record Queue {ℓ} (A : Type ℓ) : Type ℓ where
  pub write_index : ℕ
  pub read_index : ℕ
  pub buffer : ℕ → A

-- The elements of a new buffer are indeterminate: they are a parameter.
unfoldable pub new {ℓ} : {A : Type ℓ} → (ℕ → A) → Queue A
new raw = record { write_index = 0; read_index = 0; buffer = raw }

-- the index of the element that the pointer points at, for this sizeof(T)
unfoldable pub slot_ptr : ℕ → ℕ → ℕ
slot_ptr elem index = index + padding elem

unfoldable pub capacity : ℕ → ℕ
capacity k = 2 ^ k - 1

module _ {ℓ} {A : Type ℓ} (k elem : ℕ) where
  -- the test of `try_emplace`
  unfoldable pub has_room : Queue A → Bool × Queue A
  has_room q = (not (mask k (add_size q.write_index 1) == q.read_index), q)

  unfoldable pub store_value : A → Queue A → Queue A
  store_value v q = record q { buffer = write q.buffer (q.write_index + padding elem) v }

  unfoldable pub publish_write : Queue A → Queue A
  publish_write q = record q { write_index = mask k (add_size q.write_index 1) }

  -- the test of `try_pop`
  unfoldable pub has_value : Queue A → Bool × Queue A
  has_value q = (not (q.read_index == q.write_index), q)

  unfoldable pub load_value : Queue A → A
  load_value q = q.buffer (q.read_index + padding elem)

  -- `void pop()`
  unfoldable pub discard : Queue A → Queue A
  discard q = record q { read_index = mask k (add_size q.read_index 1) }

  unfoldable pub try_emplace : A → Queue A → Bool × Queue A
  try_emplace v q =
      let (room, q') = has_room q in
      if room then (true, publish_write (store_value v q')) else (false, q')

  -- `false` is `none`; `true` is `some` of what goes to `out`
  unfoldable pub try_pop : Queue A → Option A × Queue A
  try_pop q =
      let (ready, q') = has_value q in
      if ready then (some (load_value q'), discard q') else (none, q')

  unfoldable pub enqueue : A → Queue A → Bool × Queue A
  enqueue item q = try_emplace item q

  -- The spinning loops, `none` while they have not ended in `fuel` rounds.
  unfoldable pub emplace : ℕ → A → Queue A → Option (Queue A)
  emplace zero v q = none
  emplace (suc fuel) v q =
      let again = emplace fuel v q in
      if mask k (add_size q.write_index 1) == q.read_index
      then again
      else some (publish_write (store_value v q))

  unfoldable pub pop : ℕ → Queue A → Option (A × Queue A)
  pop zero q = none
  pop (suc fuel) q =
      let again = pop fuel q in
      if q.read_index == q.write_index then again else some (load_value q, discard q)

  -- The pointer is the index of the element, and `nullptr` is `none`.
  unfoldable pub front : Queue A → Option ℕ
  front q = if q.read_index == q.write_index then none else some (slot_ptr elem q.read_index)

  unfoldable pub dequeue : Queue A → Option A × Queue A
  dequeue q = if q.read_index == q.write_index then (none, q) else (some (load_value q), discard q)

  -- `wanted` is `out != nullptr`; the option is what is written through `out`
  unfoldable pub try_dequeue : Bool → Queue A → Bool × Option A × Queue A
  try_dequeue wanted q =
      if q.read_index == q.write_index
      then (false, none, q)
      else (true, if wanted then some (load_value q) else none, discard q)

  unfoldable pub empty : Queue A → Bool
  empty q = q.write_index == q.read_index

  unfoldable pub size : Queue A → ℕ
  size q = mask k (sub_size q.write_index q.read_index)

  abbrev pub calls : Calls A (Queue A)
  calls = record { try_push = try_emplace; try_pop = try_pop }

  abbrev pub protocol : Protocol A (Queue A)
  protocol = record {
    reserve = has_room;
    write_slot = store_value;
    publish_write = publish_write;
    acquire = has_value;
    read_slot = λ q. some (load_value q);
    publish_read = discard;
  }
