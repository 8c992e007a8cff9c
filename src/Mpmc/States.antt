-- ===== src/Mpmc/States.antt =====
-- include/mpmc_1.h: LockFreeQueueMpmc1, whose slots have a state in place of a number. Here are its
-- calls run with nobody else at work, where no compare and swap finds another value; a weak one that
-- fails without cause is tried again.
pub mod Machine
pub mod Inv
pub mod Moves
pub mod Steps
pub mod Stores
pub mod Turns
pub mod Order
pub mod Rep
pub mod Alone
pub mod Tests
use lock_free_stuffs.Prelude.{
  ℕ, zero, suc, ◌+◌, ◌/◌, ◌^◌, Bool, true, false, Option, none, some, leb, ◌==◌, if◌then◌else◌,
  add_size, sub_size, signed_leb, mask,
}
use lock_free_stuffs.Spsc.Cells.{write}
use lock_free_stuffs.Spsc.Layout.{padding}
use lock_free_stuffs.Mpmc.Remap.{shuffle_bits, remap_index}

pub data SlotState : Type 0 where
  vacant : SlotState
  storing : SlotState
  stored : SlotState
  loading : SlotState

pub record Queue {ℓ} (A : Type ℓ) : Type ℓ where
  pub head : ℕ
  pub tail : ℕ
  pub buffer : ℕ → A
  pub states : ℕ → SlotState

-- The constructor makes every slot empty; `raw` is what the values hold at first.
unfoldable pub new {ℓ} : {A : Type ℓ} → (ℕ → A) → Queue A
new raw = record { head = 0; tail = 0; buffer = raw; states = λ j. vacant }

abbrev pub is_vacant : SlotState → Bool
is_vacant vacant = true
is_vacant storing = false
is_vacant stored = false
is_vacant loading = false

abbrev pub is_stored : SlotState → Bool
is_stored vacant = false
is_stored storing = false
is_stored stored = true
is_stored loading = false

-- `elem` is sizeof(T)
unfoldable pub buffer_index : ℕ → ℕ → ℕ → ℕ
buffer_index k elem index = remap_index (shuffle_bits k (64 / elem)) (mask k index) + padding elem

-- A state is a byte.
unfoldable pub state_index : ℕ → ℕ → ℕ
state_index k index = remap_index (shuffle_bits k (64 / 1)) (mask k index) + padding 1

module _ {ℓ} {A : Type ℓ} where
  -- `used` and `available`, a ptrdiff_t given by its bits; the negation wraps.
  abbrev pub signed_size : Queue A → ℕ
  signed_size q =
      if leb q.tail q.head then sub_size q.head q.tail else sub_size 0 (sub_size q.tail q.head)

  -- `used >= CAPACITY`, on signed numbers
  unfoldable pub looks_full : ℕ → Queue A → Bool
  looks_full k q = signed_leb (2 ^ k) (signed_size q)

  -- `available <= 0`, on signed numbers
  unfoldable pub looks_empty : Queue A → Bool
  looks_empty q = signed_leb (signed_size q) 0

  unfoldable pub size : Queue A → ℕ
  size q = if leb q.tail q.head then sub_size q.head q.tail else 0

  unfoldable pub empty : Queue A → Bool
  empty q = size q == 0

module _ {ℓ} {A : Type ℓ} (k elem : ℕ) where
  unfoldable pub set_state : ℕ → SlotState → Queue A → Queue A
  set_state pos s q = record q { states = write q.states (state_index k pos) s }

  unfoldable pub store_value : ℕ → A → Queue A → Queue A
  store_value pos v q = record q { buffer = write q.buffer (buffer_index k elem pos) v }

  -- `none` while the slot has not become free in `fuel` rounds
  unfoldable pub push_direct : ℕ → A → ℕ → Queue A → Option (Queue A)
  push_direct zero v pos q = none
  push_direct (suc fuel) v pos q =
      let again = push_direct fuel v pos q in
      if is_vacant (q.states (state_index k pos))
      then some (set_state pos stored (store_value pos v (set_state pos storing q)))
      else again

  unfoldable pub pop_direct : ℕ → ℕ → Queue A → Option (A × Queue A)
  pop_direct zero pos q = none
  pop_direct (suc fuel) pos q =
      let again = pop_direct fuel pos q in
      if is_stored (q.states (state_index k pos))
      then some (q.buffer (buffer_index k elem pos), set_state pos vacant (set_state pos loading q))
      else again

  unfoldable pub push : ℕ → A → Queue A → Option (Queue A)
  push fuel v q = push_direct fuel v q.head (record q { head = add_size q.head 1 })

  unfoldable pub pop : ℕ → Queue A → Option (A × Queue A)
  pop fuel q = pop_direct fuel q.tail (record q { tail = add_size q.tail 1 })

  unfoldable pub try_emplace : ℕ → A → Queue A → Option (Bool × Queue A)
  try_emplace fuel v q =
      if looks_full k q
      then some (false, q)
      else elim (push fuel v q) [ none ↦ none | some q' ↦ some (true, q') ]

  unfoldable pub try_pop : ℕ → Queue A → Option (Option A × Queue A)
  try_pop fuel q =
      if looks_empty q
      then some (none, q)
      else elim (pop fuel q) [ none ↦ none | some (v, q') ↦ some (some v, q') ]

  unfoldable pub dequeue : ℕ → Queue A → Option (Option A × Queue A)
  dequeue = try_pop

  unfoldable pub enqueue : ℕ → A → Queue A → Option (Bool × Queue A)
  enqueue = try_emplace

  unfoldable pub try_push : ℕ → A → Queue A → Option (Bool × Queue A)
  try_push = try_emplace

  -- `out` is `none` where the pointer is null, and what it points to where it is not.
  unfoldable pub try_dequeue : ℕ → Option A → Queue A → Option (Bool × Option A × Queue A)
  try_dequeue fuel out q = elim (try_pop fuel q) [
    | none ↦ none
    | some (none, q') ↦ some (false, out, q')
    | some (some v, q') ↦ some (true, elim out [ none ↦ none | some old ↦ some v ], q')
  ]
