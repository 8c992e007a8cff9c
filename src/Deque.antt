-- ===== src/Deque.antt =====
-- include/work_steal_deque.h: WorkStealDeque, a ring that its owner pushes and pops at the bottom and
-- that any number of thieves steal from at the top. The owner's index is the bottom; a compare and
-- swap on the top decides who gets a value. top_cache_ is the owner's copy of an earlier top.
pub mod Spec
pub mod Rep
pub mod Parts
pub mod Calls
pub mod Bulk
pub mod Machine
pub mod Inv
pub mod Steps
pub mod Own
pub mod Thieves
pub mod Order
pub mod Once
pub mod Ends
pub mod Tests
use lock_free_stuffs.Prelude.{
  ℕ, zero, suc, ◌+◌, ◌-◌, ◌^◌, min, Bool, true, false, not, Option, none, some, List, [], ◌∷◌,
  length, take, drop, leb, ltb, ◌==◌, if◌then◌else◌, add_size, sub_size,
}
use lock_free_stuffs.Spsc.Cells.{write}
use lock_free_stuffs.Spsc.Layout.{slot_index}

-- `owner_`, `shared_top_`, `published_bottom_` and `buffer_`
pub record Deque {ℓ} (A : Type ℓ) : Type ℓ where
  pub bottom : ℕ
  pub top_cache : ℕ
  pub top : ℕ
  pub published_bottom : ℕ
  pub buffer : ℕ → A

unfoldable pub new {ℓ} : {A : Type ℓ} → (ℕ → A) → Deque A
new raw = record { bottom = 0; top_cache = 0; top = 0; published_bottom = 0; buffer = raw }

unfoldable pub capacity : ℕ → ℕ
capacity k = 2 ^ k

module _ {ℓ} {A : Type ℓ} where
  unfoldable pub size : Deque A → ℕ
  size q = if leb q.top q.published_bottom then sub_size q.published_bottom q.top else 0

  unfoldable pub empty : Deque A → Bool
  empty q = size q == 0

  abbrev pub used : Deque A → ℕ
  used q = sub_size q.bottom q.top_cache

  abbrev pub refresh : Deque A → Deque A
  refresh q = record q { top_cache = q.top }

  -- `compare_exchange_strong(expected, expected + 1)` on the top
  unfoldable pub cas_top : ℕ → Deque A → Bool × Deque A
  cas_top expected q =
      if q.top == expected then (true, record q { top = add_size expected 1 }) else (false, q)

  -- the first test of `try_pop_bottom`
  unfoldable pub has_item : Deque A → Bool × Deque A
  has_item q = if q.bottom == q.top_cache then (not (q.bottom == q.top), refresh q) else (true, q)

  -- the owner's new bottom, published
  unfoldable pub set_bottom : ℕ → Deque A → Deque A
  set_bottom b q = record q { bottom = b; published_bottom = b }

  -- as it leaves a pop that got nothing, or the last value
  unfoldable pub settle : ℕ → ℕ → Deque A → Deque A
  settle b cache q = set_bottom b (record q { top_cache = cache })

module _ {ℓ} {A : Type ℓ} (k elem : ℕ) where
  -- the test of `try_push_bottom` and of `try_bulk_push_bottom`
  unfoldable pub has_space : Deque A → Bool × Deque A
  has_space q =
      if leb (2 ^ k) (used q) then (not (leb (2 ^ k) (used (refresh q))), refresh q) else (true, q)

  -- `slot_ref(i) = v`
  unfoldable pub store : ℕ → A → Deque A → Deque A
  store i v q = record q { buffer = write q.buffer (slot_index k elem i) v }

  unfoldable pub load : ℕ → Deque A → A
  load i q = q.buffer (slot_index k elem i)

  unfoldable pub try_push_bottom : A → Deque A → Bool × Deque A
  try_push_bottom v q =
      let (space, q') = has_space q in
      if space
      then (true, set_bottom (add_size q'.bottom 1) (store q'.bottom v q'))
      else (false, q')

  -- the loop over the values, from the index `i` on
  unfoldable pub store_all : ℕ → List A → Deque A → Deque A
  store_all i [] q = q
  store_all i (v ∷ vs) q = store_all (add_size i 1) vs (store i v q)

  -- how many of `count` values there is room for
  abbrev pub room : ℕ → Deque A → ℕ
  room count q = min count (2 ^ k - used q)

  -- `first` and `count` are the list
  unfoldable pub try_bulk_push_bottom : List A → Deque A → ℕ × Deque A
  try_bulk_push_bottom vs q =
      let (space, q') = has_space q in
      let pushed = room (length vs) q' in
      if length vs == 0
      then (0, q)
      else if space
      then (
        pushed,
        set_bottom (add_size q'.bottom pushed) (store_all q'.bottom (take pushed vs) q'),
      )
      else (0, q')

  -- The loop of `push_bottom`, with its pauses; `none` while it has not ended in `fuel` rounds.
  unfoldable pub push_bottom : ℕ → A → Deque A → Option (ℕ × Deque A)
  push_bottom zero v q = none
  push_bottom (suc fuel) v q =
      let (done, q') = try_push_bottom v q in
      let again = push_bottom fuel v q' in
      if done
      then some (0, q')
      else elim again [ none ↦ none | some (pauses, r) ↦ some (pauses + 1, r) ]

  -- The loop of `bulk_push_bottom`, on the values that are left.
  unfoldable pub bulk_push_bottom : ℕ → List A → Deque A → Option (ℕ × Deque A)
  bulk_push_bottom zero vs q = if length vs == 0 then some (0, q) else none
  bulk_push_bottom (suc fuel) vs q =
      let (pushed, q') = try_bulk_push_bottom vs q in
      let rest = bulk_push_bottom fuel (drop pushed vs) q' in
      if length vs == 0
      then some (0, q)
      else if pushed == 0
      then elim rest [ none ↦ none | some (pauses, r) ↦ some (pauses + 1, r) ]
      else rest

  -- From the load of the top on; the bottom has been lowered.
  unfoldable pub take_bottom : Deque A → Option A × Deque A
  take_bottom q =
      if ltb q.bottom q.top
      then (none, settle (add_size q.bottom 1) q.top q)
      else if q.top == q.bottom
      then (let (won, q') = cas_top q.top q in
          if won
          then (some (load q.bottom q'), settle (add_size q.bottom 1) (add_size q.bottom 1) q')
          else (none, settle q'.top q'.top q'))
      else (some (load q.bottom q), refresh q)

  unfoldable pub try_pop_bottom : Deque A → Option A × Deque A
  try_pop_bottom q =
      let (some_left, q') = has_item q in
      if some_left then take_bottom (set_bottom (sub_size q'.bottom 1) q') else (none, q')

  unfoldable pub try_steal_top : Deque A → Option A × Deque A
  try_steal_top q =
      let (won, q') = cas_top q.top q in
      if leb q.published_bottom q.top
      then (none, q)
      else if won
      then (some (load q.top q), q')
      else (none, q')

  -- `pop_bottom` and `steal_top` wrap these; a missing value is an empty optional, or a null pointer.
  unfoldable pub pop_bottom : Deque A → Option A × Deque A
  pop_bottom = try_pop_bottom

  unfoldable pub steal_top : Deque A → Option A × Deque A
  steal_top = try_steal_top

  -- `num_empty_steals` comes in and goes out
  unfoldable pub steal_with_feedback : ℕ → Deque A → Option A × ℕ × Deque A
  steal_with_feedback num_empty_steals q =
      let (got, q') = try_steal_top q in
      elim got [ some v ↦ (some v, 0, q') | none ↦ (none, add_size num_empty_steals 1, q') ]

  -- other names of the calls
  unfoldable pub try_push : A → Deque A → Bool × Deque A
  try_push = try_push_bottom

  unfoldable pub try_bulk_push : List A → Deque A → ℕ × Deque A
  try_bulk_push = try_bulk_push_bottom

  unfoldable pub pop : Deque A → Option A × Deque A
  pop = pop_bottom

  unfoldable pub steal : Deque A → Option A × Deque A
  steal = steal_top
