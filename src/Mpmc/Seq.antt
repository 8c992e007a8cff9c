-- ===== src/Mpmc/Seq.antt =====
-- include/mpmc_seq.h: LockFreeQueueMpmcSeq, whose slots hold a value and its sequence number side by
-- side.
pub mod Laws
pub mod Order
pub mod Tests
use lock_free_stuffs.Prelude.{ℕ, zero, suc, ◌^◌}
use lock_free_stuffs.Spsc.Cells.{write}
use lock_free_stuffs.Spsc.Layout.{slot_index}
use lock_free_stuffs.Mpmc.Ring.{Ring}

pub record Slot {ℓ} (A : Type ℓ) : Type ℓ where
  pub val : A
  pub seq : ℕ

-- `elem` is sizeof(Slot); `raw` is what the values hold at first.
module _ {ℓ} {A : Type ℓ} (k elem : ℕ) where
  unfoldable pub load_value : ℕ → (ℕ → Slot A) → A
  load_value pos slots = (slots (slot_index k elem pos)).val

  unfoldable pub load_sequence : ℕ → (ℕ → Slot A) → ℕ
  load_sequence pos slots = (slots (slot_index k elem pos)).seq

  unfoldable pub store_value : ℕ → A → (ℕ → Slot A) → ℕ → Slot A
  store_value pos v slots =
      write slots (slot_index k elem pos) (record (slots (slot_index k elem pos)) { val = v })

  unfoldable pub store_sequence : ℕ → ℕ → (ℕ → Slot A) → ℕ → Slot A
  store_sequence pos n slots =
      write slots (slot_index k elem pos) (record (slots (slot_index k elem pos)) { seq = n })

  abbrev pub ring : Ring A (ℕ → Slot A)
  ring = record {
    number = load_sequence;
    value = load_value;
    store_value = store_value;
    store_number = store_sequence;
  }

  -- the constructor's loop over the first `n` slots
  unfoldable pub number_slots : ℕ → (ℕ → Slot A) → ℕ → Slot A
  number_slots zero slots = slots
  number_slots (suc i) slots = store_sequence i i (number_slots i slots)

  -- The elements start with the number 0.
  unfoldable pub new : (ℕ → A) → ℕ → Slot A
  new raw = number_slots (2 ^ k) (λ j. record { val = raw j; seq = 0 })
