-- ===== src/Mpmc/Split.antt =====
-- include/mpmc_seq_split.h: LockFreeQueueMpmcSeqSplit, which keeps the values and the sequence numbers
-- in two arrays, the values at remapped places.
pub mod Laws
pub mod Order
pub mod Tests
use lock_free_stuffs.Prelude.{ℕ, zero, suc, ◌+◌, ◌/◌, ◌^◌, mask}
use lock_free_stuffs.Spsc.Cells.{write}
use lock_free_stuffs.Spsc.Layout.{padding}
use lock_free_stuffs.Mpmc.Ring.{Ring}
use lock_free_stuffs.Mpmc.Machine.{Thread, Machine, go}
use lock_free_stuffs.Mpmc.Remap.{shuffle_bits, remap_index}

pub record Arrays {ℓ} (A : Type ℓ) : Type ℓ where
  pub values : ℕ → A
  pub seqs : ℕ → ℕ

-- `elem` is sizeof(T)
unfoldable pub value_index : ℕ → ℕ → ℕ → ℕ
value_index k elem index = remap_index (shuffle_bits k (64 / elem)) (mask k index) + padding elem

-- sizeof(SeqSlot) is a cache line, to which it is aligned.
unfoldable pub seq_index : ℕ → ℕ → ℕ
seq_index k index = mask k index + padding 64

module _ {ℓ} {A : Type ℓ} (k elem : ℕ) where
  unfoldable pub load_value : ℕ → Arrays A → A
  load_value pos a = a.values (value_index k elem pos)

  unfoldable pub store_value : ℕ → A → Arrays A → Arrays A
  store_value pos v a = record a { values = write a.values (value_index k elem pos) v }

module _ {ℓ} {A : Type ℓ} (k : ℕ) where
  unfoldable pub load_sequence : ℕ → Arrays A → ℕ
  load_sequence pos a = a.seqs (seq_index k pos)

  unfoldable pub store_sequence : ℕ → ℕ → Arrays A → Arrays A
  store_sequence pos n a = record a { seqs = write a.seqs (seq_index k pos) n }

  -- the constructor's loop over the first `n` slots
  unfoldable pub number_slots : ℕ → Arrays A → Arrays A
  number_slots zero a = a
  number_slots (suc i) a = store_sequence i i (number_slots i a)

  -- The numbers start at 0; `raw` is what the values hold at first.
  unfoldable pub new : (ℕ → A) → Arrays A
  new raw = number_slots (2 ^ k) (record { values = raw; seqs = λ j. 0 })

abbrev pub ring {ℓ} : {A : Type ℓ} → ℕ → ℕ → Ring A (Arrays A)
ring k elem = record {
  number = load_sequence k;
  value = load_value k elem;
  store_value = store_value k elem;
  store_number = store_sequence k;
}

-- The calls are those of Mpmc/Machine on these arrays.
abbrev pub split_go {ℓ} :
    {A : Type ℓ} → ℕ → ℕ → ℕ → Thread A → Machine A (Arrays A) → Machine A (Arrays A)
split_go k elem = go k (ring k elem)
