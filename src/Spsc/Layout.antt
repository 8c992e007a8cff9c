-- ===== src/Spsc/Layout.antt =====
-- How the rings of include/ lay their elements out: a cache line of padding on either side, and
-- the element of a logical index behind the first padding.
use lock_free_stuffs.Prelude.{
  ℕ, ◌+◌, ◌*◌, ◌/◌, ◌%◌, ◌^◌, ◌≤◌, ◌≡◌, ap, arith, mask, mask-word, mask_lem, mod_apart, word,
}
use lock_free_stuffs.Spsc.Cells.{Apart}

-- PADDING, from sizeof(T), with CACHE_LINE_SIZE = 64
unfoldable pub padding : ℕ → ℕ
padding elem = 63 / elem + 1

-- NSLOTS, with CAPACITY = 2^k
unfoldable pub nslots : ℕ → ℕ → ℕ
nslots k elem = 2 ^ k + 2 * padding elem

-- `slot_index`: (index & MASK) + PADDING
unfoldable pub slot_index : ℕ → ℕ → ℕ → ℕ
slot_index k elem index = mask k index + padding elem

-- the element that holds the value with this count
abbrev pub slot : ℕ → ℕ → ℕ → ℕ
slot k elem i = i % 2 ^ k + padding elem

pub slot-Apart : (k elem : ℕ) → Apart (2 ^ k) (slot k elem)
slot-Apart k elem i j lt near e = mod_apart (2 ^ k) i j lt near (omega arith)

-- A counter that wraps at 2^64 still finds the element of its value.
pub slot_index-word : (k elem i : ℕ) → k ≤ 64 → slot_index k elem (i % word) ≡ slot k elem i
unfolding slot_index
slot_index-word k elem i h = ap (λ t. t + padding elem) (mask-word k i h)

-- The mask is a remainder.
pub slot_index_lem : (k elem i : ℕ) → slot_index k elem i ≡ slot k elem i
unfolding slot_index
slot_index_lem k elem i = ap (λ t. t + padding elem) (mask_lem k i)
