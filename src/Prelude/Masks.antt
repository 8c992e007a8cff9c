-- ===== src/Prelude/Masks.antt =====
-- `i & ~(2^k - 1)` on size_t: the low bits cleared.
use Prim.Native.Nat.{ℕ, zero, suc, ◌+◌, ◌-◌, ◌*◌, ◌/◌, ◌%◌, ◌^◌, ◌≤◌, ◌<◌, bit_and}
use mathlib.Core.Path.{◌≡◌, ap, ◌∙◌}
use native.Mathlib.Nat.{pow-suc, mod-lt, mod-eq_of_lt}
use native.Mathlib.Omega.{arith}
use lock_free_stuffs.Prelude.Words.{word, mask, mask_lem, mod_double, bit_and-digit, pow_pos}

unfoldable pub clear_low : ℕ → ℕ → ℕ
clear_low k i = bit_and i (word - 1 - (2 ^ k - 1))

-- The bits from `k` up to `j + k`.
high_bits : (k j i : ℕ) → bit_and i (2 ^ (j + k) - 2 ^ k) + i % 2 ^ k ≡ i % 2 ^ (j + k)
unfolding mask
high_bits zero j i = omega (
  arith,
  mask_lem j i,
  same,
  ap (λ t. i % 2 ^ t) {x = j + 0} {y = j} (omega arith),
  mod-lt i (pow_pos 0),
)
  where
    same : bit_and i (2 ^ (j + 0) - 1) ≡ bit_and i (2 ^ j - 1)
    same = ap (λ t. bit_and i (2 ^ t - 1)) (omega arith)
high_bits (suc k) j i = omega (
  arith,
  bit_and-digit i whole,
  halve,
  high_bits k j (i / 2),
  mod_double (2 ^ k) i (pow_pos k),
  mod_double (2 ^ (j + k)) i (pow_pos (j + k)),
  ap (λ t. i % t) (pow-suc 2 k),
  ap (λ t. i % t) up,
  up,
  pow-suc 2 k,
)
  where
    whole : ℕ
    whole = 2 ^ (j + suc k) - 2 ^ suc k

    up : 2 ^ (j + suc k) ≡ 2 ^ (j + k) * 2
    up = ap (λ t. 2 ^ t) {x = j + suc k} {y = suc (j + k)} (omega arith) ∙ pow-suc 2 (j + k)

    halve : bit_and (i / 2) (whole / 2) ≡ bit_and (i / 2) (2 ^ (j + k) - 2 ^ k)
    halve = ap (bit_and (i / 2)) (omega (arith, up, pow-suc 2 k))

pub clear_low_lem : (k i : ℕ) → k ≤ 64 → i < word → clear_low k i + i % 2 ^ k ≡ i
unfolding clear_low
clear_low_lem k i h lt = omega (arith, high_bits k (64 - k) i, same, mod-eq_of_lt lt, whole)
  where
    whole : i % 2 ^ (64 - k + k) ≡ i % word
    whole = ap (λ t. i % 2 ^ t) {x = 64 - k + k} {y = 64} (omega arith)

    same : bit_and i (word - 1 - (2 ^ k - 1)) ≡ bit_and i (2 ^ (64 - k + k) - 2 ^ k)
    same =
        ap (bit_and i)
          (omega (arith, pow_pos k, ap (λ t. 2 ^ t) {x = 64 - k + k} {y = 64} (omega arith)))
