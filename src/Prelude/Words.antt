-- ===== src/Prelude/Words.antt =====
-- size_t: arithmetic modulo 2^64, the mask of a power of two, and which indices it keeps apart.
use Prim.Native.Nat.{
  ℕ, zero, suc, ◌+◌, ◌-◌, ◌*◌, ◌/◌, ◌%◌, ◌^◌, ◌≤◌, ◌<◌, ◌∣◌, min, bit_and, digits, bit_and-bitwise,
}
use mathlib.Core.Path.{◌≡◌, refl, sym, ap, subst, ◌∙◌}
use mathlib.Core.Logic.{◌≢◌}
use native.Mathlib.Nat.{
  pow-suc, mod-lt, mod-mod_of_dvd, div-add-mod, mul-add-mod_self_left, mod-eq_of_lt, one-le-pow,
  dvd_refl, dvd-mul_right_of_dvd, mod-add-mod, add-mod_right, add-mul-mod_self_left,
  mod-eq-zero_of_dvd, mod-eq-sub-mod, mul-sub, le_of_dvd,
}
use native.Mathlib.Decide.{dec_lt}
use native.Mathlib.Omega.{arith}
use mathlib.Core.Bool.{Bool}
use lock_free_stuffs.Prelude.Tests.{leb}

-- the number of values of a size_t
abbrev pub word : ℕ
word = 2 ^ 64

abbrev pub add_size : ℕ → ℕ → ℕ
add_size a b = (a + b) % word

abbrev pub sub_size : ℕ → ℕ → ℕ
sub_size a b = (a + word - b) % word

-- `a <= b` on the ptrdiff_t that the two words are in two's complement
abbrev pub signed_leb : ℕ → ℕ → Bool
signed_leb a b = leb ((a + 2 ^ 63) % word) ((b + 2 ^ 63) % word)

-- `i & (SIZE - 1)` for SIZE = 2^k
unfoldable pub mask : ℕ → ℕ → ℕ
mask k i = bit_and i (2 ^ k - 1)

pub pow_pos : (k : ℕ) → 0 < 2 ^ k
pow_pos k = one-le-pow k 2 (omega arith)

abbrev and_upto : ℕ → ℕ → ℕ → ℕ
and_upto fuel a b = digits (λ _. 0) min fuel a b

-- Fuel above the number of digits changes nothing.
and_upto_fuel : (m n a b : ℕ) → a ≤ m → a ≤ n → and_upto m a b ≡ and_upto n a b
and_upto_fuel zero zero a b p q = refl
and_upto_fuel zero (suc n) zero b p q = refl
and_upto_fuel zero (suc n) (suc a) b p q = absurd (omega arith)
and_upto_fuel (suc m) zero zero b p q = refl
and_upto_fuel (suc m) zero (suc a) b p q = absurd (omega arith)
and_upto_fuel (suc m) (suc n) zero b p q = refl
and_upto_fuel (suc m) (suc n) (suc a) b p q =
    omega (arith, and_upto_fuel m n (suc a / 2) (b / 2) (omega arith) (omega arith))

-- One binary digit of a conjunction.
pub bit_and-digit : (a b : ℕ) → bit_and a b ≡ bit_and (a / 2) (b / 2) * 2 + min (a % 2) (b % 2)
bit_and-digit zero b = omega (arith, bit_and-bitwise 0 b, bit_and-bitwise 0 (b / 2))
bit_and-digit (suc a) b = omega (
  arith,
  bit_and-bitwise (suc a) b,
  bit_and-bitwise (suc a / 2) (b / 2),
  and_upto_fuel a (suc a / 2) (suc a / 2) (b / 2) (omega arith) (omega arith),
)

bit_and-zero : (n a : ℕ) → a ≤ n → bit_and a 0 ≡ 0
bit_and-zero n zero h = bit_and-bitwise 0 0
bit_and-zero zero (suc a) h = absurd (omega arith)
bit_and-zero (suc n) (suc a) h =
    omega (arith, bit_and-digit (suc a) 0, bit_and-zero n (suc a / 2) (omega arith))

-- A remainder by twice `m` is the halved number's remainder by `m` with the last digit added.
pub mod_double : (m a : ℕ) → 0 < m → a % (m * 2) ≡ (a / 2) % m * 2 + a % 2
mod_double m a h =
    ap (λ t. t % (m * 2)) split
    ∙ mul-add-mod_self_left (m * 2) (a / 2 / m) rest
    ∙ mod-eq_of_lt {n = rest} {m = m * 2} (omega (arith, mod-lt (a / 2) h))
  where
    rest : ℕ
    rest = a / 2 % m * 2 + a % 2

    split : a ≡ m * 2 * (a / 2 / m) + rest
    split = omega (arith, div-add-mod (a / 2) m)

-- The mask keeps the remainder: the static assertion of every queue, SIZE a power of two, is what
-- makes it one.
pub mask_lem : (k i : ℕ) → mask k i ≡ i % 2 ^ k
unfolding mask
mask_lem zero i = omega (arith, bit_and-zero i i (omega arith))
mask_lem (suc k) i = omega (
  arith,
  bit_and-digit i (2 ^ suc k - 1),
  halve,
  mask_lem k (i / 2),
  pow-suc 2 k,
  pow_pos k,
  mod_double (2 ^ k) i (pow_pos k),
  turn,
)
  where
    halve : bit_and (i / 2) ((2 ^ suc k - 1) / 2) ≡ bit_and (i / 2) (2 ^ k - 1)
    halve = ap (bit_and (i / 2)) (omega (arith, pow-suc 2 k, pow_pos k))

    turn : i % 2 ^ suc k ≡ i % (2 ^ k * 2)
    turn = ap (λ t. i % t) (pow-suc 2 k)

pow-dvd-pow_add : (k j : ℕ) → 2 ^ k ∣ 2 ^ (j + k)
pow-dvd-pow_add k zero = subst (λ t. 2 ^ k ∣ 2 ^ t) (omega arith) (dvd_refl (2 ^ k))
pow-dvd-pow_add k (suc j) =
    subst (λ t. 2 ^ k ∣ t) (sym (pow-suc 2 (j + k)) ∙ ap (λ t. 2 ^ t) (omega arith))
      (dvd-mul_right_of_dvd (2 ^ k) (pow-dvd-pow_add k j) 2)

pow-dvd-word : (k : ℕ) → k ≤ 64 → 2 ^ k ∣ word
pow-dvd-word k h = subst (λ t. 2 ^ k ∣ 2 ^ t) {y = 64} (omega arith) (pow-dvd-pow_add k (64 - k))

-- Counting modulo 2^64 first does not change a masked index.
pub mask-word : (k i : ℕ) → k ≤ 64 → mask k (i % word) ≡ i % 2 ^ k
mask-word k i h = mask_lem k (i % word) ∙ mod-mod_of_dvd (2 ^ k) i (pow-dvd-word k h)

-- Fewer than `m` apart, two counts with one remainder are one count.
pub mod_inj : (m a b : ℕ) → a ≤ b → b < a + m → a % m ≡ b % m → a ≡ b
mod_inj m a b h lt e = grind (arith, div-add-mod a m, div-add-mod b m)

pub mod_apart : (m a b : ℕ) → a < b → b < a + m → a % m ≢ b % m
mod_apart m a b h lt e = omega (arith, mod_inj m a b (omega arith) lt e)

-- The index after `i`, masked.
pub mask_next : (k i : ℕ) → k ≤ 64 → mask k (add_size (i % 2 ^ k) 1) ≡ (i + 1) % 2 ^ k
mask_next k i h = mask-word k (i % 2 ^ k + 1) h ∙ mod-add-mod i (2 ^ k) 1

-- With fewer than `n` elements, the index behind the last meets the first exactly if one slot is
-- left, and the two ends meet exactly if there is no element.
pub ring_full : (n r len : ℕ) → len < n → (r + len + 1) % n ≡ r % n → len + 1 ≡ n
ring_full n r len h e = elim (dec_lt (len + 1) n) [
  | yes small ↦ absurd (mod_apart n r (r + len + 1) (omega arith) (omega arith) (sym e))
  | no large ↦ omega arith
]

pub ring_full_self : (n r len : ℕ) → len + 1 ≡ n → (r + len + 1) % n ≡ r % n
ring_full_self n r len e = ap (λ t. t % n) (omega (arith, e)) ∙ add-mod_right r n

pub ring_empty : (n r len : ℕ) → len < n → r % n ≡ (r + len) % n → len ≡ 0
ring_empty n r len h e = omega (arith, mod_inj n r (r + len) (omega arith) (omega arith) e)

-- The masked difference of two masked indices is the distance, also where the later one is round
-- the end of the ring.
pub ring_distance :
    (k r len : ℕ) → k ≤ 64 → len < 2 ^ k → mask k (sub_size ((r + len) % 2 ^ k) (r % 2 ^ k)) ≡ len
ring_distance k r len hk h =
    mask-word k ((r + len) % n + word - r % n) hk ∙ elim (dec_lt (r % n + len) n) [
      | yes inside ↦
          ap (λ t. t % n)
            (omega
              (arith, turns, sym (mod-add-mod r n len), mod-eq_of_lt inside, mod-lt r (pow_pos k)))
          ∙ add-mul-mod_self_left len n (word / n)
          ∙ mod-eq_of_lt h
      | no round ↦
          ap (λ t. t % n)
            (omega (
              arith,
              turns,
              sym (mod-add-mod r n len),
              mod-eq-sub-mod {n = r % n + len} {m = n} (omega arith),
              mod-eq_of_lt {n = r % n + len - n} {m = n} (omega (arith, mod-lt r (pow_pos k))),
              mod-lt r (pow_pos k),
              mul-sub n (word / n) 1,
              le_of_dvd {m = n} {n = word} (omega arith) (pow-dvd-word k hk),
            ))
          ∙ add-mul-mod_self_left len n (word / n - 1)
          ∙ mod-eq_of_lt h
    ]
  where
    n : ℕ
    n = 2 ^ k

    turns : n * (word / n) ≡ word
    turns = omega (arith, div-add-mod word n, mod-eq-zero_of_dvd n (pow-dvd-word k hk))

pub pow-le-word : (k : ℕ) → k ≤ 64 → 2 ^ k ≤ word
pow-le-word k h = le_of_dvd (omega arith) (pow-dvd-word k h)

pub pow-lt-word : (k : ℕ) → k ≤ 63 → 2 ^ k < word
pow-lt-word k h = omega (arith, pow-suc 2 k, pow-le-word (suc k) (omega arith), one-le-pow k 1)
