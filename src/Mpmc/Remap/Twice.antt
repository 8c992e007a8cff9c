-- ===== src/Mpmc/Remap/Twice.antt =====
-- include/mpmc_seq_split.h and include/mpmc_1.h: remap_index is its own inverse and stays in range.
use lock_free_stuffs.Prelude.{
  ℕ, zero, suc, ◌*◌, ◌/◌, ◌%◌, ◌^◌, ◌≤◌, ◌<◌, ◌≡◌, refl, sym, subst, ap, ap₂, ◌∙◌, inl, inr,
  Bool-cases, ltb, ◌==◌, if◌then◌else◌, if_split, arith, mask_lem, pow_pos, mod-lt,
}
use Prim.Native.Nat.{bit_xor}
use native.Mathlib.Nat.{
  div-eq_of_lt, mul-mod_left, mul-div_cancel, pow-suc, div-add-mod, mod-eq_of_lt, pow-le-pow_right,
  mul-lt-mul_of_pos_right,
}
use lock_free_stuffs.Prelude.Xor.{xor_cancel, xor_zero, xor_assoc, xor_swap, xor_div, xor_mod}
use lock_free_stuffs.Mpmc.Remap.{cache_line_index_bits, shuffle_bits, mix, remap_index}

-- Without the wrap of the shift.
abbrev swapped : ℕ → ℕ → ℕ
swapped bits index = bit_xor (bit_xor index (mix bits index)) (mix bits index * 2 ^ bits)

mix_lem : (bits i : ℕ) → mix bits i ≡ bit_xor (i % 2 ^ bits) (i / 2 ^ bits % 2 ^ bits)
unfolding mix
mix_lem bits i = mask_lem bits (bit_xor i (i / 2 ^ bits)) ∙ xor_mod bits i (i / 2 ^ bits)

mix_lt : (bits i : ℕ) → mix bits i < 2 ^ bits
unfolding mix
mix_lt bits i = omega (
  arith,
  mask_lem bits (bit_xor i (i / 2 ^ bits)),
  mod-lt (bit_xor i (i / 2 ^ bits)) (pow_pos bits),
)

-- The digits of a swapped index differ in the same places.
mix-swapped : (bits i : ℕ) → mix bits (swapped bits i) ≡ mix bits i
mix-swapped bits i =
    mix_lem bits (swapped bits i)
    ∙ ap₂ bit_xor low high
    ∙ sym (xor_assoc (bit_xor (i % M) m) (i / M % M) m)
    ∙ ap (λ t. bit_xor t m) (xor_swap (i % M) m (i / M % M))
    ∙ xor_cancel (bit_xor (i % M) (i / M % M)) m
    ∙ sym (mix_lem bits i)
  where
    M : ℕ
    M = 2 ^ bits

    m : ℕ
    m = mix bits i

    small : m % M ≡ m
    small = mod-eq_of_lt (mix_lt bits i)

    low : swapped bits i % M ≡ bit_xor (i % M) m
    low =
        xor_mod bits (bit_xor i m) (m * M)
        ∙ ap₂ bit_xor (xor_mod bits i m ∙ ap (bit_xor (i % M)) small) (mul-mod_left m M)
        ∙ xor_zero (bit_xor (i % M) m)

    high : swapped bits i / M % M ≡ bit_xor (i / M % M) m
    high =
        ap (λ t. t % M)
          (xor_div bits (bit_xor i m) (m * M)
            ∙ ap₂ bit_xor
                (xor_div bits i m
                  ∙ ap (bit_xor (i / M)) (div-eq_of_lt (mix_lt bits i))
                  ∙ xor_zero (i / M))
                (mul-div_cancel m (pow_pos bits)))
        ∙ xor_mod bits (i / M) m
        ∙ ap (bit_xor (i / M % M)) small

swapped_twice : (bits i : ℕ) → swapped bits (swapped bits i) ≡ i
swapped_twice bits i =
    ap (λ n. bit_xor (bit_xor (swapped bits i) n) (n * 2 ^ bits)) (mix-swapped bits i)
    ∙ ap (λ t. bit_xor t s) (xor_swap (bit_xor i m) s m ∙ ap (λ t. bit_xor t s) (xor_cancel i m))
    ∙ xor_cancel i s
  where
    m : ℕ
    m = mix bits i

    s : ℕ
    s = m * 2 ^ bits

bits_at_most : (elements : ℕ) → cache_line_index_bits elements ≤ 8
unfolding cache_line_index_bits
bits_at_most elements = ground arith

double_pow : (n : ℕ) → 2 ^ n * 2 ^ n ≡ 2 ^ (n * 2)
double_pow zero = refl
double_pow (suc n) =
    ap₂ ◌*◌ (pow-suc 2 n) (pow-suc 2 n)
    ∙ quadruple (2 ^ n)
    ∙ omega (arith, double_pow n, pow-suc 2 (n * 2), pow-suc 2 (suc (n * 2)))
    ∙ ap (λ t. 2 ^ t) {x = suc (suc (n * 2))} (omega arith)
  where
    quadruple : (a : ℕ) → a * 2 * (a * 2) ≡ a * a * 4
    quadruple a = grind arith

-- The digits that are swapped are digits of an index.
shuffle_fits : (k elements : ℕ) → 2 ^ (shuffle_bits k elements * 2) ≤ 2 ^ k
unfolding shuffle_bits
shuffle_fits k elements =
    if_split (λ b. 2 ^ (b * 2) ≤ 2 ^ k)
      (ltb (2 ^ k) (
        if cache_line_index_bits elements == 0
        then 1
        else 2 ^ (cache_line_index_bits elements * 2)))
      (λ e. pow_pos k)
      (λ e. elim (Bool-cases (cache_line_index_bits elements == 0)) [
        | inl none ↦ subst (λ b. 2 ^ (b * 2) ≤ 2 ^ k) {x = 0} (ground (arith, none)) (pow_pos k)
        | inr some_bits ↦ ground (arith, e, some_bits)
      ])

shuffle_at_most : (k elements : ℕ) → shuffle_bits k elements ≤ 8
unfolding shuffle_bits
shuffle_at_most k elements =
    if_split (λ b. b ≤ 8)
      (ltb (2 ^ k) (
        if cache_line_index_bits elements == 0
        then 1
        else 2 ^ (cache_line_index_bits elements * 2)))
      (λ e. omega arith) (λ e. bits_at_most elements)

-- The shift stays below the square of 2^bits.
shift_lt : (bits i : ℕ) → mix bits i * 2 ^ bits < 2 ^ (bits * 2)
shift_lt bits i =
    omega (arith, mul-lt-mul_of_pos_right (mix_lt bits i) (pow_pos bits), double_pow bits)

-- So it does not wrap.
remap_lem : (bits i : ℕ) → bits ≤ 8 → remap_index bits i ≡ swapped bits i
unfolding remap_index
remap_lem bits i small =
    if_split (λ t. t ≡ swapped bits i) (bits == 0)
      (λ e.
        subst (λ b. i ≡ swapped b i) {x = 0} (ground (arith, e))
          (sym (
            ap₂ (λ x y. bit_xor (bit_xor i x) y) (omega (arith, mix_lt 0 i))
              (omega (arith, mix_lt 0 i))
            ∙ xor_zero (bit_xor i 0)
            ∙ xor_zero i)))
      (λ e. ap (bit_xor (bit_xor i (mix bits i))) (
        mod-eq_of_lt (
          omega (
            arith,
            shift_lt bits i,
            pow-le-pow_right {n = 2} (omega arith) {i = bits * 2} {j = 16} (omega arith),
          ))))

swapped_lt : (k bits i : ℕ) → 2 ^ (bits * 2) ≤ 2 ^ k → i < 2 ^ k → swapped bits i < 2 ^ k
swapped_lt k bits i fits lt = omega (
  arith,
  div-add-mod (swapped bits i) (2 ^ k),
  mod-lt (swapped bits i) (pow_pos k),
  quotient,
  times,
)
  where
    m : ℕ
    m = mix bits i

    low : m < 2 ^ k
    low = omega (
      arith,
      mix_lt bits i,
      shift_lt bits i,
      fits,
      double_pow bits,
      pow-le-pow_right {n = 2} (omega arith) {i = bits} {j = bits * 2} (omega arith),
    )

    quotient : swapped bits i / 2 ^ k ≡ 0
    quotient =
        xor_div k (bit_xor i m) (m * 2 ^ bits)
        ∙ ap₂ bit_xor (xor_div k i m ∙ ap₂ bit_xor (div-eq_of_lt lt) (div-eq_of_lt low))
            (div-eq_of_lt (omega (arith, shift_lt bits i, fits)))

    times : 2 ^ k * (swapped bits i / 2 ^ k) ≡ 0
    times = ap (λ t. 2 ^ k * t) quotient ∙ omega arith

-- With the shuffle bits of a class of 2^k slots, remap_index maps an index below 2^k to one below
-- 2^k, and applied twice it gives the index back, so that no two indices have one place.
pub remap_index_twice :
    (k elements i : ℕ)
    → i < 2 ^ k
    → (remap_index (shuffle_bits k elements) (remap_index (shuffle_bits k elements) i) ≡ i)
      × (remap_index (shuffle_bits k elements) i < 2 ^ k)
remap_index_twice k elements i lt =
    let b : ℕ = shuffle_bits k elements in
    let small : b ≤ 8 = shuffle_at_most k elements in
    (
      ap (remap_index b) (remap_lem b i small)
          ∙ remap_lem b (swapped b i) small
          ∙ swapped_twice b i,
      omega (arith, remap_lem b i small, swapped_lt k b i (shuffle_fits k elements) lt),
    )
