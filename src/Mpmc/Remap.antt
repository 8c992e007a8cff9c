-- ===== src/Mpmc/Remap.antt =====
-- include/mpmc_seq_split.h and include/mpmc_1.h: remap_index, which spreads neighbouring indices over
-- cache lines. It changes the lowest `bits` digits of an index with the `bits` digits above them.
pub mod Twice
use lock_free_stuffs.Prelude.{
  ℕ, zero, suc, ◌*◌, ◌/◌, ◌%◌, ◌^◌, ◌≤◌, ◌<◌, ◌≡◌, refl, sym, subst, ap, ap₂, ◌∙◌, inl, inr,
  Bool-cases, ltb, ◌==◌, if◌then◌else◌, if_split, arith, word, mask, mask_lem, pow_pos, mod-lt,
}
use Prim.Native.Nat.{bit_xor}
use native.Mathlib.Nat.{
  div-eq_of_lt, mul-mod_left, mul-div_cancel, pow-suc, div-add-mod, mod-eq_of_lt, pow-le-pow_right,
  mul-lt-mul_of_pos_right,
}
use lock_free_stuffs.Prelude.Xor.{xor_cancel, xor_zero, xor_assoc, xor_swap, xor_div, xor_mod}

unfoldable pub cache_line_index_bits : ℕ → ℕ
cache_line_index_bits elements =
    if elements == 256
    then 8
    else if elements == 128
    then 7
    else if elements == 64
    then 6
    else if elements == 32
    then 5
    else if elements == 16
    then 4
    else if elements == 8
    then 3
    else if elements == 4
    then 2
    else if elements == 2
    then 1
    else 0

-- CAPACITY is 2^k
unfoldable pub shuffle_bits : ℕ → ℕ → ℕ
shuffle_bits k elements =
    let bits = cache_line_index_bits elements in
    let minimum_size = if bits == 0 then 1 else 2 ^ (bits * 2) in
    if ltb (2 ^ k) minimum_size then 0 else bits

-- `mix`, the digits in which the two groups differ
unfoldable pub mix : ℕ → ℕ → ℕ
mix bits index = mask bits (bit_xor index (index / 2 ^ bits))

unfoldable pub remap_index : ℕ → ℕ → ℕ
remap_index bits index =
    if bits == 0
    then index
    else bit_xor (bit_xor index (mix bits index)) (mix bits index * 2 ^ bits % word)
