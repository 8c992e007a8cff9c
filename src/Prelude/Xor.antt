-- ===== src/Prelude/Xor.antt =====
-- Exclusive or of the binary digits of a number.
use Prim.Native.Nat.{
  ℕ, zero, suc, ◌+◌, ◌*◌, ◌/◌, ◌%◌, ◌^◌, ◌≤◌, ◌<◌, differ, bit_xor, digits, bit_xor-bitwise,
}
use mathlib.Core.Path.{◌≡◌, refl, sym, ap, ap₂, ◌∙◌}
use native.Mathlib.Nat.{pow-suc, div-div-eq-div-mul}
use native.Mathlib.Omega.{arith}
use lock_free_stuffs.Prelude.Words.{mod_double, pow_pos}

-- Fuel above the number of digits changes nothing.
xor_fuel :
    (m n a b : ℕ) → a ≤ m → a ≤ n → digits (λ y. y) differ m a b ≡ digits (λ y. y) differ n a b
xor_fuel zero zero a b p q = refl
xor_fuel zero (suc n) zero b p q = refl
xor_fuel zero (suc n) (suc a) b p q = absurd (omega arith)
xor_fuel (suc m) zero zero b p q = refl
xor_fuel (suc m) zero (suc a) b p q = absurd (omega arith)
xor_fuel (suc m) (suc n) zero b p q = refl
xor_fuel (suc m) (suc n) (suc a) b p q =
    rw (xor_fuel m n (suc a / 2) (b / 2) (omega arith) (omega arith))

differ_lem : (x y : ℕ) → x < 2 → y < 2 → differ x y ≡ (x + y) % 2
differ_lem zero y p q = omega arith
differ_lem (suc zero) zero p q = refl
differ_lem (suc zero) (suc zero) p q = refl
differ_lem (suc zero) (suc (suc y)) p q = absurd (omega arith)
differ_lem (suc (suc x)) y p q = absurd (omega arith)

-- One binary digit.
xor_digit : (a b : ℕ) → bit_xor a b ≡ bit_xor (a / 2) (b / 2) * 2 + (a % 2 + b % 2) % 2
xor_digit zero b = omega (arith, bit_xor-bitwise 0 b, bit_xor-bitwise 0 (b / 2))
xor_digit (suc a) b = omega (
  arith,
  bit_xor-bitwise (suc a) b,
  bit_xor-bitwise (suc a / 2) (b / 2),
  xor_fuel a (suc a / 2) (suc a / 2) (b / 2) (omega arith) (omega arith),
  differ_lem (suc a % 2) (b % 2) (omega arith) (omega arith),
)

xor_half : (a b : ℕ) → bit_xor a b / 2 ≡ bit_xor (a / 2) (b / 2)
xor_half a b = omega (arith, xor_digit a b)

xor_low : (a b : ℕ) → bit_xor a b % 2 ≡ (a % 2 + b % 2) % 2
xor_low a b = omega (arith, xor_digit a b)

-- Equal from the low digit and the rest.
by_digits : (a b : ℕ) → a / 2 ≡ b / 2 → a % 2 ≡ b % 2 → a ≡ b
by_digits a b p q = omega arith

cancel_upto : (n a b : ℕ) → a + b ≤ n → bit_xor (bit_xor a b) b ≡ a
cancel_upto zero a b h =
    let za : a ≡ 0 = omega arith in let zb : b ≡ 0 = omega arith in rw (za, zb) refl
cancel_upto (suc n) zero zero h = refl
cancel_upto (suc n) zero (suc b) h =
    by_digits _ _
      (xor_half (bit_xor 0 (suc b)) (suc b)
        ∙ ap (λ t. bit_xor t (suc b / 2)) (xor_half 0 (suc b))
        ∙ cancel_upto n 0 (suc b / 2) (omega arith))
      (omega (arith, xor_low (bit_xor 0 (suc b)) (suc b), xor_low 0 (suc b)))
cancel_upto (suc n) (suc a) b h =
    by_digits _ _
      (xor_half (bit_xor (suc a) b) b
        ∙ ap (λ t. bit_xor t (b / 2)) (xor_half (suc a) b)
        ∙ cancel_upto n (suc a / 2) (b / 2) (omega arith))
      (omega (arith, xor_low (bit_xor (suc a) b) b, xor_low (suc a) b))

pub xor_cancel : (a b : ℕ) → bit_xor (bit_xor a b) b ≡ a
xor_cancel a b = cancel_upto (a + b) a b (omega arith)

comm_upto : (n a b : ℕ) → a + b ≤ n → bit_xor a b ≡ bit_xor b a
comm_upto zero a b h =
    let za : a ≡ 0 = omega arith in let zb : b ≡ 0 = omega arith in rw (za, zb) refl
comm_upto (suc n) zero zero h = refl
comm_upto (suc n) zero (suc b) h =
    by_digits _ _
      (xor_half 0 (suc b) ∙ comm_upto n 0 (suc b / 2) (omega arith) ∙ sym (xor_half (suc b) 0))
      (omega (arith, xor_low 0 (suc b), xor_low (suc b) 0))
comm_upto (suc n) (suc a) b h =
    by_digits _ _
      (xor_half (suc a) b
        ∙ comm_upto n (suc a / 2) (b / 2) (omega arith)
        ∙ sym (xor_half b (suc a)))
      (omega (arith, xor_low (suc a) b, xor_low b (suc a)))

pub xor_comm : (a b : ℕ) → bit_xor a b ≡ bit_xor b a
xor_comm a b = comm_upto (a + b) a b (omega arith)

assoc_step :
    (a b c : ℕ)
    → bit_xor (bit_xor (a / 2) (b / 2)) (c / 2) ≡ bit_xor (a / 2) (bit_xor (b / 2) (c / 2))
    → bit_xor (bit_xor a b) c ≡ bit_xor a (bit_xor b c)
assoc_step a b c h =
    by_digits _ _
      (xor_half (bit_xor a b) c
        ∙ ap (λ t. bit_xor t (c / 2)) (xor_half a b)
        ∙ h
        ∙ ap (bit_xor (a / 2)) (sym (xor_half b c))
        ∙ sym (xor_half a (bit_xor b c)))
      (omega (arith, xor_low (bit_xor a b) c, xor_low a b, xor_low a (bit_xor b c), xor_low b c))

assoc_upto : (n a b c : ℕ) → a + b + c ≤ n → bit_xor (bit_xor a b) c ≡ bit_xor a (bit_xor b c)
assoc_upto zero a b c h =
    let za : a ≡ 0 = omega arith in
    let zb : b ≡ 0 = omega arith in let zc : c ≡ 0 = omega arith in rw (za, zb, zc) refl
assoc_upto (suc n) zero zero zero h = refl
assoc_upto (suc n) (suc a) b c h =
    assoc_step (suc a) b c (assoc_upto n (suc a / 2) (b / 2) (c / 2) (omega arith))
assoc_upto (suc n) zero (suc b) c h =
    assoc_step zero (suc b) c (assoc_upto n 0 (suc b / 2) (c / 2) (omega arith))
assoc_upto (suc n) zero zero (suc c) h =
    assoc_step zero zero (suc c) (assoc_upto n 0 0 (suc c / 2) (omega arith))

pub xor_assoc : (a b c : ℕ) → bit_xor (bit_xor a b) c ≡ bit_xor a (bit_xor b c)
xor_assoc a b c = assoc_upto (a + b + c) a b c (omega arith)

-- Two operands change places.
pub xor_swap : (a b c : ℕ) → bit_xor (bit_xor a b) c ≡ bit_xor (bit_xor a c) b
xor_swap a b c = xor_assoc a b c ∙ ap (bit_xor a) (xor_comm b c) ∙ sym (xor_assoc a c b)

-- Its digits from the n-th on, and those below.
pub xor_div : (n a b : ℕ) → bit_xor a b / 2 ^ n ≡ bit_xor (a / 2 ^ n) (b / 2 ^ n)
xor_div zero a b = whole (bit_xor a b) ∙ ap₂ bit_xor (sym (whole a)) (sym (whole b))
  where
    whole : (t : ℕ) → t / 2 ^ 0 ≡ t
    whole t = omega arith
xor_div (suc n) a b =
    halve (bit_xor a b)
    ∙ ap (λ t. t / 2 ^ n) (xor_half a b)
    ∙ xor_div n (a / 2) (b / 2)
    ∙ ap₂ bit_xor (sym (halve a)) (sym (halve b))
  where
    halve : (t : ℕ) → t / 2 ^ suc n ≡ t / 2 / 2 ^ n
    halve t = ap (λ p. t / p) (pow-suc 2 n ∙ omega arith) ∙ sym (div-div-eq-div-mul t 2 (2 ^ n))

pub xor_mod : (n a b : ℕ) → bit_xor a b % 2 ^ n ≡ bit_xor (a % 2 ^ n) (b % 2 ^ n)
xor_mod zero a b = nothing (bit_xor a b) ∙ ap₂ bit_xor (sym (nothing a)) (sym (nothing b))
  where
    nothing : (t : ℕ) → t % 2 ^ 0 ≡ 0
    nothing t = omega arith
xor_mod (suc n) a b =
    by_digits _ _
      (half (bit_xor a b)
        ∙ ap (λ t. t % 2 ^ n) (xor_half a b)
        ∙ xor_mod n (a / 2) (b / 2)
        ∙ ap₂ bit_xor (sym (half a)) (sym (half b))
        ∙ sym (xor_half (a % 2 ^ suc n) (b % 2 ^ suc n)))
      (omega (
        arith,
        low (bit_xor a b),
        low a,
        low b,
        xor_low a b,
        xor_low (a % 2 ^ suc n) (b % 2 ^ suc n),
      ))
  where
    double : (t : ℕ) → t % 2 ^ suc n ≡ t / 2 % 2 ^ n * 2 + t % 2
    double t = ap (λ p. t % p) (pow-suc 2 n) ∙ mod_double (2 ^ n) t (pow_pos n)

    half : (t : ℕ) → t % 2 ^ suc n / 2 ≡ t / 2 % 2 ^ n
    half t = omega (arith, double t)

    low : (t : ℕ) → t % 2 ^ suc n % 2 ≡ t % 2
    low t = omega (arith, double t)

pub xor_zero : (a : ℕ) → bit_xor a 0 ≡ a
xor_zero a = xor_comm a 0 ∙ bit_xor-bitwise 0 a
