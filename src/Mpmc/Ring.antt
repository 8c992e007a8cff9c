-- ===== src/Mpmc/Ring.antt =====
-- include/mpmc_seq.h and include/mpmc_seq_split.h: what the two classes share, the counters head_ and
-- tail_ and slots that hold a value and a sequence number. Ring is what a class does with its slots,
-- and Lawful what the protocol relies on.
use lock_free_stuffs.Prelude.{
  ℕ, zero, suc, ◌%◌, ◌^◌, ◌≤◌, ◌<◌, ◌≡◌, ◌≢◌, ◌∙◌, sym, ap, Bool, leb, ◌==◌, ==→eq, Bool-cases, inl,
  inr, if◌then◌else◌, sub_size, arith, mod_apart, mod-lt, pow_pos,
}
use native.Mathlib.Nat.{mod-mod}

pub record Queue {ℓ} (M : Type ℓ) : Type ℓ where
  pub head : ℕ
  pub tail : ℕ
  pub slots : M

module _ {ℓ} {M : Type ℓ} where
  unfoldable pub size : Queue M → ℕ
  size q = if leb q.tail q.head then sub_size q.head q.tail else 0

  unfoldable pub empty : Queue M → Bool
  empty q = size q == 0

-- The slot of a ticket: its number and its value, loaded and stored.
pub record Ring {ℓ} (A M : Type ℓ) : Type ℓ where
  pub number : ℕ → M → ℕ
  pub value : ℕ → M → A
  pub store_value : ℕ → A → M → M
  pub store_number : ℕ → ℕ → M → M

-- Two tickets have one slot exactly if they are equal modulo 2^k.
pub record Lawful {ℓ} {A M : Type ℓ} (k : ℕ) (R : Ring A M) : Type ℓ where
  pub number_at : (c d : ℕ) (m : M) → c % 2 ^ k ≡ d % 2 ^ k → R.number c m ≡ R.number d m
  pub value_at : (c d : ℕ) (m : M) → c % 2 ^ k ≡ d % 2 ^ k → R.value c m ≡ R.value d m
  pub number_stored : (c n : ℕ) (m : M) → R.number c (R.store_number c n m) ≡ n
  pub number_other :
      (c d n : ℕ) (m : M) → d % 2 ^ k ≢ c % 2 ^ k → R.number d (R.store_number c n m) ≡ R.number d m
  pub number_value : (c d : ℕ) (v : A) (m : M) → R.number d (R.store_value c v m) ≡ R.number d m
  pub value_stored : (c : ℕ) (v : A) (m : M) → R.value c (R.store_value c v m) ≡ v
  pub value_other :
      (c d : ℕ) (v : A) (m : M)
      → d % 2 ^ k ≢ c % 2 ^ k
      → R.value d (R.store_value c v m) ≡ R.value d m
  pub value_number : (c d n : ℕ) (m : M) → R.value d (R.store_number c n m) ≡ R.value d m

-- A constructor's loop, which `made` runs for a number of rounds, numbers the slots.
module _ {ℓ} {A M : Type ℓ} (k : ℕ) (R : Ring A M) (law : Lawful k R) (made : ℕ → M)
    (round : (n : ℕ) → made (suc n) ≡ R.store_number n n (made n)) where
  numbered_upto : (n c : ℕ) → c < n → n ≤ 2 ^ k → R.number c (made n) ≡ c
  numbered_upto zero c lt le = absurd (omega arith)
  numbered_upto (suc n) c lt le = ap (R.number c) (round n) ∙ elim (Bool-cases (c == n)) [
    | inl last ↦
        let e : c ≡ n = ==→eq c n last in
        ap (λ t. R.number t (R.store_number n n (made n))) e
        ∙ law.number_stored n n (made n)
        ∙ sym e
    | inr earlier ↦
        law.number_other n c n (made n)
          (mod_apart (2 ^ k) c n (ground (arith, earlier)) (omega arith))
        ∙ numbered_upto n c (ground (arith, earlier)) (omega arith)
  ]

  pub numbered_lem : (c : ℕ) → R.number c (made (2 ^ k)) ≡ c % 2 ^ k
  numbered_lem c =
      law.number_at c (c % 2 ^ k) (made (2 ^ k)) (sym (mod-mod c (2 ^ k)))
      ∙ numbered_upto (2 ^ k) (c % 2 ^ k) (mod-lt c (pow_pos k)) (omega arith)
