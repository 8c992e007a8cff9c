-- ===== src/Mpmc/Seq/Laws.antt =====
-- include/mpmc_seq.h: a ticket's slot is that of its remainder, and the constructor numbers them all.
use lock_free_stuffs.Prelude.{
  ℕ, ◌+◌, ◌%◌, ◌^◌, ◌≡◌, ◌≢◌, refl, sym, ap, ◌∙◌, ◌==◌, eq→==, if_split, ==→eq, arith,
}
use lock_free_stuffs.Spsc.Cells.{write}
use lock_free_stuffs.Spsc.Layout.{slot_index, slot_index_lem, padding}
use lock_free_stuffs.Mpmc.Ring.{Lawful, numbered_lem}
use lock_free_stuffs.Mpmc.Seq.{
  Slot, load_value, load_sequence, store_value, store_sequence, ring, number_slots, new,
}

pub index_at : (k elem c d : ℕ) → c % 2 ^ k ≡ d % 2 ^ k → slot_index k elem c ≡ slot_index k elem d
index_at k elem c d e =
    slot_index_lem k elem c ∙ ap (λ t. t + padding elem) e ∙ sym (slot_index_lem k elem d)

pub index_apart :
    (k elem c d : ℕ) → d % 2 ^ k ≢ c % 2 ^ k → slot_index k elem d ≢ slot_index k elem c
index_apart k elem c d ne e =
    ne (omega (arith, e, slot_index_lem k elem c, slot_index_lem k elem d))

-- An element of an array that has been written to.
pub written {ℓ} : {B : Type ℓ} (a : ℕ → B) (p : ℕ) (x : B) → write a p x p ≡ x
written a p x = rw (eq→== p p refl) refl

pub elsewhere {ℓ} : {B : Type ℓ} (a : ℕ → B) (p : ℕ) (x : B) (j : ℕ) → j ≢ p → write a p x j ≡ a j
elsewhere a p x j ne = ground (arith, ne)

module _ {ℓ} {A : Type ℓ} (k elem : ℕ) where
  pub ring-Lawful : Lawful k (ring {A = A} k elem)
  unfolding load_value load_sequence store_value store_sequence
  ring-Lawful = record {
    number_at = λ c d m e. ap (λ t. (m t).seq) (index_at k elem c d e);
    value_at = λ c d m e. ap (λ t. (m t).val) (index_at k elem c d e);
    number_stored = λ c n m. ap (λ s. s.seq) (written m (slot_index k elem c) _);
    number_other = λ c d n m ne.
        ap (λ s. s.seq)
          (elsewhere m (slot_index k elem c) _ (slot_index k elem d) (index_apart k elem c d ne));
    number_value = λ c d v m.
        if_split (λ (s : Slot A). s.seq ≡ (m (slot_index k elem d)).seq)
          (slot_index k elem d == slot_index k elem c)
          (λ e. ap (λ p. (m p).seq) (sym (==→eq (slot_index k elem d) (slot_index k elem c) e)))
          (λ e. refl);
    value_stored = λ c v m. ap (λ s. s.val) (written m (slot_index k elem c) _);
    value_other = λ c d v m ne.
        ap (λ s. s.val)
          (elsewhere m (slot_index k elem c) _ (slot_index k elem d) (index_apart k elem c d ne));
    value_number = λ c d n m.
        if_split (λ (s : Slot A). s.val ≡ (m (slot_index k elem d)).val)
          (slot_index k elem d == slot_index k elem c)
          (λ e. ap (λ p. (m p).val) (sym (==→eq (slot_index k elem d) (slot_index k elem c) e)))
          (λ e. refl);
  }

  pub new_numbered : (raw : ℕ → A) (c : ℕ) → load_sequence k elem c (new k elem raw) ≡ c % 2 ^ k
  unfolding new number_slots
  new_numbered raw =
      numbered_lem k (ring k elem) ring-Lawful
        (λ n. number_slots k elem n (λ j. record { val = raw j; seq = 0 })) (λ n. refl)
