-- ===== src/Mpmc/Split/Laws.antt =====
-- include/mpmc_seq_split.h: a ticket's places are those of its remainder, and the constructor numbers
-- them all.
use lock_free_stuffs.Prelude.{
  ℕ, ◌+◌, ◌/◌, ◌%◌, ◌^◌, ◌≡◌, ◌≢◌, refl, sym, ap, ◌∙◌, arith, mod-lt, pow_pos, mask, mask_lem,
}
use lock_free_stuffs.Spsc.Layout.{padding}
use lock_free_stuffs.Mpmc.Ring.{Lawful, numbered_lem}
use lock_free_stuffs.Mpmc.Remap.{shuffle_bits, remap_index}
use lock_free_stuffs.Mpmc.Remap.Twice.{remap_index_twice}
use lock_free_stuffs.Mpmc.Seq.Laws.{written, elsewhere}
use lock_free_stuffs.Mpmc.Split.{
  value_index, seq_index, load_value, load_sequence, store_value, store_sequence, ring,
  number_slots, new,
}

masked : (k c d : ℕ) → c % 2 ^ k ≡ d % 2 ^ k → mask k c ≡ mask k d
masked k c d e = mask_lem k c ∙ e ∙ sym (mask_lem k d)

seq_at : (k c d : ℕ) → c % 2 ^ k ≡ d % 2 ^ k → seq_index k c ≡ seq_index k d
unfolding seq_index
seq_at k c d e = ap (λ t. t + padding 64) (masked k c d e)

pub value_at :
    (k elem c d : ℕ) → c % 2 ^ k ≡ d % 2 ^ k → value_index k elem c ≡ value_index k elem d
unfolding value_index
value_at k elem c d e =
    ap (λ t. remap_index (shuffle_bits k (64 / elem)) t + padding elem) (masked k c d e)

pub value_apart :
    (k elem c d : ℕ) → d % 2 ^ k ≢ c % 2 ^ k → value_index k elem d ≢ value_index k elem c
unfolding value_index
value_apart k elem c d ne e =
    let b : ℕ = shuffle_bits k (64 / elem) in
    let same : remap_index b (mask k d) ≡ remap_index b (mask k c) = omega (arith, e) in
    ne (sym (mask_lem k d) ∙ sym (back d) ∙ ap (remap_index b) same ∙ back c ∙ mask_lem k c)
  where
    back :
        (x : ℕ)
        → remap_index
            (shuffle_bits k (64 / elem))
            (remap_index (shuffle_bits k (64 / elem)) (mask k x))
          ≡ mask k x
    back x =
        (remap_index_twice k (64 / elem) (mask k x)
          (omega (arith, mask_lem k x, mod-lt x (pow_pos k)))).0

seq_apart : (k c d : ℕ) → d % 2 ^ k ≢ c % 2 ^ k → seq_index k d ≢ seq_index k c
unfolding seq_index
seq_apart k c d ne e = ne (omega (arith, e, mask_lem k d, mask_lem k c))

module _ {ℓ} {A : Type ℓ} (k elem : ℕ) where
  pub ring-Lawful : Lawful k (ring {A = A} k elem)
  unfolding load_value load_sequence store_value store_sequence
  ring-Lawful = record {
    number_at = λ c d m e. ap m.seqs (seq_at k c d e);
    value_at = λ c d m e. ap m.values (value_at k elem c d e);
    number_stored = λ c n m. written m.seqs (seq_index k c) n;
    number_other =
        λ c d n m ne. elsewhere m.seqs (seq_index k c) n (seq_index k d) (seq_apart k c d ne);
    number_value = λ c d v m. refl;
    value_stored = λ c v m. written m.values (value_index k elem c) v;
    value_other = λ c d v m ne.
        elsewhere m.values (value_index k elem c) v (value_index k elem d)
          (value_apart k elem c d ne);
    value_number = λ c d n m. refl;
  }

  pub new_numbered : (raw : ℕ → A) (c : ℕ) → load_sequence k c (new k raw) ≡ c % 2 ^ k
  unfolding new number_slots
  new_numbered raw =
      numbered_lem k (ring k elem) ring-Lawful
        (λ n. number_slots k n (record { values = raw; seqs = λ j. 0 })) (λ n. refl)
