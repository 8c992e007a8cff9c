-- ===== src/Spsc/Plain/Rep.antt =====
-- The values that a ring of include/spsc.h stands for, and the laws of its steps.
use lock_free_stuffs.Prelude.{
  ℕ, ◌+◌, ◌-◌, ◌%◌, ◌^◌, ◌≤◌, ◌≡◌, refl, sym, ap, ap₂, ◌∙◌, Bool, false, not, some, List, [], ◌∷◌,
  length, null, null-length, ◌==◌, arith, mask, add_size, mask_next, pow_pos, zero-mod,
}
use lock_free_stuffs.Spsc.Layout.{padding, slot}
use lock_free_stuffs.Spsc.Protocol.{Laws, Phase, quiet}
use lock_free_stuffs.Spsc.Ring.{
  Holds, Holds-claim, Holds-write, Holds-publish, Holds-first, Holds-discard, masked_full,
  cached_empty,
}
use lock_free_stuffs.Spsc.Plain.{
  Queue, new, has_room, store_value, publish_write, has_value, load_value, discard, protocol,
}

abbrev pub pos : ℕ → ℕ → ℕ
pos elem index = index + padding elem

agree : (k elem i : ℕ) → pos elem (i % 2 ^ k) ≡ slot k elem i
agree k elem i = refl

module _ {ℓ} {A : Type ℓ} (k elem : ℕ) where
  pub record Rep (ph : Phase A) (found : Bool) (xs : List A) (q : Queue A) : Type ℓ where
    pub reads : ℕ
    pub ring :
        Holds (λ x. x) (2 ^ k) k elem (pos elem) reads ph xs q.write_index q.read_index q.buffer

module _ {ℓ} {A : Type ℓ} (k elem : ℕ) (size_ok : k ≤ 63) where
  pub new-Rep : (raw : ℕ → A) → Rep k elem quiet false [] (new raw)
  unfolding new
  new-Rep raw = record {
    reads = 0;
    ring = record {
      read_at = sym (zero-mod (2 ^ k));
      write_at = sym (zero-mod (2 ^ k));
      fits = pow_pos k;
      cells = tt;
    };
  }

  module _ {ph : Phase A} {f : Bool} {xs : List A} {q : Queue A} (r : Rep k elem ph f xs q) where
    open r use {reads, ring}

    next_write : mask k (add_size q.write_index 1) ≡ (reads + length xs + 1) % 2 ^ k
    next_write =
        ap (λ i. mask k (add_size i 1)) ring.write_at
        ∙ mask_next k (reads + length xs) (omega arith)

    next_read : mask k (add_size q.read_index 1) ≡ (reads + 1) % 2 ^ k
    next_read = ap (λ i. mask k (add_size i 1)) ring.read_at ∙ mask_next k reads (omega arith)

    -- The test for room fails exactly at 2^k - 1 values.
    pub full_lem : (mask k (add_size q.write_index 1) == q.read_index) ≡ (length xs + 1 == 2 ^ k)
    full_lem =
        ap₂ ◌==◌ next_write ring.read_at
        ∙ masked_full (2 ^ k) reads (reads + length xs) (omega arith) (omega (arith, ring.fits))
        ∙ ground arith

    pub empty_lem : (q.read_index == q.write_index) ≡ null xs
    empty_lem =
        ap₂ ◌==◌ ring.read_at ring.write_at
        ∙ cached_empty (2 ^ k) reads (reads + length xs) (omega arith) (omega (arith, ring.fits))
        ∙ ground (arith, null-length xs)

    pub write_empty_lem : (q.write_index == q.read_index) ≡ null xs
    write_empty_lem = ground (arith, empty_lem)

  pub load_lem :
      {ph : Phase A} {f : Bool} {x : A} {xs : List A} {q : Queue A}
      → Rep k elem ph f (x ∷ xs) q
      → load_value k elem q ≡ x
  unfolding load_value
  load_lem r = Holds-first (agree k elem) r.ring

  pub laws : Laws (2 ^ k - 1) (protocol {A = A} k elem) (Rep k elem)
  unfolding has_room has_value store_value publish_write discard
  laws = record {
    fits = λ r. omega (arith, r.ring.fits);
    reserve_room = λ r e. record {
      reads = r.reads;
      ring = Holds-claim r.ring (ground (arith, full_lem r, r.ring.fits));
    };
    reserve_full = λ {f} {xs} {q} r e.
        (ground (arith, full_lem r, r.ring.fits), record { reads = r.reads; ring = r.ring });
    write-Rep = λ v r. record { reads = r.reads; ring = Holds-write v (agree k elem) r.ring };
    publish_write-Rep = λ r. record { reads = r.reads; ring = Holds-publish r.ring (next_write r) };
    acquire-Rep = λ r. (ap not (empty_lem r), record { reads = r.reads; ring = r.ring });
    read_lem = λ r. ap some (load_lem r);
    publish_read-Rep =
        λ r. record { reads = r.reads + 1; ring = Holds-discard r.ring (next_read r) };
  }
