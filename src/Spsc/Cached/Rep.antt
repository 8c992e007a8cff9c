-- ===== src/Spsc/Cached/Rep.antt =====
-- The values that a ring of include/spsc_1.h to spsc_3.h stands for, and the laws of its steps.
use lock_free_stuffs.Prelude.{
  ℕ, ◌+◌, ◌%◌, ◌^◌, ◌<◌, ◌≤◌, ◌≡◌, refl, sym, ap, ap₂, ◌∙◌, Bool, true, false, List, [], length,
  ◌==◌, arith, mask, add_size, mask_next, pow_pos, zero-mod, null, null-length,
}
use lock_free_stuffs.Spsc.Layout.{padding, slot}
use lock_free_stuffs.Spsc.Protocol.{Phase, quiet, ready, claimed, taken}
use lock_free_stuffs.Spsc.Ring.{
  Holds, Holds-claim, Caches, Caches-load_read, Caches-load_write, Caches-step, masked_full,
  cached_empty,
}
use lock_free_stuffs.Spsc.Cached.{
  Queue, new, looks_full, looks_empty, load_read_index, load_write_index,
}

abbrev pub pos : ℕ → ℕ → ℕ
pos elem index = index + padding elem

pub agree : (k elem i : ℕ) → pos elem (i % 2 ^ k) ≡ slot k elem i
agree k elem i = refl

module _ {ℓ} {A : Type ℓ} (k elem : ℕ) where
  pub record Rep (ph : Phase A) (found : Bool) (xs : List A) (q : Queue A) : Type ℓ where
    pub reads : ℕ
    pub ring :
        Holds (λ x. x) (2 ^ k) k elem (pos elem) reads ph xs q.write_index q.read_index q.buffer
    pub caches :
        Caches
          (2 ^ k)
          k
          reads
          (length xs)
          (claimed ph)
          (taken found)
          q.read_index_cache
          q.write_index_cache

module _ {ℓ} {A : Type ℓ} (k elem : ℕ) (size_ok : k ≤ 63) where
  pub new-Rep : (raw : ℕ → A) → Rep k elem quiet false [] (new raw)
  unfolding new
  new-Rep raw = record {
    reads = 0;
    ring = record {
      read_at = sym (zero-mod (2 ^ k));
      write_at = sym (zero-mod (2 ^ k));
      fits = pow_pos k;
      cells = tt;
    };
    caches = record {
      read_seen = 0;
      write_seen = 0;
      read_cached = sym (zero-mod (2 ^ k));
      write_cached = sym (zero-mod (2 ^ k));
      read_old = omega arith;
      read_near = omega (arith, pow_pos k);
      write_old = omega arith;
      write_near = omega arith;
    };
  }

  module _ {ph : Phase A} {f : Bool} {xs : List A} {q : Queue A} (r : Rep k elem ph f xs q) where
    open r use {reads, ring, caches}

    pub next_write : mask k (add_size q.write_index 1) ≡ (reads + length xs + 1) % 2 ^ k
    next_write =
        ap (λ i. mask k (add_size i 1)) ring.write_at
        ∙ mask_next k (reads + length xs) (omega arith)

    pub next_read : mask k (add_size q.read_index 1) ≡ (reads + 1) % 2 ^ k
    next_read = ap (λ i. mask k (add_size i 1)) ring.read_at ∙ mask_next k reads (omega arith)

    -- A ring seems full exactly if it would be, had nothing been popped since the cached read.
    pub looks_full_lem : looks_full k elem q ≡ (reads + length xs + 1 == caches.read_seen + 2 ^ k)
    looks_full_lem =
        ap₂ ◌==◌ next_write caches.read_cached
        ∙ masked_full (2 ^ k) caches.read_seen (reads + length xs) (omega arith)
            (omega (arith, caches.read_near))

    pub looks_empty_lem : looks_empty k elem q ≡ (reads == caches.write_seen)
    looks_empty_lem =
        ap₂ ◌==◌ ring.read_at caches.write_cached
        ∙ cached_empty (2 ^ k) reads caches.write_seen (omega (arith, caches.write_near))
            (omega (arith, ring.fits, caches.write_old))

    -- The refreshed tests are exact, whatever the caches held.
    pub still_full : looks_full k elem (load_read_index k elem q) ≡ (length xs + 1 == 2 ^ k)
    unfolding load_read_index
    still_full =
        ap₂ ◌==◌ next_write ring.read_at
        ∙ masked_full (2 ^ k) reads (reads + length xs) (omega arith) (omega (arith, ring.fits))
        ∙ ground arith

    pub still_empty : looks_empty k elem (load_write_index k elem q) ≡ null xs
    unfolding load_write_index
    still_empty =
        ap₂ ◌==◌ ring.read_at ring.write_at
        ∙ cached_empty (2 ^ k) reads (reads + length xs) (omega arith) (omega (arith, ring.fits))
        ∙ ground (arith, null-length xs)

    pub write_empty_lem : (q.write_index == q.read_index) ≡ null xs
    unfolding load_write_index
    write_empty_lem = ground (arith, still_empty)

    pub load_read_index-Rep : Rep k elem ph f xs (load_read_index k elem q)
    unfolding load_read_index
    load_read_index-Rep = record {
      reads = reads;
      ring = ring;
      caches = Caches-load_read caches ring.read_at ring.fits;
    }

    pub load_write_index-Rep :
        (f' : Bool) → taken f' ≤ length xs → Rep k elem ph f' xs (load_write_index k elem q)
    unfolding load_write_index
    load_write_index-Rep f' h = record {
      reads = reads;
      ring = ring;
      caches = Caches-load_write caches (taken f') ring.write_at h;
    }

  -- A test that passed on the cached index leaves room for one value.
  pub claim :
      {f : Bool} {xs : List A} {q : Queue A} (r : Rep k elem quiet f xs q)
      → looks_full k elem q ≡ false
      → Rep k elem ready f xs q
  claim {f} {xs} {q} r e = record {
    reads = r.reads;
    ring = Holds-claim r.ring (omega (arith, near, r.caches.read_old));
    caches =
        Caches-step r.caches r.reads (length xs) 1 (taken f) r.caches.read_old near
          r.caches.write_old r.caches.write_near;
  }
    where
      near : r.reads + length xs + 1 < r.caches.read_seen + 2 ^ k
      near = ground (arith, looks_full_lem r, r.caches.read_near)

  -- A test that passed on the cached index has found a value.
  pub find :
      {ph : Phase A} {xs : List A} {q : Queue A} (r : Rep k elem ph false xs q)
      → looks_empty k elem q ≡ false
      → (null xs ≡ false) × Rep k elem ph true xs q
  find {ph} {xs} r e = (
    ground (arith, null-length xs, seen, r.caches.write_old),
    record {
      reads = r.reads;
      ring = r.ring;
      caches =
          Caches-step r.caches r.reads (length xs) (claimed ph) 1 r.caches.read_old
            r.caches.read_near r.caches.write_old seen;
    },
  )
    where
      seen : r.reads + 1 ≤ r.caches.write_seen
      seen = ground (arith, looks_empty_lem r, r.caches.write_near)
