-- ===== src/Spsc/Counted/Rep.antt =====
-- The values that a ring of include/spsc_4.h, spsc_5.h and the direct-slot class of spsc_final.h stands for, and the laws of its steps.
use lock_free_stuffs.Prelude.{
  ℕ, ◌+◌, ◌-◌, ◌%◌, ◌^◌, ◌<◌, ◌≤◌, ◌≡◌, refl, ap₂, ◌∙◌, Bool, true, false, List, [], length, ◌==◌,
  arith, add_size, pow_pos, pow-le-word, word, null, null-length,
}
use lock_free_stuffs.Spsc.Layout.{slot_index, slot_index-word, slot}
use lock_free_stuffs.Spsc.Protocol.{Phase, quiet, ready, claimed, taken}
use lock_free_stuffs.Spsc.Ring.{
  Holds, Holds-claim, Caches, Caches-load_read, Caches-load_write, Caches-step, counted_full,
  cached_empty,
}
use lock_free_stuffs.Spsc.Counted.{
  Queue, new, looks_full, looks_empty, load_read_index, load_write_index,
}

pub agree : (k elem i : ℕ) → k ≤ 63 → slot_index k elem (i % word) ≡ slot k elem i
agree k elem i h = slot_index-word k elem i (omega arith)

-- An element of the array holds a value `x` as `stored x`.
module _ {ℓ} {A B : Type ℓ} (stored : A → B) (k elem : ℕ) where
  pub record Stands (ph : Phase A) (found : Bool) (xs : List A) (q : Queue B) : Type ℓ where
    pub reads : ℕ
    pub ring :
        Holds stored word k elem (slot_index k elem) reads ph xs q.write_index q.read_index q.buffer
    pub caches :
        Caches word k reads
          (length xs)
          (claimed ph)
          (taken found)
          q.read_index_cache
          q.write_index_cache
    pub write_published : q.published_write ≡ q.write_index
    pub read_published : q.published_read ≡ q.read_index

-- In this class the element is the value.
abbrev pub Rep {ℓ} : {A : Type ℓ} → ℕ → ℕ → Phase A → Bool → List A → Queue A → Type ℓ
Rep k elem = Stands (λ x. x) k elem

module _ {ℓ} {A B : Type ℓ} {stored : A → B} (k elem : ℕ) (size_ok : k ≤ 63) where
  pub new-Rep : (raw : ℕ → B) → Stands stored k elem quiet false [] (new raw)
  unfolding new
  new-Rep raw = record {
    reads = 0;
    ring = record { read_at = refl; write_at = refl; fits = pow_pos k; cells = tt };
    caches = record {
      read_seen = 0;
      write_seen = 0;
      read_cached = refl;
      write_cached = refl;
      read_old = omega arith;
      read_near = omega (arith, pow_pos k);
      write_old = omega arith;
      write_near = omega arith;
    };
    write_published = refl;
    read_published = refl;
  }

  module _ {ph : Phase A} {f : Bool} {xs : List A} {q : Queue B}
      (r : Stands stored k elem ph f xs q) where
    open r use {reads, ring, caches}

    small : 2 ^ k ≤ word
    small = pow-le-word k (omega arith)

    pub next_write : add_size q.write_index 1 ≡ (reads + length xs + 1) % word
    next_write = omega (arith, ring.write_at)

    pub next_read : add_size q.read_index 1 ≡ (reads + 1) % word
    next_read = omega (arith, ring.read_at)

    -- A ring seems full exactly if it would be, had nothing been popped since the cached read.
    pub looks_full_lem : looks_full k elem q ≡ (reads + length xs + 1 == caches.read_seen + 2 ^ k)
    looks_full_lem =
        ap₂ (λ w c. w == add_size c (2 ^ k - 1)) ring.write_at caches.read_cached
        ∙ counted_full (2 ^ k) caches.read_seen (reads + length xs) (pow_pos k) small (omega arith)
            (omega (arith, caches.read_near))

    pub looks_empty_lem : looks_empty k elem q ≡ (reads == caches.write_seen)
    looks_empty_lem =
        ap₂ ◌==◌ ring.read_at caches.write_cached
        ∙ cached_empty word reads caches.write_seen (omega (arith, caches.write_near))
            (omega (arith, ring.fits, caches.write_old, small))

    -- The refreshed tests are exact, whatever the caches held.
    pub still_full : looks_full k elem (load_read_index k elem q) ≡ (length xs + 1 == 2 ^ k)
    unfolding load_read_index
    still_full =
        ap₂ (λ w c. w == add_size c (2 ^ k - 1)) ring.write_at (r.read_published ∙ ring.read_at)
        ∙ counted_full (2 ^ k) reads (reads + length xs) (pow_pos k) small (omega arith)
            (omega (arith, ring.fits))
        ∙ ground arith

    pub still_empty : looks_empty k elem (load_write_index k elem q) ≡ null xs
    unfolding load_write_index
    still_empty =
        ap₂ ◌==◌ ring.read_at (r.write_published ∙ ring.write_at)
        ∙ cached_empty word reads (reads + length xs) (omega arith)
            (omega (arith, ring.fits, small))
        ∙ ground (arith, null-length xs)

    pub write_empty_lem : (q.published_write == q.published_read) ≡ null xs
    unfolding load_write_index
    write_empty_lem = ground (arith, still_empty, r.read_published)

    pub load_read_index-Rep : Stands stored k elem ph f xs (load_read_index k elem q)
    unfolding load_read_index
    load_read_index-Rep = record {
      reads = reads;
      ring = ring;
      caches = Caches-load_read caches (r.read_published ∙ ring.read_at) ring.fits;
      write_published = r.write_published;
      read_published = r.read_published;
    }

    pub load_write_index-Rep :
        (f' : Bool)
        → taken f' ≤ length xs
        → Stands stored k elem ph f' xs (load_write_index k elem q)
    unfolding load_write_index
    load_write_index-Rep f' h = record {
      reads = reads;
      ring = ring;
      caches = Caches-load_write caches (taken f') (r.write_published ∙ ring.write_at) h;
      write_published = r.write_published;
      read_published = r.read_published;
    }

  -- A test that passed on the cached index leaves room for one value.
  pub claim :
      {f : Bool} {xs : List A} {q : Queue B} (r : Stands stored k elem quiet f xs q)
      → looks_full k elem q ≡ false
      → Stands stored k elem ready f xs q
  claim {f} {xs} {q} r e = record {
    reads = r.reads;
    ring = Holds-claim r.ring (omega (arith, near, r.caches.read_old));
    caches =
        Caches-step r.caches r.reads (length xs) 1 (taken f) r.caches.read_old near
          r.caches.write_old r.caches.write_near;
    write_published = r.write_published;
    read_published = r.read_published;
  }
    where
      near : r.reads + length xs + 1 < r.caches.read_seen + 2 ^ k
      near = ground (arith, looks_full_lem r, r.caches.read_near)

  -- A test that passed on the cached index has found a value.
  pub find :
      {ph : Phase A} {xs : List A} {q : Queue B} (r : Stands stored k elem ph false xs q)
      → looks_empty k elem q ≡ false
      → (null xs ≡ false) × Stands stored k elem ph true xs q
  find {ph} {xs} r e = (
    ground (arith, null-length xs, seen, r.caches.write_old),
    record {
      reads = r.reads;
      ring = r.ring;
      caches =
          Caches-step r.caches r.reads (length xs) (claimed ph) 1 r.caches.read_old
            r.caches.read_near r.caches.write_old seen;
      write_published = r.write_published;
      read_published = r.read_published;
    },
  )
    where
      seen : r.reads + 1 ≤ r.caches.write_seen
      seen = ground (arith, looks_empty_lem r, r.caches.write_near)
