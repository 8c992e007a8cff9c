-- ===== src/Spsc/Ring.antt =====
-- What the index-based rings share: an index is a count modulo `M` (the size of the ring, or 2^64),
-- and `pos` finds the element of an index. A cached index is an old count.
use lock_free_stuffs.Prelude.{
  ℕ, ◌+◌, ◌-◌, ◌%◌, ◌^◌, ◌<◌, ◌≤◌, ◌≡◌, refl, sym, ap, ◌∙◌, subst, List, [], ◌∷◌, ◌++◌, length,
  length-snoc, length-append, append-nil, ◌==◌, arith, ring_full, ring_full_self, mod_inj, word,
}
use lock_free_stuffs.Spsc.Cells.{write, Cells, Cells-write_next, Cells-write_other}
use lock_free_stuffs.Spsc.Protocol.{Phase, quiet, ready, written, staged, claimed, staged-claimed}
use lock_free_stuffs.Spsc.Layout.{slot, slot-Apart}

module _ {ℓ} {A B : Type ℓ} (stored : A → B) (M k elem : ℕ) (pos : ℕ → ℕ) where
  -- `reads` values were popped before, and `xs` are published; the producer is in phase `ph`.
  pub record Holds (reads : ℕ) (ph : Phase A) (xs : List A) (write_index read_index : ℕ)
      (buffer : ℕ → B) : Type ℓ where
    pub read_at : read_index ≡ reads % M
    pub write_at : write_index ≡ (reads + length xs) % M
    pub fits : length xs + claimed ph < 2 ^ k
    pub cells : Cells stored (slot k elem) buffer reads (xs ++ staged ph)

module _ {ℓ} {A B : Type ℓ} {stored : A → B} {M k elem reads : ℕ} {pos : ℕ → ℕ} where
  -- A test that passed claims the next slot.
  pub Holds-claim :
      {xs : List A} {w r : ℕ} {buffer : ℕ → B}
      → Holds stored M k elem pos reads quiet xs w r buffer
      → length xs + 1 < 2 ^ k
      → Holds stored M k elem pos reads ready xs w r buffer
  Holds-claim h room = record {
    read_at = h.read_at;
    write_at = h.write_at;
    fits = room;
    cells = h.cells;
  }

  -- The store into the element behind the last value.
  pub Holds-write :
      {xs : List A} {w r : ℕ} {buffer : ℕ → B} (v : A)
      → ((i : ℕ) → pos (i % M) ≡ slot k elem i)
      → Holds stored M k elem pos reads ready xs w r buffer
      → Holds stored M k elem pos reads (written v) xs w r (write buffer (pos w) (stored v))
  Holds-write {xs} {buffer = buffer} v agree h = record {
    read_at = h.read_at;
    write_at = h.write_at;
    fits = h.fits;
    cells =
        subst (λ p. Cells stored (slot k elem) (write buffer p (stored v)) reads (xs ++ (v ∷ [])))
          (sym (ap pos h.write_at ∙ agree (reads + length xs)))
          (Cells-write_next stored (slot k elem) (slot-Apart k elem) buffer v _ reads xs refl
            (omega (arith, h.fits))
            (subst (λ l. Cells stored (slot k elem) buffer reads l) (append-nil xs) h.cells));
  }

  pub Holds-publish :
      {xs : List A} {w w' r : ℕ} {buffer : ℕ → B} {v : A}
      → Holds stored M k elem pos reads (written v) xs w r buffer
      → w' ≡ (reads + length xs + 1) % M
      → Holds stored M k elem pos reads quiet (xs ++ (v ∷ [])) w' r buffer
  Holds-publish {xs} {buffer = buffer} {v} h next = record {
    read_at = h.read_at;
    write_at = next ∙ ap (λ t. t % M) (omega (arith, length-snoc xs v));
    fits = omega (arith, length-snoc xs v, h.fits);
    cells =
        subst (λ l. Cells stored (slot k elem) buffer reads l) (sym (append-nil (xs ++ (v ∷ []))))
          h.cells;
  }

  pub Holds-first :
      {x : A} {ph : Phase A} {xs : List A} {w r : ℕ} {buffer : ℕ → B}
      → ((i : ℕ) → pos (i % M) ≡ slot k elem i)
      → Holds stored M k elem pos reads ph (x ∷ xs) w r buffer
      → buffer (pos r) ≡ stored x
  Holds-first {buffer = buffer} agree h = ap buffer (ap pos h.read_at ∙ agree reads) ∙ h.cells.0

  pub Holds-discard :
      {x : A} {ph : Phase A} {xs : List A} {w r r' : ℕ} {buffer : ℕ → B}
      → Holds stored M k elem pos reads ph (x ∷ xs) w r buffer
      → r' ≡ (reads + 1) % M
      → Holds stored M k elem pos (reads + 1) ph xs w r' buffer
  Holds-discard {xs} h next = record {
    read_at = next;
    write_at = h.write_at ∙ ap (λ t. t % M) (omega arith);
    fits = omega (arith, h.fits);
    cells = h.cells.1;
  }

module _ {ℓ} {A B : Type ℓ} {stored : A → B} {M k elem : ℕ} {pos : ℕ → ℕ} where
  -- A store into the slot that was freed last leaves the values alone.
  pub Holds-freed :
      (reads : ℕ) {ph : Phase A} {xs : List A} {w r p : ℕ} {buffer : ℕ → B} (z : B)
      → p ≡ slot k elem reads
      → Holds stored M k elem pos (reads + 1) ph xs w r buffer
      → Holds stored M k elem pos (reads + 1) ph xs w r (write buffer p z)
  Holds-freed reads {ph} {xs} {buffer = buffer} z at h = record {
    read_at = h.read_at;
    write_at = h.write_at;
    fits = h.fits;
    cells =
        Cells-write_other stored (slot k elem) buffer _ z (reads + 1) (xs ++ staged ph)
          (λ i a b e.
            slot-Apart k elem reads i (omega (arith, a))
              (omega (arith, b, h.fits, length-append xs (staged ph), staged-claimed ph))
              (sym (e ∙ at)))
          h.cells;
  }

-- The producer's cache holds the count of some earlier read, near enough that the slots it has
-- claimed are free; the consumer's cache holds the count of some earlier publication.
pub record Caches (M k reads len claims takes read_cache write_cache : ℕ) : Type 0 where
  pub read_seen : ℕ
  pub write_seen : ℕ
  pub read_cached : read_cache ≡ read_seen % M
  pub write_cached : write_cache ≡ write_seen % M
  pub read_old : read_seen ≤ reads
  pub read_near : reads + len + claims < read_seen + 2 ^ k
  pub write_old : write_seen ≤ reads + len
  pub write_near : reads + takes ≤ write_seen

module _ {M k reads len claims takes rc wc : ℕ} (c : Caches M k reads len claims takes rc wc) where
  pub Caches-load_read :
      {r : ℕ} → r ≡ reads % M → len + claims < 2 ^ k → Caches M k reads len claims takes r wc
  Caches-load_read at fits = record {
    read_seen = reads;
    write_seen = c.write_seen;
    read_cached = at;
    write_cached = c.write_cached;
    read_old = omega arith;
    read_near = omega arith;
    write_old = c.write_old;
    write_near = c.write_near;
  }

  pub Caches-load_write :
      {w : ℕ} (takes' : ℕ)
      → w ≡ (reads + len) % M
      → takes' ≤ len
      → Caches M k reads len claims takes' rc w
  Caches-load_write takes' at some_left = record {
    read_seen = c.read_seen;
    write_seen = reads + len;
    read_cached = c.read_cached;
    write_cached = at;
    read_old = c.read_old;
    read_near = c.read_near;
    write_old = omega arith;
    write_near = omega arith;
  }

  -- The same caches serve after a step of either thread, within what they have seen.
  pub Caches-step :
      (reads' len' claims' takes' : ℕ)
      → c.read_seen ≤ reads'
      → reads' + len' + claims' < c.read_seen + 2 ^ k
      → c.write_seen ≤ reads' + len'
      → reads' + takes' ≤ c.write_seen
      → Caches M k reads' len' claims' takes' rc wc
  Caches-step reads' len' claims' takes' a b d e = record {
    read_seen = c.read_seen;
    write_seen = c.write_seen;
    read_cached = c.read_cached;
    write_cached = c.write_cached;
    read_old = a;
    read_near = b;
    write_old = d;
    write_near = e;
  }

-- The tests for room against a cached count, of a masked index and of a counter that wraps.
pub masked_full :
    (n seen count : ℕ)
    → seen ≤ count
    → count < seen + n
    → ((count + 1) % n == seen % n) ≡ (count + 1 == seen + n)
masked_full n seen count old near = ground (
  arith,
  ring_full n seen (count - seen) (omega arith),
  ring_full_self n seen (count - seen),
  ap (λ t. t % n) gap,
)
  where
    gap : seen + (count - seen) + 1 ≡ count + 1
    gap = omega arith

pub counted_full :
    (n seen count : ℕ)
    → 0 < n
    → n ≤ word
    → seen ≤ count
    → count < seen + n
    → (count % word == (seen % word + (n - 1)) % word) ≡ (count + 1 == seen + n)
counted_full n seen count pos small old near = ground arith

pub cached_empty :
    (M reads seen : ℕ) → reads ≤ seen → seen < reads + M → (reads % M == seen % M) ≡ (reads == seen)
cached_empty M reads seen near old = ground (arith, mod_inj M reads seen near old)
