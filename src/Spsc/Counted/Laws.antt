-- ===== src/Spsc/Counted/Laws.antt =====
-- The steps of include/spsc_4.h, spsc_5.h and the direct-slot class of spsc_final.h meet the laws of the protocol.
use lock_free_stuffs.Prelude.{
  ℕ, word, add_size, ◌+◌, ◌-◌, ◌^◌, ◌≤◌, ◌≡◌, refl, ap, Bool, true, false, not, some, List, [], ◌∷◌,
  ◌++◌, length, length-snoc, null, ◌==◌, if_split, Bool-cases, inl, inr, pow_pos, arith,
}
use lock_free_stuffs.Spsc.Protocol.{Laws, Phase, quiet, ready, written, claimed, taken, taken-le}
use lock_free_stuffs.Spsc.Layout.{slot_index}
use lock_free_stuffs.Spsc.Ring.{
  Holds, Holds-write, Holds-publish, Holds-first, Holds-discard, Caches-step,
}
use lock_free_stuffs.Spsc.Counted.{
  Queue, looks_full, looks_empty, has_room, store_value, publish_write, has_value, load_value,
  discard, protocol,
}
use lock_free_stuffs.Spsc.Counted.Rep.{
  Rep, Stands, agree, claim, find, next_write, next_read, still_full, still_empty,
  load_read_index-Rep, load_write_index-Rep,
}

module _ {ℓ} {A B : Type ℓ} {stored : A → B} (k elem : ℕ) (size_ok : k ≤ 63) where
  module _ {f : Bool} {xs : List A} {q : Queue B} (r : Stands stored k elem quiet f xs q) where
    pub has_room_room :
        (has_room k elem q).0 ≡ true → Stands stored k elem ready f xs (has_room k elem q).1
    unfolding has_room
    has_room_room =
        if_split (λ (t : Bool × Queue B). t.0 ≡ true → Stands stored k elem ready f xs t.1)
          (looks_full k elem q)
          (λ e pass. claim k elem size_ok (load_read_index-Rep k elem size_ok r) (ground arith))
          (λ e pass. claim k elem size_ok r e)

    pub has_room_full :
        (has_room k elem q).0 ≡ false
        → (length xs ≡ 2 ^ k - 1) × Stands stored k elem quiet f xs (has_room k elem q).1
    unfolding has_room
    has_room_full =
        if_split
          (λ (t : Bool × Queue B).
            t.0 ≡ false → (length xs ≡ 2 ^ k - 1) × Stands stored k elem quiet f xs t.1)
          (looks_full k elem q)
          (λ e fail.
            (ground (arith, still_full k elem size_ok r), load_read_index-Rep k elem size_ok r))
          (λ e fail. cc)

    pub has_room_lem : (has_room k elem q).0 ≡ not (length xs + 1 == 2 ^ k)
    has_room_lem = elim (Bool-cases (has_room k elem q).0) [
      | inl pass ↦ ground (arith, pass, (has_room_room pass).ring.fits)
      | inr fail ↦ ground (arith, fail, (has_room_full fail).0, pow_pos k)
    ]

  pub has_value-Rep :
      {ph : Phase A} {xs : List A} {q : Queue B}
      → Stands stored k elem ph false xs q
      → ((has_value k elem q).0 ≡ not (null xs))
        × Stands stored k elem ph (not (null xs)) xs (has_value k elem q).1
  unfolding has_value
  has_value-Rep {ph} {xs} {q} r =
      if_split
        (λ (t : Bool × Queue B).
          (t.0 ≡ not (null xs)) × Stands stored k elem ph (not (null xs)) xs t.1)
        (looks_empty k elem q)
        (λ e. (
          ap not (still_empty k elem size_ok r),
          load_write_index-Rep k elem size_ok r (not (null xs)) (taken-le xs),
        ))
        (λ e. let (some_left, r') = find k elem size_ok r e in rw some_left (refl, r'))

  pub load_lem :
      {ph : Phase A} {f : Bool} {x : A} {xs : List A} {q : Queue B}
      → Stands stored k elem ph f (x ∷ xs) q
      → load_value k elem q ≡ stored x
  unfolding load_value
  load_lem r = Holds-first (λ i. agree k elem i size_ok) r.ring

  pub write-Rep :
      (v : A) {f : Bool} {xs : List A} {q : Queue B}
      → Stands stored k elem ready f xs q
      → Stands stored k elem (written v) f xs (store_value k elem (stored v) q)
  unfolding store_value
  write-Rep v r = record {
    reads = r.reads;
    ring = Holds-write v (λ i. agree k elem i size_ok) r.ring;
    caches = r.caches;
    write_published = r.write_published;
    read_published = r.read_published;
  }

  pub publish_write-Rep :
      {v : A} {f : Bool} {xs : List A} {q : Queue B}
      → Stands stored k elem (written v) f xs q
      → Stands stored k elem quiet f (xs ++ (v ∷ [])) (publish_write k elem q)
  unfolding publish_write
  publish_write-Rep {v} {f} {xs} r = record {
    reads = r.reads;
    ring = Holds-publish r.ring (next_write k elem size_ok r);
    caches =
        Caches-step r.caches r.reads (length (xs ++ (v ∷ []))) 0 (taken f) r.caches.read_old
          (omega (arith, length-snoc xs v, r.caches.read_near))
          (omega (arith, length-snoc xs v, r.caches.write_old)) r.caches.write_near;
    write_published = refl;
    read_published = r.read_published;
  }

  -- The next read index is published over an array that still holds the other values.
  pub discard_onto-Rep :
      {ph : Phase A} {x : A} {xs : List A} {q : Queue B}
      (r : Stands stored k elem ph true (x ∷ xs) q) (left : ℕ → B)
      → Holds stored word k elem
          (slot_index k elem)
          (r.reads + 1)
          ph
          xs
          q.write_index
          (add_size q.read_index 1)
          left
      → Stands stored k elem ph false xs (discard k elem (record q { buffer = left }))
  unfolding discard
  discard_onto-Rep {ph} {x} {xs} r left h = record {
    reads = r.reads + 1;
    ring = h;
    caches =
        Caches-step r.caches (r.reads + 1) (length xs) (claimed ph) 0
          (omega (arith, r.caches.read_old)) (omega (arith, r.caches.read_near))
          (omega (arith, r.caches.write_old)) (omega (arith, r.caches.write_near));
    write_published = r.write_published;
    read_published = refl;
  }

  pub discard-Rep :
      {ph : Phase A} {x : A} {xs : List A} {q : Queue B}
      → Stands stored k elem ph true (x ∷ xs) q
      → Stands stored k elem ph false xs (discard k elem q)
  discard-Rep {q = q} r =
      discard_onto-Rep r q.buffer (Holds-discard r.ring (next_read k elem size_ok r))

module _ {ℓ} {A : Type ℓ} (k elem : ℕ) (size_ok : k ≤ 63) where
  pub laws : Laws (2 ^ k - 1) (protocol {A = A} k elem) (Rep k elem)
  laws = record {
    fits = λ r. omega (arith, r.ring.fits);
    reserve_room = has_room_room k elem size_ok;
    reserve_full = has_room_full k elem size_ok;
    write-Rep = λ v r. write-Rep k elem size_ok v r;
    publish_write-Rep = publish_write-Rep k elem size_ok;
    acquire-Rep = has_value-Rep k elem size_ok;
    read_lem = λ r. ap some (load_lem k elem size_ok r);
    publish_read-Rep = discard-Rep k elem size_ok;
  }
