-- ===== src/Spsc/Cached/Laws.antt =====
-- The steps of include/spsc_1.h to spsc_3.h meet the laws of the protocol.
use lock_free_stuffs.Prelude.{
  ℕ, ◌+◌, ◌-◌, ◌^◌, ◌≤◌, ◌≡◌, refl, ap, Bool, true, false, not, some, List, [], ◌∷◌, ◌++◌, length,
  length-snoc, null, ◌==◌, if_split, Bool-cases, inl, inr, pow_pos, arith,
}
use lock_free_stuffs.Spsc.Protocol.{Laws, Phase, quiet, ready, written, claimed, taken, taken-le}
use lock_free_stuffs.Spsc.Ring.{Holds-write, Holds-publish, Holds-first, Holds-discard, Caches-step}
use lock_free_stuffs.Spsc.Cached.{
  Queue, looks_full, looks_empty, has_room, store_value, publish_write, has_value, load_value,
  discard, protocol,
}
use lock_free_stuffs.Spsc.Cached.Rep.{
  Rep, agree, claim, find, next_write, next_read, still_full, still_empty, load_read_index-Rep,
  load_write_index-Rep,
}

module _ {ℓ} {A : Type ℓ} (k elem : ℕ) (size_ok : k ≤ 63) where
  module _ {f : Bool} {xs : List A} {q : Queue A} (r : Rep k elem quiet f xs q) where
    pub has_room_room : (has_room k elem q).0 ≡ true → Rep k elem ready f xs (has_room k elem q).1
    unfolding has_room
    has_room_room =
        if_split (λ (t : Bool × Queue A). t.0 ≡ true → Rep k elem ready f xs t.1)
          (looks_full k elem q)
          (λ e pass. claim k elem size_ok (load_read_index-Rep k elem size_ok r) (ground arith))
          (λ e pass. claim k elem size_ok r e)

    pub has_room_full :
        (has_room k elem q).0 ≡ false
        → (length xs ≡ 2 ^ k - 1) × Rep k elem quiet f xs (has_room k elem q).1
    unfolding has_room
    has_room_full =
        if_split
          (λ (t : Bool × Queue A).
            t.0 ≡ false → (length xs ≡ 2 ^ k - 1) × Rep k elem quiet f xs t.1)
          (looks_full k elem q)
          (λ e fail.
            (ground (arith, still_full k elem size_ok r), load_read_index-Rep k elem size_ok r))
          (λ e fail. cc)

    pub has_room_lem : (has_room k elem q).0 ≡ not (length xs + 1 == 2 ^ k)
    has_room_lem = elim (Bool-cases (has_room k elem q).0) [
      | inl pass ↦ ground (arith, pass, (has_room_room pass).ring.fits)
      | inr fail ↦ ground (arith, fail, (has_room_full fail).0, pow_pos k)
    ]

  pub has_value-Rep :
      {ph : Phase A} {xs : List A} {q : Queue A}
      → Rep k elem ph false xs q
      → ((has_value k elem q).0 ≡ not (null xs))
        × Rep k elem ph (not (null xs)) xs (has_value k elem q).1
  unfolding has_value
  has_value-Rep {ph} {xs} {q} r =
      if_split
        (λ (t : Bool × Queue A). (t.0 ≡ not (null xs)) × Rep k elem ph (not (null xs)) xs t.1)
        (looks_empty k elem q)
        (λ e. (
          ap not (still_empty k elem size_ok r),
          load_write_index-Rep k elem size_ok r (not (null xs)) (taken-le xs),
        ))
        (λ e. let (some_left, r') = find k elem size_ok r e in rw some_left (refl, r'))

  pub load_lem :
      {ph : Phase A} {f : Bool} {x : A} {xs : List A} {q : Queue A}
      → Rep k elem ph f (x ∷ xs) q
      → load_value k elem q ≡ x
  unfolding load_value
  load_lem r = Holds-first (agree k elem) r.ring

  pub write-Rep :
      (v : A) {f : Bool} {xs : List A} {q : Queue A}
      → Rep k elem ready f xs q
      → Rep k elem (written v) f xs (store_value k elem v q)
  unfolding store_value
  write-Rep v r = record {
    reads = r.reads;
    ring = Holds-write v (agree k elem) r.ring;
    caches = r.caches;
  }

  pub publish_write-Rep :
      {v : A} {f : Bool} {xs : List A} {q : Queue A}
      → Rep k elem (written v) f xs q
      → Rep k elem quiet f (xs ++ (v ∷ [])) (publish_write k elem q)
  unfolding publish_write
  publish_write-Rep {v} {f} {xs} r = record {
    reads = r.reads;
    ring = Holds-publish r.ring (next_write k elem size_ok r);
    caches =
        Caches-step r.caches r.reads (length (xs ++ (v ∷ []))) 0 (taken f) r.caches.read_old
          (omega (arith, length-snoc xs v, r.caches.read_near))
          (omega (arith, length-snoc xs v, r.caches.write_old)) r.caches.write_near;
  }

  pub discard-Rep :
      {ph : Phase A} {x : A} {xs : List A} {q : Queue A}
      → Rep k elem ph true (x ∷ xs) q
      → Rep k elem ph false xs (discard k elem q)
  unfolding discard
  discard-Rep {ph} {x} {xs} r = record {
    reads = r.reads + 1;
    ring = Holds-discard r.ring (next_read k elem size_ok r);
    caches =
        Caches-step r.caches (r.reads + 1) (length xs) (claimed ph) 0
          (omega (arith, r.caches.read_old)) (omega (arith, r.caches.read_near))
          (omega (arith, r.caches.write_old)) (omega (arith, r.caches.write_near));
  }

  pub laws : Laws (2 ^ k - 1) (protocol {A = A} k elem) (Rep k elem)
  laws = record {
    fits = λ r. omega (arith, r.ring.fits);
    reserve_room = has_room_room;
    reserve_full = has_room_full;
    write-Rep = write-Rep;
    publish_write-Rep = publish_write-Rep;
    acquire-Rep = has_value-Rep;
    read_lem = λ r. ap some (load_lem r);
    publish_read-Rep = discard-Rep;
  }
