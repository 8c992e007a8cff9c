-- ===== src/Spsc/Owned/Rep.antt =====
-- The values that a ring of LockFreeQueue2<T, SIZE, false> (include/spsc_final.h) stands for: they
-- live in their slots, and every other element of the array is raw.
use lock_free_stuffs.Prelude.{
  ℕ, zero, suc, ◌+◌, ◌-◌, ◌^◌, ◌<◌, ◌≤◌, ◌≡◌, ◌≢◌, refl, sym, ap, ◌∙◌, subst, Bool, true, false,
  not, Option, none, some, List, [], ◌∷◌, ◌++◌, length, length-snoc, null, ◌==◌, if_split,
  Bool-cases, inl, inr, arith, add_size, word,
}
use lock_free_stuffs.Spsc.Cells.{write}
use lock_free_stuffs.Spsc.Layout.{slot_index}
use lock_free_stuffs.Spsc.Protocol.{Laws, Phase, quiet, ready, written, staged}
use lock_free_stuffs.Spsc.Ring.{Holds-discard, Holds-freed}
use lock_free_stuffs.Spsc.Counted.{
  Queue, looks_full, looks_empty, has_room, has_value, publish_write, discard, load_read_index,
  load_write_index, load_value, store_value,
}
use lock_free_stuffs.Spsc.Counted
use lock_free_stuffs.Spsc.Counted.Rep.{Stands, agree, next_read, new-Rep}
use lock_free_stuffs.Spsc.Counted.Laws.{
  has_room_room, has_room_full, has_value-Rep, load_lem, write-Rep, publish_write-Rep,
  discard_onto-Rep,
}
use lock_free_stuffs.Spsc.Owned.{new, construct_slot, destroy_slot, release, read_value, protocol}

module _ {ℓ} {A : Type ℓ} (k elem : ℕ) where
  -- Every element but the `n` slots from the index `start` on is raw.
  abbrev pub RawOutside : ℕ → ℕ → (ℕ → Option A) → Type ℓ
  RawOutside start n buffer =
      (p : ℕ) → ((i : ℕ) → i < n → slot_index k elem (add_size start i) ≢ p) → buffer p ≡ none

  pub record Rep (ph : Phase A) (found : Bool) (xs : List A) (q : Queue (Option A)) : Type ℓ where
    pub stands : Stands some k elem ph found xs q
    pub raw : RawOutside q.read_index (length xs + length (staged ph)) q.buffer

  -- A store into the slot behind the others.
  pub RawOutside-construct :
      (start n w : ℕ) (v : A) (buffer : ℕ → Option A)
      → w ≡ add_size start n
      → RawOutside start n buffer
      → RawOutside start (n + 1) (write buffer (slot_index k elem w) (some v))
  RawOutside-construct start n w v buffer at raw p out =
      ground (arith, ap (slot_index k elem) at, out n, raw p (λ i lt. out i (omega arith)))

  -- The first slot becomes raw.
  pub RawOutside-destroy :
      (start n : ℕ) (buffer : ℕ → Option A)
      → start < word
      → RawOutside start (suc n) buffer
      → RawOutside (add_size start 1) n (write buffer (slot_index k elem start) none)
  RawOutside-destroy start n buffer small raw p out =
      elim (Bool-cases (p == slot_index k elem start)) [
        | inl here ↦ rw here refl
        | inr other ↦ rw other (raw p (λ i. outside other i))
      ]
    where
      at_start : add_size start 0 ≡ start
      at_start = omega arith

      outside :
          (p == slot_index k elem start) ≡ false
          → (i : ℕ) → i < suc n
          → slot_index k elem (add_size start i) ≢ p
      outside other zero lt = λ e. ground (arith, sym e ∙ ap (slot_index k elem) at_start)
      outside other (suc i) lt = λ e. out i (omega arith) (ap (slot_index k elem) (omega arith) ∙ e)

  -- The tests move neither the read index nor a value.
  has_room_keeps :
      (q : Queue (Option A))
      → ((has_room k elem q).1.read_index ≡ q.read_index)
        × ((has_room k elem q).1.buffer ≡ q.buffer)
  unfolding has_room load_read_index
  has_room_keeps q =
      if_split
        (λ (t : Bool × Queue (Option A)). (t.1.read_index ≡ q.read_index) × (t.1.buffer ≡ q.buffer))
        (looks_full k elem q) (λ e. (refl, refl)) (λ e. (refl, refl))

  has_value_keeps :
      (q : Queue (Option A))
      → ((has_value k elem q).1.read_index ≡ q.read_index)
        × ((has_value k elem q).1.buffer ≡ q.buffer)
  unfolding has_value load_write_index
  has_value_keeps q =
      if_split
        (λ (t : Bool × Queue (Option A)). (t.1.read_index ≡ q.read_index) × (t.1.buffer ≡ q.buffer))
        (looks_empty k elem q) (λ e. (refl, refl)) (λ e. (refl, refl))

  pub kept :
      {i j n : ℕ} {b c : ℕ → Option A} → (i ≡ j) × (b ≡ c) → RawOutside j n c → RawOutside i n b
  kept {i} {n = n} {c = c} (ei, eb) raw =
      subst (λ b. RawOutside i n b) (sym eb) (subst (λ j. RawOutside j n c) (sym ei) raw)

module _ {ℓ} {A : Type ℓ} (k elem : ℕ) (size_ok : k ≤ 63) where
  pub new-Owned : Rep {A = A} k elem quiet false [] new
  unfolding new Counted.new
  new-Owned = record { stands = new-Rep k elem size_ok (λ i. none); raw = λ p out. refl }

  reserve_room :
      {f : Bool} {xs : List A} {q : Queue (Option A)}
      → Rep k elem quiet f xs q
      → (has_room k elem q).0 ≡ true
      → Rep k elem ready f xs (has_room k elem q).1
  reserve_room {q = q} r pass = record {
    stands = has_room_room k elem size_ok r.stands pass;
    raw = kept k elem (has_room_keeps k elem q) r.raw;
  }

  reserve_full :
      {f : Bool} {xs : List A} {q : Queue (Option A)}
      → Rep k elem quiet f xs q
      → (has_room k elem q).0 ≡ false
      → (length xs ≡ 2 ^ k - 1) × Rep k elem quiet f xs (has_room k elem q).1
  reserve_full {q = q} r fail =
      let (full, s) = has_room_full k elem size_ok r.stands fail in
      (full, record { stands = s; raw = kept k elem (has_room_keeps k elem q) r.raw })

  -- the write index is as many values behind the read index
  pub write_at :
      {ph : Phase A} {f : Bool} {xs : List A} {q : Queue (Option A)}
      → Stands some k elem ph f xs q
      → q.write_index ≡ add_size q.read_index (length xs)
  write_at s = omega (arith, s.ring.write_at, s.ring.read_at)

  construct-Rep :
      (v : A) {f : Bool} {xs : List A} {q : Queue (Option A)}
      → Rep k elem ready f xs q
      → Rep k elem (written v) f xs (construct_slot k elem v q)
  unfolding construct_slot store_value
  construct-Rep v {f} {xs} {q} r = record {
    stands = write-Rep k elem size_ok v r.stands;
    raw =
        RawOutside-construct k elem q.read_index (length xs) q.write_index v q.buffer
          (write_at r.stands)
          (subst (λ n. RawOutside k elem q.read_index n q.buffer) (omega arith) r.raw);
  }

  publish-Rep :
      {v : A} {f : Bool} {xs : List A} {q : Queue (Option A)}
      → Rep k elem (written v) f xs q
      → Rep k elem quiet f (xs ++ (v ∷ [])) (publish_write k elem q)
  unfolding publish_write
  publish-Rep {v} {f} {xs} {q} r = record {
    stands = publish_write-Rep k elem size_ok r.stands;
    raw =
        subst (λ n. RawOutside k elem q.read_index n q.buffer) (omega (arith, length-snoc xs v))
          r.raw;
  }

  acquire-Rep :
      {ph : Phase A} {xs : List A} {q : Queue (Option A)}
      → Rep k elem ph false xs q
      → ((has_value k elem q).0 ≡ not (null xs))
        × Rep k elem ph (not (null xs)) xs (has_value k elem q).1
  acquire-Rep {q = q} r =
      let (pass, s) = has_value-Rep k elem size_ok r.stands in
      (pass, record { stands = s; raw = kept k elem (has_value_keeps k elem q) r.raw })

  pub read_lem :
      {ph : Phase A} {f : Bool} {x : A} {xs : List A} {q : Queue (Option A)}
      → Rep k elem ph f (x ∷ xs) q
      → read_value k elem q ≡ some x
  unfolding read_value load_value
  read_lem r = load_lem k elem size_ok r.stands

  release-Rep :
      {ph : Phase A} {x : A} {xs : List A} {q : Queue (Option A)}
      → Rep k elem ph true (x ∷ xs) q
      → Rep k elem ph false xs (release k elem q)
  unfolding release discard destroy_slot
  release-Rep {ph} {x} {xs} {q} r = record {
    stands =
        discard_onto-Rep k elem size_ok r.stands
          (write q.buffer (slot_index k elem q.read_index) none)
          (Holds-freed r.stands.reads none
            (ap (slot_index k elem) r.stands.ring.read_at ∙ agree k elem r.stands.reads size_ok)
            (Holds-discard r.stands.ring (next_read k elem size_ok r.stands)));
    raw =
        RawOutside-destroy k elem q.read_index (length xs + length (staged ph)) q.buffer
          (omega (arith, r.stands.ring.read_at))
          (subst (λ n. RawOutside k elem q.read_index n q.buffer) (omega arith) r.raw);
  }

  pub laws : Laws (2 ^ k - 1) (protocol {A = A} k elem) (Rep k elem)
  laws = record {
    fits = λ r. omega (arith, r.stands.ring.fits);
    reserve_room = reserve_room;
    reserve_full = reserve_full;
    write-Rep = construct-Rep;
    publish_write-Rep = publish-Rep;
    acquire-Rep = acquire-Rep;
    read_lem = read_lem;
    publish_read-Rep = release-Rep;
  }
