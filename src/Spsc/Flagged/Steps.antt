-- ===== src/Spsc/Flagged/Steps.antt =====
-- The steps of include/spsc_test.h meet the laws of the protocol.
use lock_free_stuffs.Prelude.{
  ℕ, ◌+◌, ◌%◌, ◌^◌, ◌<◌, ◌≤◌, ◌≡◌, refl, sym, ap, ◌∙◌, subst, Bool, true, false, not, Option, none,
  some, List, [], ◌∷◌, ◌++◌, length, length-append, length-snoc, append-nil, null, if_split,
  Bool-cases, inl, inr, arith, word, ltb,
}
use native.Mathlib.Decide.{dec_lt}
use lock_free_stuffs.Spsc.Cells.{write, Cells, Cells-write_next, Cells-write_other}
use lock_free_stuffs.Spsc.Layout.{slot, slot_index, slot-Apart}
use lock_free_stuffs.Spsc.Protocol.{Laws, Phase, quiet, ready, written, staged, staged-claimed}
use lock_free_stuffs.Spsc.Flagged.{
  Queue, vacant, stored, is_empty, is_stored, state_index, has_room, has_value, construct_slot,
  destroy_slot, mark_stored, read_value, release, protocol,
}
use lock_free_stuffs.Spsc.Flagged.Rep.{
  Rep, at_slot, turn, other_state, this_state, room_at, full_at, value_at, none_at,
}

module _ {ℓ} {A : Type ℓ} (direct : Bool) (k elem : ℕ) (size_ok : k ≤ 63) where
  pub has_room_lem :
      {f : Bool} {xs : List A} {q : Queue A}
      → Rep direct k elem quiet f xs q
      → (has_room direct k elem q).0 ≡ ltb (length xs) (2 ^ k)
  unfolding has_room is_empty
  has_room_lem {xs = xs} r = elim (Bool-cases (ltb (length xs) (2 ^ k))) [
    | inl room ↦ ap is_empty (room_at direct k elem size_ok r (ground arith)) ∙ sym room
    | inr full ↦ ap is_empty (full_at direct k elem size_ok r (ground (arith, r.fits))) ∙ sym full
  ]

  reserve_room :
      {f : Bool} {xs : List A} {q : Queue A}
      → Rep direct k elem quiet f xs q
      → (has_room direct k elem q).0 ≡ true
      → Rep direct k elem ready f xs (has_room direct k elem q).1
  unfolding has_room
  reserve_room r pass = record {
    reads = r.reads;
    read_at = r.read_at;
    write_at = r.write_at;
    fits = ground (arith, has_room_lem r, pass);
    cells = r.cells;
    marked = r.marked;
    free = r.free;
  }

  reserve_full :
      {f : Bool} {xs : List A} {q : Queue A}
      → Rep direct k elem quiet f xs q
      → (has_room direct k elem q).0 ≡ false
      → (length xs ≡ 2 ^ k) × Rep direct k elem quiet f xs (has_room direct k elem q).1
  unfolding has_room
  reserve_full r fail = (ground (arith, has_room_lem r, r.fits), r)

  construct-Rep :
      (v : A) {f : Bool} {xs : List A} {q : Queue A}
      → Rep direct k elem ready f xs q
      → Rep direct k elem (written v) f xs (construct_slot direct k elem v q)
  unfolding construct_slot
  construct-Rep v {f} {xs} {q} r = record {
    reads = r.reads;
    read_at = r.read_at;
    write_at = r.write_at;
    fits = r.fits;
    cells =
        subst (λ p. Cells some (slot k elem) (write q.buffer p (some v)) r.reads (xs ++ (v ∷ [])))
          (sym (at_slot k size_ok elem (r.reads + length xs) r.write_at))
          (Cells-write_next some (slot k elem) (slot-Apart k elem) q.buffer v _ r.reads xs refl
            (omega (arith, r.fits))
            (subst (λ l. Cells some (slot k elem) q.buffer r.reads l) (append-nil xs) r.cells));
    marked = r.marked;
    free = r.free;
  }

  mark-Rep :
      {v : A} {f : Bool} {xs : List A} {q : Queue A}
      → Rep direct k elem (written v) f xs q
      → Rep direct k elem quiet f (xs ++ (v ∷ [])) (mark_stored direct k elem q)
  unfolding mark_stored
  mark-Rep {v} {f} {xs} {q} r = record {
    reads = r.reads;
    read_at = r.read_at;
    write_at = omega (arith, length-snoc xs v, r.write_at);
    fits = omega (arith, length-snoc xs v, r.fits);
    cells =
        subst (λ l. Cells some (slot k elem) q.buffer r.reads l) (sym (append-nil (xs ++ (v ∷ []))))
          r.cells;
    marked = λ i a b. elim (dec_lt i (r.reads + length xs)) [
      | yes before ↦
          other_state k size_ok q.states stored (r.reads + length xs) i r.write_at
            (slot-Apart k 1 i (r.reads + length xs) before (omega (arith, r.fits)))
          ∙ r.marked i a before
      | no here ↦
          ap (λ j. write q.states (state_index k q.write_index) stored (slot k 1 j))
            (omega (arith, length-snoc xs v))
          ∙ this_state k size_ok q.states stored (r.reads + length xs) r.write_at
    ];
    free = λ i a b.
        other_state k size_ok q.states stored (r.reads + length xs) i r.write_at (λ e.
          slot-Apart k 1 (r.reads + length xs) i (omega (arith, length-snoc xs v)) (omega arith)
            (sym e))
        ∙ r.free i (omega (arith, length-snoc xs v)) b;
  }

  -- The consumer's position is no part of what the ring stands for.
  found_any :
      {ph : Phase A} {f g : Bool} {xs : List A} {q : Queue A}
      → Rep direct k elem ph f xs q
      → Rep direct k elem ph g xs q
  found_any r = record {
    reads = r.reads;
    read_at = r.read_at;
    write_at = r.write_at;
    fits = r.fits;
    cells = r.cells;
    marked = r.marked;
    free = r.free;
  }

  acquire-Rep :
      {ph : Phase A} {xs : List A} {q : Queue A}
      → Rep direct k elem ph false xs q
      → ((has_value direct k elem q).0 ≡ not (null xs))
        × Rep direct k elem ph (not (null xs)) xs (has_value direct k elem q).1
  unfolding has_value is_stored
  acquire-Rep {xs = []} r = (ap is_stored (none_at direct k elem size_ok r), found_any r)
  acquire-Rep {xs = x ∷ xs} r = (ap is_stored (value_at direct k elem size_ok r), found_any r)

  pub read_lem :
      {ph : Phase A} {f : Bool} {x : A} {xs : List A} {q : Queue A}
      → Rep direct k elem ph f (x ∷ xs) q
      → read_value direct k elem q ≡ some x
  unfolding read_value
  read_lem {q = q} r = ap q.buffer (at_slot k size_ok elem r.reads r.read_at) ∙ r.cells.0

  -- The other values stay, whether destruction touches the slot or not.
  destroy-Cells :
      (buffer : ℕ → Option A) (ys : List A) (reads : ℕ) {r : ℕ}
      → r ≡ reads % word
      → length ys < 2 ^ k
      → Cells some (slot k elem) buffer (reads + 1) ys
      → Cells some
          (slot k elem)
          (destroy_slot direct k elem (slot_index k elem r) buffer)
          (reads + 1)
          ys
  unfolding destroy_slot
  destroy-Cells buffer ys reads {r} at fits cells =
      if_split (λ b. Cells some (slot k elem) b (reads + 1) ys) direct (λ e. cells)
        (λ e.
          Cells-write_other some (slot k elem) buffer (slot_index k elem r) none (reads + 1) ys
            (λ i a b h.
              slot-Apart k elem reads i (omega (arith, a)) (omega (arith, b, fits))
                (sym (h ∙ at_slot k size_ok elem reads at)))
            cells)

  release-Rep :
      {ph : Phase A} {x : A} {xs : List A} {q : Queue A}
      → Rep direct k elem ph true (x ∷ xs) q
      → Rep direct k elem ph false xs (release direct k elem q)
  unfolding release
  release-Rep {ph} {x} {xs} {q} r = record {
    reads = r.reads + 1;
    read_at = omega (arith, r.read_at);
    write_at = omega (arith, r.write_at);
    fits = omega (arith, r.fits);
    cells =
        destroy-Cells q.buffer (xs ++ staged ph) r.reads r.read_at
          (omega (arith, r.fits, length-append xs (staged ph), staged-claimed ph)) r.cells.1;
    marked = λ i a b.
        other_state k size_ok q.states vacant r.reads i r.read_at
          (λ e. slot-Apart k 1 r.reads i (omega arith) (omega (arith, r.fits)) (sym e))
        ∙ r.marked i (omega arith) (omega arith);
    free = λ i a b. elim (dec_lt i (r.reads + 2 ^ k)) [
      | yes before ↦
          other_state k size_ok q.states vacant r.reads i r.read_at
            (λ e. slot-Apart k 1 r.reads i (omega arith) before (sym e))
          ∙ r.free i (omega arith) before
      | no here ↦
          ap (write q.states (state_index k q.read_index) vacant)
            (ap (slot k 1) (omega arith) ∙ turn k size_ok 1 r.reads)
          ∙ this_state k size_ok q.states vacant r.reads r.read_at
    ];
  }

  pub laws : Laws (2 ^ k) (protocol {A = A} direct k elem) (Rep direct k elem)
  laws = record {
    fits = λ r. r.fits;
    reserve_room = reserve_room;
    reserve_full = reserve_full;
    write-Rep = construct-Rep;
    publish_write-Rep = mark-Rep;
    acquire-Rep = acquire-Rep;
    read_lem = read_lem;
    publish_read-Rep = release-Rep;
  }
