-- ===== src/Spsc/Owned/Lifetime.antt =====
-- include/spsc_final.h, LockFreeQueue2<T, SIZE, false>: values are constructed in raw storage only,
-- and the destructor ends exactly those that are left.
use lock_free_stuffs.Prelude.{
  ℕ, zero, suc, ◌+◌, ◌%◌, ◌^◌, ◌<◌, ◌≤◌, ◌≡◌, sym, ap, ◌∙◌, subst, Bool, false, Option, none, some,
  List, [], ◌∷◌, length, append-nil, ◌==◌, arith, mod_apart, word, pow-le-word,
}
use mathlib.Core.Option
use lock_free_stuffs.Spsc.Cells.{Cells, Cells-write_other}
use lock_free_stuffs.Spsc.Layout.{slot, slot_index, slot-Apart}
use lock_free_stuffs.Spsc.Protocol.{quiet, ready}
use lock_free_stuffs.Spsc.Machine.{Machine, Producer, Consumer, Reach}
use lock_free_stuffs.Spsc.Order.{Reach-Inv, phase, found}
use lock_free_stuffs.Spsc.Counted.{Queue}
use lock_free_stuffs.Spsc.Counted.Rep.{agree}
use lock_free_stuffs.Spsc.Owned.{new, destroy_slot, destroy_range, destructor, protocol}
use lock_free_stuffs.Spsc.Owned.Rep.{Rep, RawOutside, RawOutside-destroy, new-Owned, laws}

module _ (k elem : ℕ) (size_ok : k ≤ 63) where
  -- The slot of an index that has wrapped.
  at_slot : {r : ℕ} (i : ℕ) → r ≡ i % word → slot_index k elem r ≡ slot k elem i
  at_slot i e = ap (slot_index k elem) e ∙ agree k elem i size_ok

  -- The loop meets the end only where no value is left.
  goes_on :
      (n : ℕ) {r w : ℕ} (reads : ℕ)
      → suc n < 2 ^ k
      → r ≡ reads % word
      → w ≡ (reads + suc n) % word
      → (r == w) ≡ false
  goes_on n reads fits er ew = ground (
    arith,
    mod_apart word reads (reads + suc n) (omega arith) (omega (arith, pow-le-word k (omega arith))),
  )

module _ {ℓ} {A : Type ℓ} (k elem : ℕ) (size_ok : k ≤ 63) where
  -- A round for each value left, each of which it finds alive.
  destroy_range_lem :
      (fuel : ℕ) (xs : List A) (reads : ℕ) {r w : ℕ} {buffer : ℕ → Option A}
      → length xs ≤ fuel
      → length xs < 2 ^ k
      → r ≡ reads % word
      → w ≡ (reads + length xs) % word
      → Cells some (slot k elem) buffer reads xs
      → RawOutside k elem r (length xs) buffer
      → (b : ℕ → Option A) × (destroy_range k elem fuel r w buffer ≡ some b)
        × ((p : ℕ) → b p ≡ none)
  unfolding destroy_range destroy_slot Option.bind
  destroy_range_lem zero [] reads {buffer = buffer} enough fits er ew cells raw =
      (buffer, ground arith, λ p. raw p (λ i lt. absurd (omega arith)))
  destroy_range_lem (suc fuel) [] reads {buffer = buffer} enough fits er ew cells raw =
      (buffer, ground arith, λ p. raw p (λ i lt. absurd (omega arith)))
  destroy_range_lem zero (x ∷ xs) reads enough fits er ew cells raw = absurd (omega arith)
  destroy_range_lem (suc fuel) (x ∷ xs) reads {r} {w} {buffer} enough fits er ew (first, cells)
        raw =
      let (b, done, clean) =
        destroy_range_lem fuel xs (reads + 1) (omega arith) (omega arith) (omega arith)
          (ew ∙ ap (λ t. t % word) (omega arith))
          (Cells-write_other some (slot k elem) buffer (slot_index k elem r) none (reads + 1) xs
            (λ i a b e.
              slot-Apart k elem reads i (omega (arith, a)) (omega (arith, b, fits))
                (sym (e ∙ at_slot k elem size_ok reads er)))
            cells)
          (RawOutside-destroy k elem r (length xs) buffer (omega arith) raw) in
      (
        b,
        rw
            (
              goes_on k elem size_ok (length xs) reads fits er ew,
              ap buffer (at_slot k elem size_ok reads er) ∙ first,
            )
            done,
        clean,
      )

  -- On a ring between calls that stands for `xs`.
  destructor_lem :
      (fuel : ℕ) {xs : List A} {q : Queue (Option A)}
      → Rep k elem quiet false xs q
      → length xs ≤ fuel
      → (b : ℕ → Option A) × (destructor k elem fuel q ≡ some b) × ((p : ℕ) → b p ≡ none)
  unfolding destructor
  destructor_lem fuel {xs} {q} r enough =
      destroy_range_lem fuel xs r.stands.reads enough (omega (arith, r.stands.ring.fits))
        (r.stands.read_published ∙ r.stands.ring.read_at)
        (r.stands.write_published ∙ r.stands.ring.write_at)
        (subst (λ l. Cells some (slot k elem) q.buffer r.stands.reads l) (append-nil xs)
          r.stands.ring.cells)
        (subst (λ i. RawOutside k elem i (length xs) q.buffer) (sym r.stands.read_published)
          (subst (λ n. RawOutside k elem q.read_index n q.buffer) (omega arith) r.raw))

  -- The slot that a producer past its test has claimed is raw.
  claimed_raw :
      {f : Bool} {xs : List A} {q : Queue (Option A)}
      → Rep k elem ready f xs q
      → q.buffer (slot_index k elem q.write_index) ≡ none
  claimed_raw {xs = xs} {q} r = r.raw (slot_index k elem q.write_index) (λ i lt e.
      slot-Apart k elem (r.stands.reads + i) (r.stands.reads + length xs) (omega arith)
        (omega (arith, r.stands.ring.fits))
        (sym (at_slot k elem size_ok (r.stands.reads + i) (omega (arith, r.stands.ring.read_at)))
          ∙ e
          ∙ at_slot k elem size_ok (r.stands.reads + length xs) r.stands.ring.write_at))

-- For SIZE = 2^k with k ≤ 63, in every state that one producer and one consumer reach from a new
-- LockFreeQueue2<T, SIZE, false> by interleaved steps: a producer that is about to construct a value
-- finds its slot raw.
pub owned_constructs_raw {ℓ} :
    {A : Type ℓ} (k elem : ℕ) {m : Machine A (Queue (Option A))} {v : A}
    → k ≤ 63
    → Reach (protocol k elem) new m
    → m.producer ≡ Producer.writing v
    → m.queue.buffer (slot_index k elem m.queue.write_index) ≡ none
owned_constructs_raw k elem {m} h r at =
    let i = Reach-Inv (laws k elem h) (new-Owned k elem h) r in
    claimed_raw k elem h
      (subst (λ c. Rep k elem (phase c) (found m.consumer) i.queued m.queue) at i.rep)

-- For SIZE = 2^k with k ≤ 63, in every state that one producer and one consumer reach from a new
-- LockFreeQueue2<T, SIZE, false> by interleaved steps and in which both are between calls: the
-- destructor with SIZE or more rounds of fuel ends, destroys live values only and leaves every slot
-- raw.
pub owned_destructor {ℓ} :
    {A : Type ℓ} (k elem fuel : ℕ) {m : Machine A (Queue (Option A))}
    → k ≤ 63
    → 2 ^ k ≤ fuel
    → Reach (protocol k elem) new m
    → m.producer ≡ Producer.idle
    → m.consumer ≡ Consumer.idle
    → (b : ℕ → Option A) × (destructor k elem fuel m.queue ≡ some b) × ((p : ℕ) → b p ≡ none)
owned_destructor {A = A} k elem fuel {m} h enough r at at' =
    let i = Reach-Inv (laws k elem h) (new-Owned k elem h) r in
    destructor_lem k elem h fuel
      (subst (λ c. Rep k elem (phase c) false i.queued m.queue) at
        (subst (λ c. Rep k elem (phase m.producer) (found c) i.queued m.queue) at' i.rep))
      (omega (arith, enough, (laws {A = A} k elem h).fits i.rep))
