-- ===== src/Spsc/Schedule.antt =====
-- The two-thread machine driven by a schedule, to run it on concrete inputs.
use lock_free_stuffs.Prelude.{◌≡◌, refl, Bool, List, [], ◌∷◌}
use lock_free_stuffs.Spsc.Protocol.{Protocol}
use lock_free_stuffs.Spsc.Machine.{
  Producer, Consumer, Machine, start, produce, consume, Reach, begin_push, begin_pop, producer_goes,
  consumer_goes, here, next,
}

pub data Move {ℓ} (A : Type ℓ) : Type ℓ where
  push : Bool → A → Move A
  pop : Bool → Move A
  producer : Move A
  consumer : Move A

module _ {ℓ} {A Q : Type ℓ} (p : Protocol A Q) where
  -- A call begins only on an idle thread.
  unfoldable pub push_from : Producer A → Bool → A → Machine A Q → Machine A Q
  push_from Producer.idle b v m = record m { producer = Producer.trying b v }
  push_from c b v m = m

  unfoldable pub pop_from : Consumer A → Bool → Machine A Q → Machine A Q
  pop_from Consumer.idle b m = record m { consumer = Consumer.trying b }
  pop_from c b m = m

  unfoldable pub move : Move A → Machine A Q → Machine A Q
  move (push b v) m = push_from m.producer b v m
  move (pop b) m = pop_from m.consumer b m
  move producer m = produce p m.producer m
  move consumer m = consume p m.consumer m

  -- The first move of the list is the last one made.
  unfoldable pub drive : List (Move A) → Q → Machine A Q
  unfolding push_from pop_from move
  drive [] q = start q
  drive (a ∷ before) q = move a (drive before q)

  push_from-Reach :
      (c : Producer A) (b : Bool) (v : A) {q : Q} {m : Machine A Q}
      → Reach p q m
      → m.producer ≡ c
      → Reach p q (push_from c b v m)
  unfolding push_from
  push_from-Reach Producer.idle b v r e = next r (begin_push b v e)
  push_from-Reach (Producer.trying b' w) b v r e = r
  push_from-Reach (Producer.writing w) b v r e = r
  push_from-Reach (Producer.publishing w) b v r e = r

  pop_from-Reach :
      (c : Consumer A) (b : Bool) {q : Q} {m : Machine A Q}
      → Reach p q m
      → m.consumer ≡ c
      → Reach p q (pop_from c b m)
  unfolding pop_from
  pop_from-Reach Consumer.idle b r e = next r (begin_pop b e)
  pop_from-Reach (Consumer.trying b') b r e = r
  pop_from-Reach Consumer.reading b r e = r
  pop_from-Reach (Consumer.retiring w) b r e = r
  pop_from-Reach Consumer.crashed b r e = r

  -- What a schedule leads to is reachable.
  pub drive-Reach : (moves : List (Move A)) (q : Q) → Reach p q (drive moves q)
  unfolding drive
  drive-Reach [] q = here
  drive-Reach (push b v ∷ before) q =
      let m = drive before q in push_from-Reach m.producer b v (drive-Reach before q) refl
  drive-Reach (pop b ∷ before) q =
      let m = drive before q in pop_from-Reach m.consumer b (drive-Reach before q) refl
  drive-Reach (producer ∷ before) q = next (drive-Reach before q) producer_goes
  drive-Reach (consumer ∷ before) q = next (drive-Reach before q) consumer_goes
