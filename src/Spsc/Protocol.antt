-- ===== src/Spsc/Protocol.antt =====
-- What the single-producer single-consumer queues have in common: each call is a test, an access
-- to one slot and the store that publishes it. The queues differ in how they do each.
use lock_free_stuffs.Prelude.{
  arith, null, ℕ, ◌+◌, ◌≤◌, ◌≡◌, not, Bool, true, false, Option, some, List, [], ◌∷◌, ◌++◌, length,
}

-- `reserve` and `acquire` answer whether there is room, and whether there is a value; both may
-- refresh a cached index. `read_slot` is `none` at a slot that holds no object.
pub record Protocol {ℓ} (A Q : Type ℓ) : Type ℓ where
  pub reserve : Q → Bool × Q
  pub write_slot : A → Q → Q
  pub publish_write : Q → Q
  pub acquire : Q → Bool × Q
  pub read_slot : Q → Option A
  pub publish_read : Q → Q

-- How far the producer is: between calls, past its test, or past the write of `v`.
pub data Phase {ℓ} (A : Type ℓ) : Type ℓ where
  quiet : Phase A
  ready : Phase A
  written : A → Phase A

-- the value that is in its slot and not yet published
abbrev pub staged {ℓ} : {A : Type ℓ} → Phase A → List A
staged (written v) = v ∷ []
staged ready = []
staged quiet = []

-- the slots that the producer has claimed
abbrev pub claimed {ℓ} : {A : Type ℓ} → Phase A → ℕ
claimed quiet = 0
claimed ready = 1
claimed (written v) = 1

-- the values that the consumer's test has found and that are still in their slot
abbrev pub taken : Bool → ℕ
taken true = 1
taken false = 0

-- What a queue has to prove. `Rep ph found xs q`: the published values are `xs`, the producer is in
-- the phase `ph`, and `found` says whether the consumer is past its test.
pub record Laws {ℓ} {A Q : Type ℓ} (cap : ℕ) (p : Protocol A Q)
    (Rep : Phase A → Bool → List A → Q → Type ℓ) : Type ℓ where
  pub fits :
      {ph : Phase A} {f : Bool} {xs : List A} {q : Q} → Rep ph f xs q → length xs + claimed ph ≤ cap
  pub reserve_room :
      {f : Bool} {xs : List A} {q : Q}
      → Rep quiet f xs q
      → (p.reserve q).0 ≡ true
      → Rep ready f xs (p.reserve q).1
  pub reserve_full :
      {f : Bool} {xs : List A} {q : Q}
      → Rep quiet f xs q
      → (p.reserve q).0 ≡ false
      → (length xs ≡ cap) × Rep quiet f xs (p.reserve q).1
  pub write-Rep :
      (v : A) {f : Bool} {xs : List A} {q : Q}
      → Rep ready f xs q
      → Rep (written v) f xs (p.write_slot v q)
  pub publish_write-Rep :
      {v : A} {f : Bool} {xs : List A} {q : Q}
      → Rep (written v) f xs q
      → Rep quiet f (xs ++ (v ∷ [])) (p.publish_write q)
  pub acquire-Rep :
      {ph : Phase A} {xs : List A} {q : Q}
      → Rep ph false xs q
      → ((p.acquire q).0 ≡ not (null xs)) × Rep ph (not (null xs)) xs (p.acquire q).1
  pub read_lem :
      {ph : Phase A} {x : A} {xs : List A} {q : Q} → Rep ph true (x ∷ xs) q → p.read_slot q ≡ some x
  pub publish_read-Rep :
      {ph : Phase A} {x : A} {xs : List A} {q : Q}
      → Rep ph true (x ∷ xs) q
      → Rep ph false xs (p.publish_read q)

pub taken-le {ℓ} : {A : Type ℓ} (xs : List A) → taken (not (null xs)) ≤ length xs
taken-le [] = omega arith
taken-le (x ∷ xs) = omega arith

pub staged-claimed {ℓ} : {A : Type ℓ} (ph : Phase A) → length (staged ph) ≤ claimed ph
staged-claimed quiet = omega arith
staged-claimed ready = omega arith
staged-claimed (written v) = omega arith
