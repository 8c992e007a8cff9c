-- ===== src/Spsc/Calls.antt =====
-- A call that runs with nobody in between, and its refinement of the specification.
use lock_free_stuffs.Prelude.{
  ℕ, ◌<◌, ◌≤◌, ◌≡◌, refl, Bool, true, false, Option, none, some, List, [], ◌∷◌, ◌++◌, length,
  if◌then◌else◌, Bool-cases, inl, inr, arith, ltb,
}
use lock_free_stuffs.Fifo
use lock_free_stuffs.Fifo.{Calls, Simulates}
use lock_free_stuffs.Spsc.Protocol.{Protocol, Phase, quiet, Laws}

module _ {ℓ} {A Q : Type ℓ} (p : Protocol A Q) where
  unfoldable pub try_push : A → Q → Bool × Q
  try_push v q =
      let (room, q') = p.reserve q in
      if room then (true, p.publish_write (p.write_slot v q')) else (false, q')

  unfoldable pub try_pop : Q → Option A × Q
  try_pop q =
      let (ready, q') = p.acquire q in
      if ready then (p.read_slot q', p.publish_read q') else (none, q')

  abbrev pub calls : Calls A Q
  calls = record { try_push = try_push; try_pop = try_pop }

module _ {ℓ} {A Q : Type ℓ} {cap : ℕ} {p : Protocol A Q}
    {Rep : Phase A → Bool → List A → Q → Type ℓ} (laws : Laws cap p Rep) where
  pub try_push_room :
      (v : A) (xs : List A) (q : Q)
      → Rep quiet false xs q
      → length xs < cap
      → ((try_push p v q).0 ≡ true) × Rep quiet false (xs ++ (v ∷ [])) (try_push p v q).1
  unfolding try_push
  try_push_room v xs q rep room = elim (Bool-cases (p.reserve q).0) [
    | inl pass ↦
        rw pass (refl, laws.publish_write-Rep (laws.write-Rep v (laws.reserve_room rep pass)))
    | inr fail ↦ absurd (omega (arith, (laws.reserve_full rep fail).0))
  ]

  pub try_push_full :
      (v : A) (xs : List A) (q : Q)
      → Rep quiet false xs q
      → cap ≤ length xs
      → ((try_push p v q).0 ≡ false) × Rep quiet false xs (try_push p v q).1
  unfolding try_push
  try_push_full v xs q rep full = elim (Bool-cases (p.reserve q).0) [
    | inl pass ↦ absurd (omega (arith, laws.fits (laws.reserve_room rep pass)))
    | inr fail ↦ rw fail (refl, (laws.reserve_full rep fail).1)
  ]

  pub try_pop_cons :
      (x : A) (xs : List A) (q : Q)
      → Rep quiet false (x ∷ xs) q
      → ((try_pop p q).0 ≡ some x) × Rep quiet false xs (try_pop p q).1
  unfolding try_pop
  try_pop_cons x xs q rep =
      let (pass, rep') = laws.acquire-Rep rep in
      rw pass (laws.read_lem rep', laws.publish_read-Rep rep')

  pub try_pop_nil :
      (q : Q) → Rep quiet false [] q → ((try_pop p q).0 ≡ none) × Rep quiet false [] (try_pop p q).1
  unfolding try_pop
  try_pop_nil q rep = let (fail, rep') = laws.acquire-Rep rep in rw fail (refl, rep')

  -- Each call replies as the specification does and leaves the queue standing for its result.
  pub try_push_refines :
      (v : A) (xs : List A) (q : Q)
      → Rep quiet false xs q
      → ((try_push p v q).0 ≡ (Fifo.push cap v xs).0)
        × Rep quiet false (Fifo.push cap v xs).1 (try_push p v q).1
  unfolding Fifo.push
  try_push_refines v xs q rep = elim (Bool-cases (ltb (length xs) cap)) [
    | inl room ↦ rw room (try_push_room v xs q rep (ground arith))
    | inr full ↦ rw full (try_push_full v xs q rep (ground arith))
  ]

  pub try_pop_refines :
      (xs : List A) (q : Q)
      → Rep quiet false xs q
      → ((try_pop p q).0 ≡ (Fifo.pop xs).0) × Rep quiet false (Fifo.pop xs).1 (try_pop p q).1
  unfolding Fifo.pop
  try_pop_refines [] q rep = try_pop_nil q rep
  try_pop_refines (x ∷ xs) q rep = try_pop_cons x xs q rep

  pub calls-Simulates : Simulates cap (λ xs q. Rep quiet false xs q) (calls p)
  calls-Simulates = record {
    push_reply = λ v xs q rep. (try_push_refines v xs q rep).0;
    push_rep = λ v xs q rep. (try_push_refines v xs q rep).1;
    pop_reply = λ xs q rep. (try_pop_refines xs q rep).0;
    pop_rep = λ xs q rep. (try_pop_refines xs q rep).1;
  }
