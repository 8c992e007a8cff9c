-- ===== src/Spsc/Progress.antt =====
-- A call of the two-thread machine that is at its test passes it as soon as it can, for any queue
-- that meets the laws of the protocol.
use lock_free_stuffs.Prelude.{
  ℕ, ◌+◌, ◌<◌, ◌≡◌, refl, ap, subst, ◌∙◌, Bool, true, false, List, [], ◌++◌, length, length-append,
  null-length, Bool-cases, inl, inr, arith,
}
use lock_free_stuffs.Spsc.Protocol.{Protocol, Laws, Phase, quiet}
use lock_free_stuffs.Spsc.Machine.{Producer, Consumer, Machine, produce, consume, Reach}
use lock_free_stuffs.Spsc.Order.{phase, found, Inv, Reach-Inv}

module _ {ℓ} {A Q : Type ℓ} {cap : ℕ} {p : Protocol A Q}
    {Rep : Phase A → Bool → List A → Q → Type ℓ} (laws : Laws cap p Rep) where
  counts :
      (m : Machine A Q) (xs : List A)
      → m.pushed ≡ m.popped ++ xs
      → length m.pushed ≡ length m.popped + length xs
  counts m xs e = ap length e ∙ length-append m.popped xs

  -- A call in progress passes its test at the next step if there is room, or a value.
  pub push_progress :
      {q : Q} {m : Machine A Q} {b : Bool} {v : A}
      → Rep quiet false [] q
      → Reach p q m
      → m.producer ≡ Producer.trying b v
      → length m.pushed < length m.popped + cap
      → (produce p m.producer m).producer ≡ Producer.writing v
  unfolding produce
  push_progress {q} {m} {b} {v} rep r at room = rw at (elim (Bool-cases (p.reserve m.queue).0) [
    | inl pass ↦ rw pass
    | inr fail ↦
        absurd (omega (arith, (laws.reserve_full unwritten fail).0, counts m i.queued i.in_order))
  ])
    where
      i : Inv laws m
      i = Reach-Inv laws rep r

      unwritten : Rep quiet (found m.consumer) i.queued m.queue
      unwritten = subst (λ c. Rep (phase c) (found m.consumer) i.queued m.queue) at i.rep

  pub pop_progress :
      {q : Q} {m : Machine A Q} {b : Bool}
      → Rep quiet false [] q
      → Reach p q m
      → m.consumer ≡ Consumer.trying b
      → length m.popped < length m.pushed
      → (consume p m.consumer m).consumer ≡ Consumer.reading
  unfolding consume
  pop_progress {q} {m} {b} rep r at some_left = let i = Reach-Inv laws rep r in rw (at, pass i) refl
    where
      pass : Inv laws m → (p.acquire m.queue).0 ≡ true
      pass i =
          let waiting : Rep (phase m.producer) false i.queued m.queue =
            subst (λ c. Rep (phase m.producer) (found c) i.queued m.queue) at i.rep in
          ground (
            arith,
            (laws.acquire-Rep waiting).0,
            null-length i.queued,
            counts m i.queued i.in_order,
          )
