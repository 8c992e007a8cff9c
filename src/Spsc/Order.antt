-- ===== src/Spsc/Order.antt =====
-- The invariant of the two-thread machine, for any queue that meets the laws of the protocol: in
-- every interleaving what was popped, then what is queued, is what was pushed, in order.
use lock_free_stuffs.Prelude.{
  ℕ, ◌≤◌, ◌≡◌, ◌≢◌, refl, sym, ap, subst, if◌then◌else◌, ◌∙◌, Bool, true, false, List, [], ◌∷◌,
  ◌++◌, length, append_assoc, null, not, Bool-cases, inl, inr, arith,
}
use mathlib.Core.Logic.{Lift}
use lock_free_stuffs.Spsc.Protocol.{Protocol, Laws, Phase, quiet, ready, written}
use lock_free_stuffs.Spsc.Machine.{
  Producer, Consumer, Machine, produce, consume, Step, Reach, begin_push, begin_pop, producer_goes,
  consumer_goes, here, next,
}

-- the phase of the queue that the position of the producer stands for
abbrev pub phase {ℓ} : {A : Type ℓ} → Producer A → Phase A
phase Producer.idle = quiet
phase (Producer.trying b v) = quiet
phase (Producer.writing v) = ready
phase (Producer.publishing v) = written v

-- whether the consumer is past its test
abbrev pub found {ℓ} : {A : Type ℓ} → Consumer A → Bool
found Consumer.reading = true
found (Consumer.retiring v) = true
found _ = false

-- What the position of the consumer says of the queued values.
abbrev pub ConsumerAt {ℓ} : {A : Type ℓ} → Consumer A → List A → Type ℓ
ConsumerAt Consumer.idle xs = Unit
ConsumerAt (Consumer.trying b) xs = Unit
ConsumerAt {A} Consumer.reading xs = (x : A) × (rest : List A) × (xs ≡ x ∷ rest)
ConsumerAt {A} (Consumer.retiring v) xs = (rest : List A) × (xs ≡ v ∷ rest)
ConsumerAt Consumer.crashed xs = Lift ⊥

-- What a client can rely on in a state of the machine.
abbrev pub InOrder {ℓ} : {A Q : Type ℓ} → ℕ → Machine A Q → Type ℓ
InOrder {A} cap m =
    (queued : List A) × (m.pushed ≡ m.popped ++ queued)
    × (length queued ≤ cap)
    × (m.consumer ≢ Consumer.crashed)

not_crashed {ℓ} :
    {A : Type ℓ} (c : Consumer A) (xs : List A) → ConsumerAt c xs → c ≢ Consumer.crashed
not_crashed Consumer.idle xs h = λ e. cc
not_crashed (Consumer.trying b) xs h = λ e. cc
not_crashed Consumer.reading xs h = λ e. cc
not_crashed (Consumer.retiring v) xs h = λ e. cc
not_crashed Consumer.crashed xs h = absurd h.lower

module _ {ℓ} {A Q : Type ℓ} {cap : ℕ} {p : Protocol A Q}
    {Rep : Phase A → Bool → List A → Q → Type ℓ} (laws : Laws cap p Rep) where
  -- `queued` is published and not yet popped.
  pub record Inv (m : Machine A Q) : Type ℓ where
    pub queued : List A
    pub rep : Rep (phase m.producer) (found m.consumer) queued m.queue
    pub in_order : m.pushed ≡ m.popped ++ queued
    pub consumer_at : ConsumerAt m.consumer queued

  -- Publishing more values moves no value that the consumer has found.
  ConsumerAt-append :
      (c : Consumer A) (xs : List A) (v : A) → ConsumerAt c xs → ConsumerAt c (xs ++ (v ∷ []))
  ConsumerAt-append Consumer.idle xs v h = tt
  ConsumerAt-append (Consumer.trying b) xs v h = tt
  ConsumerAt-append Consumer.reading xs v (x, rest, e) =
      (x, rest ++ (v ∷ []), ap (λ l. l ++ (v ∷ [])) e)
  ConsumerAt-append (Consumer.retiring x) xs v (rest, e) =
      (rest ++ (v ∷ []), ap (λ l. l ++ (v ∷ [])) e)
  ConsumerAt-append Consumer.crashed xs v h = h

  trying_again :
      (b : Bool) (v : A) → phase (if b then Producer.trying true v else Producer.idle) ≡ quiet
  trying_again true v = refl
  trying_again false v = refl

  -- The consumer past its test, or back at it.
  after_acquire :
      (b : Bool) (xs : List A)
      → ConsumerAt
          (if not (null xs)
            then Consumer.reading
            else if b
            then Consumer.trying true
            else Consumer.idle)
          xs
  after_acquire b (x ∷ xs) = (x, xs, refl)
  after_acquire true [] = tt
  after_acquire false [] = tt

  found_after :
      (b : Bool) (xs : List A)
      → found {A = A} (
          if not (null xs)
          then Consumer.reading
          else if b
          then Consumer.trying true
          else Consumer.idle)
        ≡ not (null xs)
  found_after b (x ∷ xs) = refl
  found_after true [] = refl
  found_after false [] = refl

  -- The producer's step, by its position.
  produce-Inv :
      (c : Producer A) (m : Machine A Q) (xs : List A)
      → Rep (phase c) (found m.consumer) xs m.queue
      → m.pushed ≡ m.popped ++ xs
      → m.producer ≡ c
      → ConsumerAt m.consumer xs
      → Inv (produce p c m)
  unfolding produce
  produce-Inv Producer.idle m xs rep ord at here_c = record {
    queued = xs;
    rep = subst (λ c. Rep (phase c) (found m.consumer) xs m.queue) (sym at) rep;
    in_order = ord;
    consumer_at = here_c;
  }
  produce-Inv (Producer.trying b v) m xs rep ord at here_c = record {
    queued = xs;
    rep = elim (Bool-cases (p.reserve m.queue).0) [
      | inl pass ↦ rw pass (laws.reserve_room rep pass)
      | inr fail ↦ rw (fail, trying_again b v) (laws.reserve_full rep fail).1
    ];
    in_order = ord;
    consumer_at = here_c;
  }
  produce-Inv (Producer.writing v) m xs rep ord at here_c = record {
    queued = xs;
    rep = laws.write-Rep v rep;
    in_order = ord;
    consumer_at = here_c;
  }
  produce-Inv (Producer.publishing v) m xs rep ord at here_c = record {
    queued = xs ++ (v ∷ []);
    rep = laws.publish_write-Rep rep;
    in_order = ap (λ l. l ++ (v ∷ [])) ord ∙ append_assoc m.popped xs (v ∷ []);
    consumer_at = ConsumerAt-append m.consumer xs v here_c;
  }

  -- The consumer's step, by its position.
  consume-Inv :
      (c : Consumer A) (m : Machine A Q) (xs : List A)
      → Rep (phase m.producer) (found c) xs m.queue
      → m.pushed ≡ m.popped ++ xs
      → m.consumer ≡ c
      → ConsumerAt c xs
      → Inv (consume p c m)
  unfolding consume
  consume-Inv Consumer.idle m xs rep ord at here_c = record {
    queued = xs;
    rep = subst (λ c. Rep (phase m.producer) (found c) xs m.queue) (sym at) rep;
    in_order = ord;
    consumer_at = subst (λ c. ConsumerAt c xs) (sym at) here_c;
  }
  consume-Inv (Consumer.trying b) m xs rep ord at here_c =
      let (pass, rep') = laws.acquire-Rep rep in
      record {
        queued = xs;
        rep = rw (pass, found_after b xs) rep';
        in_order = ord;
        consumer_at = rw pass (after_acquire b xs);
      }
  consume-Inv Consumer.reading m xs rep ord at (x, rest, e) =
      let got = laws.read_lem (subst (λ l. Rep (phase m.producer) true l m.queue) e rep) in
      record { queued = xs; rep = rw got rep; in_order = ord; consumer_at = rw got (rest, e) }
  consume-Inv (Consumer.retiring v) m xs rep ord at (rest, e) = record {
    queued = rest;
    rep = laws.publish_read-Rep (subst (λ l. Rep (phase m.producer) true l m.queue) e rep);
    in_order = ord ∙ ap (λ l. m.popped ++ l) e ∙ sym (append_assoc m.popped (v ∷ []) rest);
    consumer_at = tt;
  }
  consume-Inv Consumer.crashed m xs rep ord at here_c = absurd here_c.lower

  Step-Inv : {m n : Machine A Q} → Step p m n → Inv m → Inv n
  Step-Inv {m} (begin_push b v e) i = record {
    queued = i.queued;
    rep = subst (λ c. Rep (phase c) (found m.consumer) i.queued m.queue) e i.rep;
    in_order = i.in_order;
    consumer_at = i.consumer_at;
  }
  Step-Inv {m} (begin_pop b e) i = record {
    queued = i.queued;
    rep = subst (λ c. Rep (phase m.producer) (found c) i.queued m.queue) e i.rep;
    in_order = i.in_order;
    consumer_at = tt;
  }
  Step-Inv {m} producer_goes i =
      produce-Inv m.producer m i.queued i.rep i.in_order refl i.consumer_at
  Step-Inv {m} consumer_goes i =
      consume-Inv m.consumer m i.queued i.rep i.in_order refl i.consumer_at

  pub Reach-Inv : {q : Q} {m : Machine A Q} → Rep quiet false [] q → Reach p q m → Inv m
  Reach-Inv rep here = record { queued = []; rep = rep; in_order = refl; consumer_at = tt }
  Reach-Inv rep (next r s) = Step-Inv s (Reach-Inv rep r)

  -- The values popped are the first of those pushed, each once and in order, at most `cap` are
  -- under way, and no call reads a slot that holds no object.
  pub Reach-InOrder : {q : Q} {m : Machine A Q} → Rep quiet false [] q → Reach p q m → InOrder cap m
  Reach-InOrder {m} rep r =
      let i = Reach-Inv rep r in
      (
        i.queued,
        i.in_order,
        omega (arith, laws.fits i.rep),
        not_crashed m.consumer i.queued i.consumer_at,
      )
