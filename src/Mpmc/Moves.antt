-- ===== src/Mpmc/Moves.antt =====
-- include/mpmc_seq.h and include/mpmc_seq_split.h: a thread that moves on keeps the invariant if it
-- keeps what the others rely on.
use lock_free_stuffs.Prelude.{
  ℕ, ◌+◌, ◌%◌, ◌^◌, ◌<◌, ◌≤◌, ◌≡◌, ◌≢◌, ◌⊎◌, inl, inr, sym, ap, ◌∙◌, Option, some, List, ◌==◌,
  eq→==, ==→eq, if_split, Bool-cases, arith, word,
}
use lock_free_stuffs.Mpmc.Ring.{Ring, Lawful}
use lock_free_stuffs.Mpmc.Machine.{Thread, Machine, set_thread}
use lock_free_stuffs.Mpmc.Inv.{
  Unused, Once, Delivered, push_ticket, pop_ticket, Own, Ready, Distinct, Inv,
}

-- Neither counter has come near to 2^64.
abbrev pub Bounded {ℓ} : {A M : Type ℓ} → ℕ → Machine A M → Type 0
Bounded k m = (m.pushes + 2 ^ k < word) × (m.pops + 2 ^ k < word)

module _ {ℓ} {T : Type ℓ} where
  -- Tickets stay distinct if a thread's new place has no ticket that another has.
  pub Distinct-set :
      (ticket : T → Option ℕ) (i : ℕ) (t : T) (threads : ℕ → T)
      → Distinct ticket threads
      → ((j c : ℕ) → j ≢ i → ticket t ≡ some c → ticket (threads j) ≢ some c)
      → Distinct ticket (set_thread i t threads)
  Distinct-set ticket i t threads apart fresh a b c ne =
      if_split (λ x. ticket x ≡ some c → ticket (set_thread i t threads b) ≢ some c) (a == i)
        (λ at h.
          if_split (λ y. ticket y ≢ some c) (b == i) (λ bt. absurd (ne (ground (arith, at, bt))))
            (λ bf. fresh b c (ground (arith, bf)) h))
        (λ af h.
          if_split (λ y. ticket y ≢ some c) (b == i) (λ bt g. fresh a c (ground (arith, af)) g h)
            (λ bf. apart a b c ne h))

module _ {ℓ} {A M : Type ℓ} (k : ℕ) (R : Ring A M) (law : Lawful k R) where
  -- The number of a slot after a store to that of `c`.
  pub after_store :
      (c d n : ℕ) (mem : M)
      → ((d % 2 ^ k ≡ c % 2 ^ k)
          × (R.number d (R.store_number c n mem) ≡ n)
          × (R.number d mem ≡ R.number c mem))
        ⊎ ((d % 2 ^ k ≢ c % 2 ^ k) × (R.number d (R.store_number c n mem) ≡ R.number d mem))
  after_store c d n mem = elim (Bool-cases (d % 2 ^ k == c % 2 ^ k)) [
    | inl same ↦
        let at = ==→eq (d % 2 ^ k) (c % 2 ^ k) same in
        inl (
          at,
          law.number_at d c (R.store_number c n mem) at ∙ law.number_stored c n mem,
          law.number_at d c mem at,
        )
    | inr diff ↦
        let other : d % 2 ^ k ≢ c % 2 ^ k = λ at. cc (eq→== (d % 2 ^ k) (c % 2 ^ k) at) in
        inr (other, law.number_other c d n mem other)
  ]

module _ {ℓ} {A M : Type ℓ} (k : ℕ) (R : Ring A M) {m : Machine A M} (inv : Inv R k m) (i : ℕ) where
  -- Thread `i` moves on to `t'` and leaves other slots and another list of what was got.
  pub move-Inv :
      (t t' : Thread A) (mem : M) (got' : List (ℕ × A))
      → m.threads i ≡ t
      → ((c : ℕ) → push_ticket t' ≡ some c → push_ticket t ≡ some c)
      → ((c : ℕ) → pop_ticket t' ≡ some c → pop_ticket t ≡ some c)
      → Own R mem m.pushes m.pops m.issued got' t'
      → ((j : ℕ) → j ≢ i → Own R mem m.pushes m.pops m.issued got' (m.threads j))
      → Ready R mem m.pushes m.issued
      → ((c : ℕ) → m.pops ≤ c → Unused c got')
      → Once got'
      → Delivered m.pushes m.issued got'
      → ((c : ℕ) → R.number c m.queue.slots ≤ R.number c mem)
      → ((c : ℕ) → R.number c mem ≤ m.pushes + m.pops + 2 ^ k)
      → ((c : ℕ) → Unused c got' ⊎ (c + 2 ^ k ≤ R.number c mem))
      → Inv R k (record m {
        queue = record m.queue { slots = mem };
        threads = set_thread i t' m.threads;
        got = got';
      })
  move-Inv t t' mem got' at pushes pops mine others ready unused once delivered grows below freed =
      record {
        head_at = inv.head_at;
        tail_at = inv.tail_at;
        own = λ j.
            if_split (λ x. Own R mem m.pushes m.pops m.issued got' x) (j == i) (λ e. mine)
              (λ e. others j (ground (arith, e)));
        ready = ready;
        pushes_apart =
            Distinct-set push_ticket i t' m.threads inv.pushes_apart (λ j c ne h.
              inv.pushes_apart i j c (λ e. ne (sym e)) (ap push_ticket at ∙ pushes c h));
        pops_apart =
            Distinct-set pop_ticket i t' m.threads inv.pops_apart
              (λ j c ne h. inv.pops_apart i j c (λ e. ne (sym e)) (ap pop_ticket at ∙ pops c h));
        unused = unused;
        once = once;
        delivered = delivered;
        at_least = λ c. omega (arith, inv.at_least c, grows c);
        at_most = below;
        freed = freed;
      }

  -- The thread moves on and touches nothing.
  pub stay-Inv :
      (t t' : Thread A)
      → m.threads i ≡ t
      → ((c : ℕ) → push_ticket t' ≡ some c → push_ticket t ≡ some c)
      → ((c : ℕ) → pop_ticket t' ≡ some c → pop_ticket t ≡ some c)
      → Own R m.queue.slots m.pushes m.pops m.issued m.got t'
      → Inv R k (record m { threads = set_thread i t' m.threads })
  stay-Inv t t' at pushes pops mine =
      move-Inv t t' m.queue.slots m.got at pushes pops mine (λ j ne. inv.own j) inv.ready inv.unused
        inv.once inv.delivered (λ c. omega arith) inv.at_most inv.freed
