-- ===== src/Mpmc/States/Moves.antt =====
-- include/mpmc_1.h: a thread that moves on keeps the invariant if it keeps to its own slot.
use lock_free_stuffs.Prelude.{
  ℕ, ◌%◌, ◌^◌, ◌<◌, ◌≡◌, ◌≢◌, ◌==◌, sym, ap, ◌∙◌, subst, true, false, some, List, Bool-cases, inl,
  inr, if_split, ==→eq, eq→==, arith,
}
use lock_free_stuffs.Mpmc.Machine.{set_thread}
use lock_free_stuffs.Mpmc.Inv.{Unused, Once, Delivered}
use lock_free_stuffs.Mpmc.Moves.{Distinct-set}
use lock_free_stuffs.Mpmc.States.{Queue, buffer_index}
use lock_free_stuffs.Mpmc.States.Rep.{state_at}
use lock_free_stuffs.Mpmc.States.Machine.{
  Thread, Machine, idle, push_claims, push_spins, push_writes, push_stores, pop_claims, pop_spins,
  pop_reads, pop_frees, try_push_loads, try_push_tests, try_push_raises, try_pop_loads,
  try_pop_tests, try_pop_raises,
}
use lock_free_stuffs.Mpmc.States.Inv.{
  is_live, push_of, push_ticket, claimed, state_of, value_of, Claim, OfSlot, Pending, Live, Inv,
}
use lock_free_stuffs.Mpmc.Split.{value_index}
use lock_free_stuffs.Mpmc.Split.Laws.{value_at}

pub push_of-ticket {ℓ} :
    {A : Type ℓ} (t : Thread A) (c : ℕ)
    → push_ticket t ≡ some c
    → (v : A) × (push_of t ≡ some (c, v))
push_of-ticket (push_claims d v) c e = (v, cc)
push_of-ticket (push_spins d v) c e = (v, cc)
push_of-ticket (push_writes d v) c e = (v, cc)
push_of-ticket (push_stores d v) c e = (v, cc)
push_of-ticket _ c e = cc

pub ticket-push_of {ℓ} :
    {A : Type ℓ} (t : Thread A) (c : ℕ) (v : A) → push_of t ≡ some (c, v) → push_ticket t ≡ some c
ticket-push_of (push_claims d w) c v e = cc
ticket-push_of (push_spins d w) c v e = cc
ticket-push_of (push_writes d w) c v e = cc
ticket-push_of (push_stores d w) c v e = cc
ticket-push_of _ c v e = cc

module _ {ℓ} {A : Type ℓ} (m : Machine A) (i : ℕ) where
  -- A thread that is at a push after thread `i` has moved on was at it before.
  pub before :
      (t t' : Thread A)
      → m.threads i ≡ t
      → ((x : ℕ × A) → push_of t' ≡ some x → push_of t ≡ some x)
      → (j d : ℕ) (w : A) → push_of (set_thread i t' m.threads j) ≡ some (d, w)
      → push_of (m.threads j) ≡ some (d, w)
  before t t' at pushes j d w =
      if_split (λ x. push_of x ≡ some (d, w) → push_of (m.threads j) ≡ some (d, w)) (j == i)
        (λ e h. ap (λ n. push_of (m.threads n)) (==→eq j i e) ∙ ap push_of at ∙ pushes (d, w) h)
        (λ e h. h)

module _ {ℓ} {A : Type ℓ} (k elem : ℕ) where
  -- The slots but that of the ticket `c` are as they were.
  pub record Elsewhere (c : ℕ) (q q' : Queue A) (last last' : ℕ → ℕ) : Type ℓ where
    pub states : (d : ℕ) → d % 2 ^ k ≢ c % 2 ^ k → state_of k elem q' d ≡ state_of k elem q d
    pub values : (d : ℕ) → d % 2 ^ k ≢ c % 2 ^ k → value_of k elem q' d ≡ value_of k elem q d
    pub lasts : (d : ℕ) → d % 2 ^ k ≢ c % 2 ^ k → last' (d % 2 ^ k) ≡ last (d % 2 ^ k)

  Claim-elsewhere :
      (c : ℕ) (q q' : Queue A) (last last' : ℕ → ℕ) (t : Thread A)
      → Elsewhere c q q' last last'
      → claimed k t ≢ some (c % 2 ^ k)
      → Claim k elem q t
      → Claim k elem q' t
  Claim-elsewhere c q q' last last' (push_writes d v) same ne (s, u) =
      (same.states d (λ e. ne (ap some e)) ∙ s, u)
  Claim-elsewhere c q q' last last' (push_stores d v) same ne (s, u) =
      let other : d % 2 ^ k ≢ c % 2 ^ k = λ e. ne (ap some e) in
      (same.states d other ∙ s, same.values d other ∙ u)
  Claim-elsewhere c q q' last last' (pop_reads d) same ne (s, u) =
      (same.states d (λ e. ne (ap some e)) ∙ s, u)
  Claim-elsewhere c q q' last last' (pop_frees d v) same ne (s, u) =
      let other : d % 2 ^ k ≢ c % 2 ^ k = λ e. ne (ap some e) in
      (same.states d other ∙ s, same.values d other ∙ u)
  Claim-elsewhere c q q' last last' idle same ne o = tt
  Claim-elsewhere c q q' last last' (push_claims d v) same ne o = tt
  Claim-elsewhere c q q' last last' (push_spins d v) same ne o = tt
  Claim-elsewhere c q q' last last' (pop_claims d) same ne o = tt
  Claim-elsewhere c q q' last last' (pop_spins d) same ne o = tt
  Claim-elsewhere c q q' last last' (try_push_loads v) same ne o = tt
  Claim-elsewhere c q q' last last' (try_push_tests d v) same ne o = tt
  Claim-elsewhere c q q' last last' (try_push_raises d v) same ne o = tt
  Claim-elsewhere c q q' last last' try_pop_loads same ne o = tt
  Claim-elsewhere c q q' last last' (try_pop_tests d) same ne o = tt
  Claim-elsewhere c q q' last last' (try_pop_raises d) same ne o = tt

  -- What is known of a slot is known by each ticket of it.
  Live-at : (m : Machine A) (c d : ℕ) → d % 2 ^ k ≡ c % 2 ^ k → Live k elem m c → Live k elem m d
  unfolding buffer_index value_index
  Live-at m c d e h =
      let l : m.last (c % 2 ^ k) ≡ m.last (d % 2 ^ k) = ap m.last (sym e) in
      record {
        below = subst (λ n. n < m.pushes) l h.below;
        put =
            ap m.issued (sym l)
            ∙ h.put
            ∙ ap (λ p. some (m.queue.buffer p)) (value_at k elem c d (sym e));
        unused = subst (λ n. Unused n m.got) l h.unused;
        place = ap (λ n. n % 2 ^ k) (sym l) ∙ h.place ∙ sym e;
      }

  -- Thread `i` moves from `t` to `t'`, and only the slot of `c` changes.
  pub move-Inv :
      {m : Machine A} (inv : Inv k elem m) (i c : ℕ) (t t' : Thread A) (q' : Queue A)
      (last' : ℕ → ℕ) (got' : List (ℕ × A)) (served' : List (ℕ × ℕ))
      → (let m' : Machine A = record m {
        queue = q';
        threads = set_thread i t' m.threads;
        last = last';
        got = got';
        served = served';
      } in
          m.threads i ≡ t
          → q'.head ≡ m.queue.head
          → Elsewhere c m.queue q' m.last last'
          → ((x : ℕ × A) → push_of t' ≡ some x → push_of t ≡ some x)
          → ((j : ℕ) → j ≢ i → claimed k (m.threads j) ≢ some (c % 2 ^ k))
          → ((p : ℕ) → claimed k t' ≡ some p → p ≡ c % 2 ^ k)
          → Claim k elem q' t'
          → (is_live (state_of k elem q' c) ≡ true → Live k elem m' c)
          → ((d : ℕ) → d % 2 ^ k ≢ c % 2 ^ k → Live k elem m d → Unused (m.last (d % 2 ^ k)) got')
          → ((j d : ℕ) (w : A)
              → push_of (m'.threads j) ≡ some (d, w)
              → Pending k elem m d w
              → Unused d got' × (is_live (state_of k elem q' c) ≡ true → last' (c % 2 ^ k) ≢ d))
          → Once got'
          → Delivered m.pushes m.issued got'
          → OfSlot k served'
          → Inv k elem m')
  move-Inv {m} inv i c t t' q' last' got' served' at head same pushes alone mine claim here others
        puts once delivered of_slot =
      record {
        head_at = head ∙ inv.head_at;
        pending = λ j d w e.
            let was = inv.pending j d w (before m i t t' at pushes j d w e) in
            let (u, n) = puts j d w e was in
            record {
              below = was.below;
              put = was.put;
              unused = u;
              not_in = λ h. elim (Bool-cases (d % 2 ^ k == c % 2 ^ k)) [
                | inl eq ↦
                    let r = ==→eq (d % 2 ^ k) (c % 2 ^ k) eq in
                    λ f.
                      n (ap (λ p. is_live (q'.states p)) (state_at k c d (sym r)) ∙ h)
                        (ap last' (sym r) ∙ f)
                | inr ne ↦
                    let o = apart d ne in
                    λ f.
                      was.not_in (ap is_live (sym (same.states d o)) ∙ h) (sym (same.lasts d o) ∙ f)
              ];
            };
        claim = λ j.
            if_split (λ x. Claim k elem q' x) (j == i) (λ e. claim)
              (λ e.
                Claim-elsewhere c m.queue q' m.last last' (m.threads j) same
                  (alone j (ground (arith, e))) (inv.claim j));
        live = λ d h. elim (Bool-cases (d % 2 ^ k == c % 2 ^ k)) [
          | inl eq ↦
              let r = ==→eq (d % 2 ^ k) (c % 2 ^ k) eq in
              Live-at
                (record m {
                  queue = q';
                  threads = set_thread i t' m.threads;
                  last = last';
                  got = got';
                  served = served';
                })
                c d r (here (ap (λ p. is_live (q'.states p)) (state_at k c d (sym r)) ∙ h))
          | inr ne ↦
              let o = apart d ne in
              let was = inv.live d (ap is_live (sym (same.states d o)) ∙ h) in
              let l : m.last (d % 2 ^ k) ≡ last' (d % 2 ^ k) = sym (same.lasts d o) in
              record {
                below = subst (λ n. n < m.pushes) l was.below;
                put = ap m.issued (sym l) ∙ was.put ∙ ap some (sym (same.values d o));
                unused = subst (λ n. Unused n got') l (others d o was);
                place = ap (λ n. n % 2 ^ k) (sym l) ∙ was.place;
              }
        ];
        pushes_apart = Distinct-set push_ticket i t' m.threads inv.pushes_apart (λ j d ne h.
            let (w, f) = push_of-ticket t' d h in
            inv.pushes_apart i j d (λ e. ne (sym e))
              (ap push_ticket at ∙ ticket-push_of t d w (pushes (d, w) f)));
        claims_apart =
            Distinct-set (claimed k) i t' m.threads inv.claims_apart
              (λ j p ne h g. alone j ne (g ∙ ap some (mine p h)));
        once = once;
        delivered = delivered;
        of_slot = of_slot;
      }
    where
      apart : (d : ℕ) → (d % 2 ^ k == c % 2 ^ k) ≡ false → d % 2 ^ k ≢ c % 2 ^ k
      apart d ne e = cc (eq→== (d % 2 ^ k) (c % 2 ^ k) e)
