-- ===== src/Mpmc/Tickets.antt =====
-- include/mpmc_seq.h and include/mpmc_seq_split.h: a new queue has the invariant, and taking a ticket
-- keeps it.
use lock_free_stuffs.Prelude.{
  ℕ, ◌+◌, ◌%◌, ◌^◌, ◌<◌, ◌≡◌, refl, sym, ◌∙◌, Option, none, some, List, [], ◌∷◌, ◌==◌,
  if◌then◌else◌, if_split, inl, arith, word, mod-lt, pow_pos,
}
use mathlib.Core.Option.{some-injective}
use native.Mathlib.Nat.{mod-le}
use lock_free_stuffs.Mpmc.Ring.{Ring}
use lock_free_stuffs.Mpmc.Machine.{
  Thread, Machine, idle, push_waits, push_writes, push_publishes, pop_waits, pop_reads, pop_frees,
  try_push_loads, try_push_tests, try_push_claims, try_pop_loads, try_pop_tests, try_pop_claims,
  raise_head, raise_tail, start,
}
use lock_free_stuffs.Mpmc.Inv.{Delivered, push_ticket, pop_ticket, Own, Inv}
use lock_free_stuffs.Mpmc.Frames.{Own-take_push, Own-take_pop}
use lock_free_stuffs.Mpmc.Moves.{Distinct-set}

pub Delivered-take_push {ℓ} :
    {A : Type ℓ} (pushes : ℕ) (issued : ℕ → Option A) (got : List (ℕ × A)) (w : A)
    → Delivered pushes issued got
    → Delivered (pushes + 1) (λ c. if c == pushes then some w else issued c) got
Delivered-take_push pushes issued [] w d = tt
Delivered-take_push pushes issued ((c, v) ∷ got) w (lt, is, d) =
    (omega arith, ground arith, Delivered-take_push pushes issued got w d)

module _ {ℓ} {A M : Type ℓ} (k : ℕ) (R : Ring A M) where
  -- The constructor numbers the slots from 0 on.
  pub start-Inv : (made : M) → ((c : ℕ) → R.number c made ≡ c % 2 ^ k) → Inv R k (start k R made)
  start-Inv made numbered = record {
    head_at = refl;
    tail_at = refl;
    own = λ i. tt;
    ready = λ c e. absurd (omega (arith, numbered c, mod-le c (2 ^ k)));
    pushes_apart = λ i j c ne h. cc;
    pops_apart = λ i j c ne h. cc;
    unused = λ c le. tt;
    once = tt;
    delivered = tt;
    at_least = λ c. omega (arith, numbered c);
    at_most = λ c. omega (arith, numbered c, mod-lt c (pow_pos k));
    freed = λ c. inl tt;
  }

  push_ticket_lt :
      (mem : M) (pushes pops : ℕ) (issued : ℕ → Option A) (got : List (ℕ × A)) (t : Thread A)
      (c : ℕ)
      → Own R mem pushes pops issued got t
      → push_ticket t ≡ some c
      → c < pushes
  push_ticket_lt mem pushes pops issued got idle c o h = cc
  push_ticket_lt mem pushes pops issued got (push_waits d v) c o h =
      omega (arith, o.0, some-injective d c h)
  push_ticket_lt mem pushes pops issued got (push_writes d v) c o h =
      omega (arith, o.0, some-injective d c h)
  push_ticket_lt mem pushes pops issued got (push_publishes d v) c o h =
      omega (arith, o.0, some-injective d c h)
  push_ticket_lt mem pushes pops issued got (pop_waits d) c o h = cc
  push_ticket_lt mem pushes pops issued got (pop_reads d) c o h = cc
  push_ticket_lt mem pushes pops issued got (pop_frees d v) c o h = cc
  push_ticket_lt mem pushes pops issued got (try_push_loads v) c o h = cc
  push_ticket_lt mem pushes pops issued got (try_push_tests d v) c o h = cc
  push_ticket_lt mem pushes pops issued got (try_push_claims d v) c o h = cc
  push_ticket_lt mem pushes pops issued got try_pop_loads c o h = cc
  push_ticket_lt mem pushes pops issued got (try_pop_tests d) c o h = cc
  push_ticket_lt mem pushes pops issued got (try_pop_claims d) c o h = cc

  pop_ticket_lt :
      (mem : M) (pushes pops : ℕ) (issued : ℕ → Option A) (got : List (ℕ × A)) (t : Thread A)
      (c : ℕ)
      → Own R mem pushes pops issued got t
      → pop_ticket t ≡ some c
      → c < pops
  pop_ticket_lt mem pushes pops issued got idle c o h = cc
  pop_ticket_lt mem pushes pops issued got (pop_waits d) c o h =
      omega (arith, o.0, some-injective d c h)
  pop_ticket_lt mem pushes pops issued got (pop_reads d) c o h =
      omega (arith, o.0, some-injective d c h)
  pop_ticket_lt mem pushes pops issued got (pop_frees d v) c o h =
      omega (arith, o.0, some-injective d c h)
  pop_ticket_lt mem pushes pops issued got (push_waits d v) c o h = cc
  pop_ticket_lt mem pushes pops issued got (push_writes d v) c o h = cc
  pop_ticket_lt mem pushes pops issued got (push_publishes d v) c o h = cc
  pop_ticket_lt mem pushes pops issued got (try_push_loads v) c o h = cc
  pop_ticket_lt mem pushes pops issued got (try_push_tests d v) c o h = cc
  pop_ticket_lt mem pushes pops issued got (try_push_claims d v) c o h = cc
  pop_ticket_lt mem pushes pops issued got try_pop_loads c o h = cc
  pop_ticket_lt mem pushes pops issued got (try_pop_tests d) c o h = cc
  pop_ticket_lt mem pushes pops issued got (try_pop_claims d) c o h = cc

  -- Thread `i` goes on at `t'` with the ticket of the head.
  pub raise_head-Inv :
      (i : ℕ) (t' : Thread A) (v : A) {m : Machine A M}
      → Inv R k m
      → m.pushes + 1 < word
      → Own R m.queue.slots
          (m.pushes + 1)
          m.pops
          (λ c. if c == m.pushes then some v else m.issued c)
          m.got
          t'
      → push_ticket t' ≡ some m.pushes
      → pop_ticket t' ≡ none
      → Inv R k (raise_head i t' v m)
  raise_head-Inv i t' v {m} inv bound mine ticket no_ticket = record {
    head_at = omega (arith, inv.head_at);
    tail_at = inv.tail_at;
    own = λ j.
        if_split
          (λ t.
            Own R m.queue.slots (m.pushes + 1) m.pops
              (λ c. if c == m.pushes then some v else m.issued c) m.got t)
          (j == i) (λ e. mine)
          (λ e.
            Own-take_push k R m.queue.slots m.pushes m.pops m.issued m.got v (m.threads j)
              (inv.own j));
    ready = λ c e. let (a, b) = inv.ready c e in (omega arith, ground arith);
    pushes_apart = Distinct-set push_ticket i t' m.threads inv.pushes_apart (λ j c ne h g. absurd (
        omega (
          arith,
          some-injective m.pushes c (sym ticket ∙ h),
          push_ticket_lt m.queue.slots m.pushes m.pops m.issued m.got (m.threads j) c (inv.own j) g,
        )));
    pops_apart =
        Distinct-set pop_ticket i t' m.threads inv.pops_apart (λ j c ne h. cc (no_ticket, h));
    unused = inv.unused;
    once = inv.once;
    delivered = Delivered-take_push m.pushes m.issued m.got v inv.delivered;
    at_least = inv.at_least;
    at_most = λ c. omega (arith, inv.at_most c);
    freed = inv.freed;
  }

  -- And with the ticket of the tail.
  pub raise_tail-Inv :
      (i : ℕ) (t' : Thread A) {m : Machine A M}
      → Inv R k m
      → m.pops + 1 < word
      → Own R m.queue.slots m.pushes (m.pops + 1) m.issued m.got t'
      → pop_ticket t' ≡ some m.pops
      → push_ticket t' ≡ none
      → Inv R k (raise_tail i t' m)
  raise_tail-Inv i t' {m} inv bound mine ticket no_ticket = record {
    head_at = inv.head_at;
    tail_at = omega (arith, inv.tail_at);
    own = λ j.
        if_split (λ t. Own R m.queue.slots m.pushes (m.pops + 1) m.issued m.got t) (j == i)
          (λ e. mine)
          (λ e.
            Own-take_pop k R m.queue.slots m.pushes m.pops m.issued m.got (m.threads j)
              (inv.own j));
    ready = inv.ready;
    pushes_apart =
        Distinct-set push_ticket i t' m.threads inv.pushes_apart (λ j c ne h. cc (no_ticket, h));
    pops_apart = Distinct-set pop_ticket i t' m.threads inv.pops_apart (λ j c ne h g. absurd (
        omega (
          arith,
          some-injective m.pops c (sym ticket ∙ h),
          pop_ticket_lt m.queue.slots m.pushes m.pops m.issued m.got (m.threads j) c (inv.own j) g,
        )));
    unused = λ c le. inv.unused c (omega arith);
    once = inv.once;
    delivered = inv.delivered;
    at_least = inv.at_least;
    at_most = λ c. omega (arith, inv.at_most c);
    freed = inv.freed;
  }
