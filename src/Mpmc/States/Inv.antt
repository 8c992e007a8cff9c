-- ===== src/Mpmc/States/Inv.antt =====
-- include/mpmc_1.h: what holds between the steps of the threads.
use lock_free_stuffs.Prelude.{
  ℕ, ◌%◌, ◌^◌, ◌<◌, ◌≡◌, ◌≢◌, refl, Bool, true, false, Option, none, some, List, [], ◌∷◌,
}
use lock_free_stuffs.Mpmc.Inv.{Unused, Once, Delivered, Distinct}
use lock_free_stuffs.Mpmc.States.{
  SlotState, vacant, storing, stored, loading, Queue, new, buffer_index, state_index,
}
use lock_free_stuffs.Mpmc.States.Machine.{
  Thread, Machine, push_claims, push_spins, push_writes, push_stores, pop_reads, pop_frees, start,
}

-- The ticket of each pop and that of the push whose value it got have one slot.
abbrev pub OfSlot : ℕ → List (ℕ × ℕ) → Type 0
OfSlot k [] = Unit
OfSlot k ((d, c) ∷ served) = (d % 2 ^ k ≡ c % 2 ^ k) × OfSlot k served

-- A slot with a value that no pop has finished with.
abbrev pub is_live : SlotState → Bool
is_live vacant = false
is_live storing = false
is_live stored = true
is_live loading = true

module _ {ℓ} {A : Type ℓ} where
  -- the push that a thread is at
  abbrev pub push_of : Thread A → Option (ℕ × A)
  push_of (push_claims c v) = some (c, v)
  push_of (push_spins c v) = some (c, v)
  push_of (push_writes c v) = some (c, v)
  push_of (push_stores c v) = some (c, v)
  push_of _ = none

  abbrev pub push_ticket : Thread A → Option ℕ
  push_ticket (push_claims c v) = some c
  push_ticket (push_spins c v) = some c
  push_ticket (push_writes c v) = some c
  push_ticket (push_stores c v) = some c
  push_ticket _ = none

  -- the ticket of a thread that has claimed its slot
  abbrev pub holds : Thread A → Option ℕ
  holds (push_writes c v) = some c
  holds (push_stores c v) = some c
  holds (pop_reads c) = some c
  holds (pop_frees c v) = some c
  holds _ = none

  -- the place of the slot that a thread has claimed
  abbrev pub claimed : ℕ → Thread A → Option ℕ
  claimed k (push_writes c v) = some (c % 2 ^ k)
  claimed k (push_stores c v) = some (c % 2 ^ k)
  claimed k (pop_reads c) = some (c % 2 ^ k)
  claimed k (pop_frees c v) = some (c % 2 ^ k)
  claimed k _ = none

module _ {ℓ} {A : Type ℓ} (k elem : ℕ) where
  abbrev pub state_of : Queue A → ℕ → SlotState
  state_of q c = q.states (state_index k c)

  abbrev pub value_of : Queue A → ℕ → A
  value_of q c = q.buffer (buffer_index k elem c)

  -- What a thread that has claimed its slot may rely on.
  abbrev pub Claim : Queue A → Thread A → Type ℓ
  Claim q (push_writes c v) = (state_of q c ≡ storing) × Unit
  Claim q (push_stores c v) = (state_of q c ≡ storing) × (value_of q c ≡ v)
  Claim q (pop_reads c) = (state_of q c ≡ loading) × Unit
  Claim q (pop_frees c v) = (state_of q c ≡ loading) × (value_of q c ≡ v)
  Claim q _ = Unit

  -- The value of a push that has its ticket and has not stored yet is neither in a slot nor popped.
  pub record Pending (m : Machine A) (c : ℕ) (v : A) : Type ℓ where
    pub below : c < m.pushes
    pub put : m.issued c ≡ some v
    pub unused : Unused c m.got
    pub not_in : is_live (state_of m.queue c) ≡ true → m.last (c % 2 ^ k) ≢ c

  -- A slot with a value has that of the push which was the last to store there.
  pub record Live (m : Machine A) (c : ℕ) : Type ℓ where
    pub below : m.last (c % 2 ^ k) < m.pushes
    pub put : m.issued (m.last (c % 2 ^ k)) ≡ some (value_of m.queue c)
    pub unused : Unused (m.last (c % 2 ^ k)) m.got
    pub place : m.last (c % 2 ^ k) % 2 ^ k ≡ c % 2 ^ k

  pub record Inv (m : Machine A) : Type ℓ where
    pub head_at : m.queue.head ≡ m.pushes
    pub pending : (i c : ℕ) (v : A) → push_of (m.threads i) ≡ some (c, v) → Pending m c v
    pub claim : (i : ℕ) → Claim m.queue (m.threads i)
    pub live : (c : ℕ) → is_live (state_of m.queue c) ≡ true → Live m c
    pub pushes_apart : Distinct push_ticket m.threads
    pub claims_apart : Distinct (claimed k) m.threads
    pub once : Once m.got
    pub delivered : Delivered m.pushes m.issued m.got
    pub of_slot : OfSlot k m.served

  pub start-Inv : (raw : ℕ → A) → Inv (start k elem raw)
  unfolding new
  start-Inv raw = record {
    head_at = refl;
    pending = λ i c v e. cc;
    claim = λ i. tt;
    live = λ c e. cc;
    pushes_apart = λ i j c ne e. cc;
    claims_apart = λ i j c ne e. cc;
    once = tt;
    delivered = tt;
    of_slot = tt;
  }
