-- ===== src/Mpmc/Inv.antt =====
-- include/mpmc_seq.h and include/mpmc_seq_split.h: what each thread may rely on, by where it is.
use lock_free_stuffs.Prelude.{
  ℕ, ◌+◌, ◌%◌, ◌^◌, ◌<◌, ◌≤◌, ◌≡◌, ◌≢◌, ◌⊎◌, Option, none, some, List, [], ◌∷◌,
}
use lock_free_stuffs.Mpmc.Ring.{Ring}
use lock_free_stuffs.Mpmc.Machine.{
  Thread, Machine, idle, push_waits, push_writes, push_publishes, pop_waits, pop_reads, pop_frees,
  try_push_loads, try_push_tests, try_push_claims, try_pop_loads, try_pop_tests, try_pop_claims,
}

-- No pop in the list had this ticket.
abbrev pub Unused {ℓ} : {A : Type ℓ} → ℕ → List (ℕ × A) → Type ℓ
Unused c [] = Unit
Unused c ((d, v) ∷ got) = (c ≢ d) × Unused c got

-- No two pops had one ticket.
abbrev pub Once {ℓ} : {A : Type ℓ} → List (ℕ × A) → Type ℓ
Once [] = Unit
Once ((c, v) ∷ got) = Unused c got × Once got

-- Each pop got the value that the push with its ticket put.
abbrev pub Delivered {ℓ} : {A : Type ℓ} → ℕ → (ℕ → Option A) → List (ℕ × A) → Type ℓ
Delivered pushes issued [] = Unit
Delivered pushes issued ((c, v) ∷ got) =
    (c < pushes) × (issued c ≡ some v) × Delivered pushes issued got

abbrev pub push_ticket {ℓ} : {A : Type ℓ} → Thread A → Option ℕ
push_ticket (push_waits c v) = some c
push_ticket (push_writes c v) = some c
push_ticket (push_publishes c v) = some c
push_ticket _ = none

abbrev pub pop_ticket {ℓ} : {A : Type ℓ} → Thread A → Option ℕ
pop_ticket (pop_waits c) = some c
pop_ticket (pop_reads c) = some c
pop_ticket (pop_frees c v) = some c
pop_ticket _ = none

abbrev pub Distinct {ℓ} : {T : Type ℓ} → (T → Option ℕ) → (ℕ → T) → Type 0
Distinct ticket threads =
    (i j c : ℕ) → i ≢ j → ticket (threads i) ≡ some c → ticket (threads j) ≢ some c

module _ {ℓ} {A M : Type ℓ} (R : Ring A M) where
  -- A claim is good as long as nobody has raised the counter since it was loaded.
  abbrev pub Own : M → ℕ → ℕ → (ℕ → Option A) → List (ℕ × A) → Thread A → Type ℓ
  Own mem pushes pops issued got idle = Unit
  Own mem pushes pops issued got (push_waits c v) = (c < pushes) × (issued c ≡ some v)
  Own mem pushes pops issued got (push_writes c v) =
      (c < pushes) × (issued c ≡ some v) × (R.number c mem ≡ c)
  Own mem pushes pops issued got (push_publishes c v) =
      (c < pushes) × (issued c ≡ some v) × (R.number c mem ≡ c) × (R.value c mem ≡ v)
  Own mem pushes pops issued got (pop_waits c) = (c < pops) × Unused c got
  Own mem pushes pops issued got (pop_reads c) =
      (c < pops) × Unused c got × (R.number c mem ≡ c + 1)
  Own mem pushes pops issued got (pop_frees c v) =
      (c < pops) × Unused c got × (R.number c mem ≡ c + 1) × (c < pushes) × (issued c ≡ some v)
  Own mem pushes pops issued got (try_push_loads v) = Unit
  Own mem pushes pops issued got (try_push_tests c v) = (c ≤ pushes) × Unit
  Own mem pushes pops issued got (try_push_claims c v) =
      (c ≤ pushes) × (c ≡ pushes → R.number c mem ≡ c) × Unit
  Own mem pushes pops issued got try_pop_loads = Unit
  Own mem pushes pops issued got (try_pop_tests c) = (c ≤ pops) × Unit
  Own mem pushes pops issued got (try_pop_claims c) =
      (c ≤ pops) × (c ≡ pops → R.number c mem ≡ c + 1) × Unit

  -- A slot that is ready to be popped holds the value of its ticket.
  abbrev pub Ready : M → ℕ → (ℕ → Option A) → Type ℓ
  Ready mem pushes issued =
      (c : ℕ) → R.number c mem ≡ c + 1 → (c < pushes) × (issued c ≡ some (R.value c mem))

  pub record Inv (k : ℕ) (m : Machine A M) : Type ℓ where
    pub head_at : m.queue.head ≡ m.pushes
    pub tail_at : m.queue.tail ≡ m.pops
    pub own : (i : ℕ) → Own m.queue.slots m.pushes m.pops m.issued m.got (m.threads i)
    pub ready : Ready m.queue.slots m.pushes m.issued
    pub pushes_apart : Distinct push_ticket m.threads
    pub pops_apart : Distinct pop_ticket m.threads
    pub unused : (c : ℕ) → m.pops ≤ c → Unused c m.got
    pub once : Once m.got
    pub delivered : Delivered m.pushes m.issued m.got
    pub at_least : (c : ℕ) → c % 2 ^ k ≤ R.number c m.queue.slots
    pub at_most : (c : ℕ) → R.number c m.queue.slots ≤ m.pushes + m.pops + 2 ^ k
    pub freed : (c : ℕ) → Unused c m.got ⊎ (c + 2 ^ k ≤ R.number c m.queue.slots)
