-- ===== src/Mpmc/Frames.antt =====
-- include/mpmc_seq.h and include/mpmc_seq_split.h: what the step of one thread leaves of what the
-- others rely on.
use lock_free_stuffs.Prelude.{
  ℕ, ◌+◌, ◌%◌, ◌^◌, ◌≤◌, ◌≡◌, ◌≢◌, refl, ◌∙◌, Option, none, some, List, ◌==◌, eq→==, ==→eq,
  if◌then◌else◌, if_split, arith, mod_apart,
}
use mathlib.Core.Option.{some-injective}
use lock_free_stuffs.Mpmc.Ring.{Ring}
use lock_free_stuffs.Mpmc.Machine.{
  Thread, idle, push_waits, push_writes, push_publishes, pop_waits, pop_reads, pop_frees,
  try_push_loads, try_push_tests, try_push_claims, try_pop_loads, try_pop_tests, try_pop_claims,
}
use lock_free_stuffs.Mpmc.Inv.{Own}

-- Neighbouring tickets have different slots, from two slots on.
pub neighbours : (k c : ℕ) → 2 ≤ 2 ^ k → c % 2 ^ k ≢ (c + 1) % 2 ^ k
neighbours k c two = mod_apart (2 ^ k) c (c + 1) (omega arith) (omega arith)

suc_inj : {c d : ℕ} → d + 1 ≡ c + 1 → d ≡ c
suc_inj e = omega arith

-- The ticket of a thread that is past its test, or that will be if its compare and swap succeeds.
abbrev pub past {ℓ} : {A : Type ℓ} → ℕ → ℕ → Thread A → Option ℕ
past pushes pops (push_writes c v) = some c
past pushes pops (push_publishes c v) = some c
past pushes pops (pop_reads c) = some c
past pushes pops (pop_frees c v) = some c
past pushes pops (try_push_claims c v) = if c == pushes then some c else none
past pushes pops (try_pop_claims c) = if c == pops then some c else none
past pushes pops _ = none

pub claim : (c n d : ℕ) → (if c == n then some c else none) ≡ some d → (c ≡ n) × (c ≡ d)
claim c n d =
    if_split (λ t. t ≡ some d → (c ≡ n) × (c ≡ d)) (c == n)
      (λ e h. (==→eq c n e, some-injective c d h)) (λ e h. cc)

module _ {ℓ} {A M : Type ℓ} (k : ℕ) (R : Ring A M) where
  -- A push takes the next ticket.
  pub Own-take_push :
      (mem : M) (pushes pops : ℕ) (issued : ℕ → Option A) (got : List (ℕ × A)) (w : A)
      (t : Thread A)
      → Own R mem pushes pops issued got t
      → Own R mem (pushes + 1) pops (λ c. if c == pushes then some w else issued c) got t
  Own-take_push mem pushes pops issued got w idle o = tt
  Own-take_push mem pushes pops issued got w (push_waits c v) o = ground (arith, o)
  Own-take_push mem pushes pops issued got w (push_writes c v) o = ground (arith, o)
  Own-take_push mem pushes pops issued got w (push_publishes c v) o = ground (arith, o)
  Own-take_push mem pushes pops issued got w (pop_waits c) o = o
  Own-take_push mem pushes pops issued got w (pop_reads c) o = o
  Own-take_push mem pushes pops issued got w (pop_frees c v) (a, b, s, d, e) =
      (a, b, s, ground arith, ground arith)
  Own-take_push mem pushes pops issued got w (try_push_loads v) o = tt
  Own-take_push mem pushes pops issued got w (try_push_tests c v) (a, o) = (omega arith, tt)
  Own-take_push mem pushes pops issued got w (try_push_claims c v) (a, good, _) =
      (omega arith, (λ e. absurd (omega arith)), tt)
  Own-take_push mem pushes pops issued got w try_pop_loads o = tt
  Own-take_push mem pushes pops issued got w (try_pop_tests c) o = o
  Own-take_push mem pushes pops issued got w (try_pop_claims c) o = o

  pub Own-take_pop :
      (mem : M) (pushes pops : ℕ) (issued : ℕ → Option A) (got : List (ℕ × A)) (t : Thread A)
      → Own R mem pushes pops issued got t
      → Own R mem pushes (pops + 1) issued got t
  Own-take_pop mem pushes pops issued got idle o = tt
  Own-take_pop mem pushes pops issued got (push_waits c v) o = o
  Own-take_pop mem pushes pops issued got (push_writes c v) o = o
  Own-take_pop mem pushes pops issued got (push_publishes c v) o = o
  Own-take_pop mem pushes pops issued got (pop_waits c) (a, o) = (omega arith, o)
  Own-take_pop mem pushes pops issued got (pop_reads c) (a, o, e) = (omega arith, o, e)
  Own-take_pop mem pushes pops issued got (pop_frees c v) (a, o, e, f, g) =
      (omega arith, o, e, f, g)
  Own-take_pop mem pushes pops issued got (try_push_loads v) o = tt
  Own-take_pop mem pushes pops issued got (try_push_tests c v) o = o
  Own-take_pop mem pushes pops issued got (try_push_claims c v) o = o
  Own-take_pop mem pushes pops issued got try_pop_loads o = tt
  Own-take_pop mem pushes pops issued got (try_pop_tests c) (a, o) = (omega arith, tt)
  Own-take_pop mem pushes pops issued got (try_pop_claims c) (a, good, _) =
      (omega arith, (λ e. absurd (omega arith)), tt)

  -- A thread keeps what it relies on where its own slot is not stored to.
  pub Own-elsewhere :
      (mem mem' : M) (p pushes pops : ℕ) (issued : ℕ → Option A) (got : List (ℕ × A)) (t : Thread A)
      → ((d : ℕ)
          → d % 2 ^ k ≢ p
          → (R.number d mem' ≡ R.number d mem) × (R.value d mem' ≡ R.value d mem))
      → ((d : ℕ) → past pushes pops t ≡ some d → d % 2 ^ k ≢ p)
      → Own R mem pushes pops issued got t
      → Own R mem' pushes pops issued got t
  Own-elsewhere mem mem' p pushes pops issued got idle same apart o = tt
  Own-elsewhere mem mem' p pushes pops issued got (push_waits c v) same apart o = o
  Own-elsewhere mem mem' p pushes pops issued got (push_writes c v) same apart (a, b, e) =
      (a, b, (same c (apart c refl)).0 ∙ e)
  Own-elsewhere mem mem' p pushes pops issued got (push_publishes c v) same apart (a, b, e, f) =
      let (num, val) = same c (apart c refl) in (a, b, num ∙ e, val ∙ f)
  Own-elsewhere mem mem' p pushes pops issued got (pop_waits c) same apart o = o
  Own-elsewhere mem mem' p pushes pops issued got (pop_reads c) same apart (a, b, e) =
      (a, b, (same c (apart c refl)).0 ∙ e)
  Own-elsewhere mem mem' p pushes pops issued got (pop_frees c v) same apart (a, b, e, f, g) =
      (a, b, (same c (apart c refl)).0 ∙ e, f, g)
  Own-elsewhere mem mem' p pushes pops issued got (try_push_loads v) same apart o = tt
  Own-elsewhere mem mem' p pushes pops issued got (try_push_tests c v) same apart o = o
  Own-elsewhere mem mem' p pushes pops issued got (try_push_claims c v) same apart (a, good, _) =
      (a, (λ e. (same c (apart c (rw (eq→== c pushes e) refl))).0 ∙ good e), tt)
  Own-elsewhere mem mem' p pushes pops issued got try_pop_loads same apart o = tt
  Own-elsewhere mem mem' p pushes pops issued got (try_pop_tests c) same apart o = o
  Own-elsewhere mem mem' p pushes pops issued got (try_pop_claims c) same apart (a, good, _) =
      (a, (λ e. (same c (apart c (rw (eq→== c pops e) refl))).0 ∙ good e), tt)
