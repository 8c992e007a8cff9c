-- ===== src/Mpmc/Refuse.antt =====
-- include/mpmc_seq.h and include/mpmc_seq_split.h: when try_emplace gives up.
use lock_free_stuffs.Prelude.{
  ℕ, ◌+◌, ◌-◌, ◌%◌, ◌^◌, ◌<◌, ◌≤◌, ◌≡◌, refl, sym, ◌∙◌, subst, Bool, true, false, inl, inr, eq→==,
  if◌then◌else◌, arith,
}
use native.Mathlib.Decide.{dec_le}
use native.Mathlib.Nat.{mod-eq_of_lt, mod-eq-sub-mod}
use lock_free_stuffs.Mpmc.Ring.{Ring, Lawful}
use lock_free_stuffs.Mpmc.Machine.{
  Thread, Machine, idle, try_push_tests, try_push_claims, try_push_loads, has_turn, behind, go,
  Reach,
}
use lock_free_stuffs.Mpmc.Inv.{Unused, Own, Inv}
use lock_free_stuffs.Mpmc.Order.{Reach-Inv}

-- The signed comparison is that of the numbers where they are small.
behind_lem : (a b : ℕ) → a < 2 ^ 63 → b < 2 ^ 63 → behind a b ≡ true → a < b
unfolding behind
behind_lem a b small small' h = ground (arith, h)

answers {ℓ} :
    {A : Type ℓ} (turn full : Bool) (c : ℕ) (v : A)
    → Path
        (Thread A)
        (if turn then try_push_claims c v else if full then idle else try_push_loads v)
        idle
    → full ≡ true
answers turn true c v h = refl
answers true false c v h = cc
answers false false c v h = cc

module _ {ℓ} {A M : Type ℓ} (k : ℕ) (R : Ring A M) {m : Machine A M} (inv : Inv R k m) where
  -- Where a slot's number is below the counter, the value of one round before is still in.
  still_in :
      (law : Lawful k R) (c : ℕ)
      → R.number c m.queue.slots < c
      → (2 ^ k ≤ c) × Unused (c - 2 ^ k) m.got
  still_in law c lt =
      let round : 2 ^ k ≤ c = elim (dec_le (2 ^ k) c) [
        | yes le ↦ le
        | no small ↦
            absurd (omega (arith, inv.at_least c, mod-eq_of_lt {n = c} {m = 2 ^ k} (omega arith)))
      ] in
      (
        round,
        elim (inv.freed (c - 2 ^ k)) [
          | inl free ↦ free
          | inr large ↦ absurd (
              omega (
                arith,
                large,
                round,
                law.number_at c (c - 2 ^ k) m.queue.slots
                    (mod-eq-sub-mod {n = c} {m = 2 ^ k} round),
              ))
        ],
      )

  -- The step of a thread that tests ends its call only where the number is behind.
  gave_up :
      (i c : ℕ) (v : A)
      → (go k R i (try_push_tests c v) m).threads i ≡ idle
      → behind (R.number c m.queue.slots) c ≡ true
  unfolding go
  gave_up i c v ended =
      answers (has_turn k R c c m.queue) (behind (R.number c m.queue.slots) c) c v
        (sym (rw (eq→== i i refl) refl) ∙ ended)

-- For SIZE = 2^k of at least two, in every state that any number of threads reach by interleaved
-- steps of push, pop, try_emplace and try_pop from a new LockFreeQueueMpmcSeq or
-- LockFreeQueueMpmcSeqSplit, as long as the pushes and pops that have taken a ticket and SIZE sum up to less than 2^63: where a try_emplace
-- that has loaded the counter `c` finds no room and returns false, `c` is at least SIZE and no pop
-- with the ticket c - SIZE has ended, so that the slot is still taken by the value before.
pub try_refuses {ℓ} :
    {A M : Type ℓ} (k : ℕ) (R : Ring A M) (law : Lawful k R) (made : M) {m : Machine A M} (i c : ℕ)
    (v : A)
    → 2 ≤ 2 ^ k
    → ((d : ℕ) → R.number d made ≡ d % 2 ^ k)
    → Reach k R made m
    → m.pushes + m.pops + 2 ^ k < 2 ^ 63
    → m.threads i ≡ try_push_tests c v
    → (go k R i (try_push_tests c v) m).threads i ≡ idle
    → (2 ^ k ≤ c) × Unused (c - 2 ^ k) m.got
try_refuses k R law made {m} i c v two numbered r small at ended =
    let inv = Reach-Inv k R law two made numbered r (omega arith, omega arith) in
    let (le, _) =
      subst (λ t. Own R m.queue.slots m.pushes m.pops m.issued m.got t) at (inv.own i) in
    still_in k R inv law c (
      behind_lem (R.number c m.queue.slots) c (omega (arith, inv.at_most c)) (omega arith)
        (gave_up k R inv i c v ended))
