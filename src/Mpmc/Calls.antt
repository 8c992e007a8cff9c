-- ===== src/Mpmc/Calls.antt =====
-- include/mpmc_seq.h and include/mpmc_seq_split.h: the calls that do not wait, run with nobody else at
-- work, where no compare and swap finds another counter.
use lock_free_stuffs.Prelude.{
  ℕ, zero, suc, ◌+◌, ◌%◌, ◌^◌, ◌<◌, ◌≤◌, ◌≡◌, ◌≢◌, ap, ◌∙◌, Bool, true, false, Option, none, some,
  List, [], ◌∷◌, ◌++◌, length, if◌then◌else◌, arith, add_size,
}
use lock_free_stuffs.Mpmc.Ring.{Queue, Ring, Lawful}
use lock_free_stuffs.Mpmc.Machine.{has_turn, behind}

module _ {ℓ} {A M : Type ℓ} (k : ℕ) (R : Ring A M) where
  -- `none` while the loop has not ended in `fuel` rounds
  unfoldable pub try_emplace : ℕ → A → Queue M → Option (Bool × Queue M)
  try_emplace zero v q = none
  try_emplace (suc fuel) v q =
      let again = try_emplace fuel v q in
      if has_turn k R q.head q.head q
      then some (
        true,
        record q {
          head = add_size q.head 1;
          slots = R.store_number q.head (add_size q.head 1) (R.store_value q.head v q.slots);
        },
      )
      else if behind (R.number q.head q.slots) q.head
      then some (false, q)
      else again

  unfoldable pub try_pop : ℕ → Queue M → Option (Option A × Queue M)
  try_pop zero q = none
  try_pop (suc fuel) q =
      let again = try_pop fuel q in
      if has_turn k R q.tail (add_size q.tail 1) q
      then some (
        some (R.value q.tail q.slots),
        record q {
          tail = add_size q.tail 1;
          slots = R.store_number q.tail (add_size q.tail (2 ^ k)) q.slots;
        },
      )
      else if behind (R.number q.tail q.slots) (add_size q.tail 1)
      then some (none, q)
      else again

  unfoldable pub enqueue : ℕ → A → Queue M → Option (Bool × Queue M)
  enqueue = try_emplace

  unfoldable pub dequeue : ℕ → Queue M → Option (Option A × Queue M)
  dequeue = try_pop

  unfoldable pub try_push : ℕ → A → Queue M → Option (Bool × Queue M)
  try_push = try_emplace

  -- `wanted` tells whether a pointer was passed.
  unfoldable pub try_dequeue : Bool → ℕ → Queue M → Option (Bool × Option A × Queue M)
  try_dequeue wanted fuel q = elim (try_pop fuel q) [
    | none ↦ none
    | some (none, q') ↦ some (false, none, q')
    | some (some v, q') ↦ some (true, if wanted then some v else none, q')
  ]

  -- The slots from the ticket `t` on hold these values, each marked as ready.
  abbrev pub Full : M → ℕ → List A → Type ℓ
  Full mem t [] = Unit
  Full mem t (x ∷ xs) = (R.number t mem ≡ t + 1) × (R.value t mem ≡ x) × Full mem (t + 1) xs

  -- A queue between calls.
  pub record Holds (xs : List A) (q : Queue M) : Type ℓ where
    pub at : q.head ≡ q.tail + length xs
    pub fits : length xs ≤ 2 ^ k
    pub full : Full q.slots q.tail xs
    pub free : (c : ℕ) → q.head ≤ c → c < q.tail + 2 ^ k → R.number c q.slots ≡ c

module _ {ℓ} {A M : Type ℓ} (k : ℕ) (R : Ring A M) (law : Lawful k R) where
  -- What is stored to another slot changes none of them.
  pub Full-elsewhere :
      (mem mem' : M) (p t : ℕ) (xs : List A)
      → ((d : ℕ)
          → d % 2 ^ k ≢ p % 2 ^ k
          → (R.number d mem' ≡ R.number d mem) × (R.value d mem' ≡ R.value d mem))
      → ((d : ℕ) → t ≤ d → d < t + length xs → d % 2 ^ k ≢ p % 2 ^ k)
      → Full k R mem t xs
      → Full k R mem' t xs
  Full-elsewhere mem mem' p t [] same apart f = tt
  Full-elsewhere mem mem' p t (x ∷ xs) same apart (n, v, f) =
      let (sn, sv) = same t (apart t (omega arith) (omega arith)) in
      (
        sn ∙ n,
        sv ∙ v,
        Full-elsewhere mem mem' p (t + 1) xs same (λ d a b. apart d (omega arith) (omega arith)) f,
      )

  pub Full-snoc :
      (mem : M) (t : ℕ) (xs : List A) (v : A)
      → Full k R mem t xs
      → R.number (t + length xs) mem ≡ t + length xs + 1
      → R.value (t + length xs) mem ≡ v
      → Full k R mem t (xs ++ (v ∷ []))
  Full-snoc mem t [] v f n e = (
    ap (λ x. R.number x mem) {x = t} (omega arith) ∙ n ∙ omega arith,
    ap (λ x. R.value x mem) {x = t} (omega arith) ∙ e,
    tt,
  )
  Full-snoc mem t (x ∷ xs) v (a, b, f) n e =
      let there : t + 1 + length xs ≡ t + length (x ∷ xs) = omega arith in
      (
        a,
        b,
        Full-snoc mem (t + 1) xs v f (ap (λ y. R.number y mem) there ∙ n ∙ omega arith)
            (ap (λ y. R.value y mem) there ∙ e),
      )
