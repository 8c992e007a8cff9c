-- ===== src/Mpmc/States/Rep.antt =====
-- include/mpmc_1.h: which queues hold which values between calls.
use lock_free_stuffs.Prelude.{
  ℕ, ◌+◌, ◌%◌, ◌^◌, ◌<◌, ◌≤◌, ◌≡◌, ◌≢◌, refl, ap, ◌∙◌, List, [], ◌∷◌, ◌++◌, length, arith,
}
use lock_free_stuffs.Mpmc.Split.{value_index}
use lock_free_stuffs.Mpmc.Split.Laws.{value_at, value_apart}
use lock_free_stuffs.Mpmc.States.{vacant, stored, Queue, new, buffer_index, state_index}

pub state_at : (k c d : ℕ) → c % 2 ^ k ≡ d % 2 ^ k → state_index k c ≡ state_index k d
unfolding state_index value_index
state_at k c d e = value_at k 1 c d e

pub state_apart : (k c d : ℕ) → d % 2 ^ k ≢ c % 2 ^ k → state_index k d ≢ state_index k c
unfolding state_index value_index
state_apart k c d ne = value_apart k 1 c d ne

pub buffer_apart :
    (k elem c d : ℕ) → d % 2 ^ k ≢ c % 2 ^ k → buffer_index k elem d ≢ buffer_index k elem c
unfolding buffer_index value_index
buffer_apart k elem c d ne = value_apart k elem c d ne

module _ {ℓ} {A : Type ℓ} (k elem : ℕ) where
  -- The slots from the ticket `t` on hold these values.
  abbrev pub Full : Queue A → ℕ → List A → Type ℓ
  Full q t [] = Unit
  Full q t (x ∷ xs) =
      (q.states (state_index k t) ≡ stored)
      × (q.buffer (buffer_index k elem t) ≡ x)
      × Full q (t + 1) xs

  -- A queue between calls.
  pub record Holds (xs : List A) (q : Queue A) : Type ℓ where
    pub at : q.head ≡ q.tail + length xs
    pub fits : length xs ≤ 2 ^ k
    pub full : Full q q.tail xs
    pub free : (c : ℕ) → q.head ≤ c → c < q.tail + 2 ^ k → q.states (state_index k c) ≡ vacant

  pub new-Holds : (raw : ℕ → A) → Holds [] (new raw)
  unfolding new
  new-Holds raw = record { at = refl; fits = omega arith; full = tt; free = λ c ge lt. refl }

  pub Full-elsewhere :
      (q q' : Queue A) (p t : ℕ) (xs : List A)
      → ((d : ℕ)
          → d % 2 ^ k ≢ p % 2 ^ k
          → (q'.states (state_index k d) ≡ q.states (state_index k d))
            × (q'.buffer (buffer_index k elem d) ≡ q.buffer (buffer_index k elem d)))
      → ((d : ℕ) → t ≤ d → d < t + length xs → d % 2 ^ k ≢ p % 2 ^ k)
      → Full q t xs
      → Full q' t xs
  Full-elsewhere q q' p t [] same apart f = tt
  Full-elsewhere q q' p t (x ∷ xs) same apart (n, v, f) =
      let (sn, sv) = same t (apart t (omega arith) (omega arith)) in
      (
        sn ∙ n,
        sv ∙ v,
        Full-elsewhere q q' p (t + 1) xs same (λ d a b. apart d (omega arith) (omega arith)) f,
      )

  pub Full-snoc :
      (q : Queue A) (t : ℕ) (xs : List A) (v : A)
      → Full q t xs
      → q.states (state_index k (t + length xs)) ≡ stored
      → q.buffer (buffer_index k elem (t + length xs)) ≡ v
      → Full q t (xs ++ (v ∷ []))
  Full-snoc q t [] v f n e = (
    ap (λ x. q.states (state_index k x)) {x = t} (omega arith) ∙ n,
    ap (λ x. q.buffer (buffer_index k elem x)) {x = t} (omega arith) ∙ e,
    tt,
  )
  Full-snoc q t (x ∷ xs) v (a, b, f) n e =
      let there : t + 1 + length xs ≡ t + length (x ∷ xs) = omega arith in
      (
        a,
        b,
        Full-snoc q (t + 1) xs v f (ap (λ y. q.states (state_index k y)) there ∙ n)
            (ap (λ y. q.buffer (buffer_index k elem y)) there ∙ e),
      )
