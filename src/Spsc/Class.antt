-- ===== src/Spsc/Class.antt =====
-- The public calls of the SPSC classes of include/. A class of the same family is a value of this
-- record, so that one statement serves for each.
use lock_free_stuffs.Prelude.{ℕ, Bool, Option}

pub record Class {ℓ} (A Q : Type ℓ) : Type ℓ where
  pub emplace : ℕ → A → Q → Option (ℕ × Q)
  pub pop : ℕ → Q → Option (ℕ × A × Q)
  pub try_emplace : A → Q → Bool × Q
  pub try_pop : Q → Option A × Q
  pub enqueue : A → Q → Bool × Q
  pub front : Q → Option ℕ × Q
  pub discard : Q → Q
  pub dequeue : Q → Option A × Q
  pub try_dequeue : Bool → Q → Bool × Option A × Q
  pub empty : Q → Bool
  pub size : Q → ℕ
  pub capacity : ℕ
