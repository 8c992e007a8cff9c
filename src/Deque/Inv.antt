-- ===== src/Deque/Inv.antt =====
-- include/work_steal_deque.h: what the owner and a thief may rely on, by where they are.
use lock_free_stuffs.Prelude.{ℕ, ◌+◌, ◌^◌, ◌≤◌, ◌≡◌, some, List, [], length}
use mathlib.Core.List.{head?}
use lock_free_stuffs.Deque.{Deque}
use lock_free_stuffs.Deque.Spec.{Runs}
use lock_free_stuffs.Deque.Rep.{Stands}
use lock_free_stuffs.Deque.Machine.{
  Owner, Thief, Machine, resting, testing, storing, wanting, lowering, looking, contending,
  giving_back, lost, kept, away, loaded, allowed, holding,
}

-- 1 while the bottom is lowered below the last value
abbrev pub off {ℓ} : {A : Type ℓ} → Owner A → ℕ
off looking = 1
off contending = 1
off (giving_back t) = 1
off (lost t) = 1
off kept = 1
off resting = 0
off (testing vs) = 0
off (storing done todo) = 0
off wanting = 0
off lowering = 0

-- the values that are stored and not yet published
abbrev pub pending {ℓ} : {A : Type ℓ} → Owner A → List A
pending (storing done todo) = done
pending resting = []
pending (testing vs) = []
pending wanting = []
pending lowering = []
pending looking = []
pending contending = []
pending (giving_back t) = []
pending (lost t) = []
pending kept = []

module _ {ℓ} {A : Type ℓ} (k elem : ℕ) where
  abbrev pub OwnerAt : Owner A → List A → Deque A → Type 0
  OwnerAt (storing done todo) xs q = q.bottom + length done + length todo ≤ q.top_cache + 2 ^ k
  OwnerAt lowering xs q = 1 ≤ q.bottom
  OwnerAt contending xs q = q.bottom ≤ q.top
  OwnerAt (giving_back t) xs q = (length xs ≡ 0) × (t ≡ q.top)
  OwnerAt (lost t) xs q = (length xs ≡ 0) × (t ≡ q.top)
  OwnerAt kept xs q = length xs ≡ 0
  OwnerAt resting xs q = Unit
  OwnerAt (testing vs) xs q = Unit
  OwnerAt wanting xs q = Unit
  OwnerAt looking xs q = Unit

  -- Where nobody has raised the top since a thief loaded it, its value is still the first.
  abbrev pub ThiefAt : Thief A → List A → ℕ → Type ℓ
  ThiefAt away xs top = Unit
  ThiefAt (loaded t) xs top = (t ≤ top) × Unit
  ThiefAt (allowed t) xs top = (t ≤ top) × (t ≡ top → (x : A) × (head? xs ≡ some x))
  ThiefAt (holding t v) xs top = (t ≤ top) × (t ≡ top → head? xs ≡ some v)

  pub record Inv (m : Machine A) : Type ℓ where
    pub values : List A
    pub runs : Runs (2 ^ k) m.log values
    pub stands : Stands k elem (off m.owner) (pending m.owner) values m.deque
    pub owner_at : OwnerAt m.owner values m.deque
    pub thief_at : (i : ℕ) → ThiefAt (m.thieves i) values m.deque.top
    pub counts : m.deque.top + length values ≤ m.counted
