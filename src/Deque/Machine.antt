-- ===== src/Deque/Machine.antt =====
-- include/work_steal_deque.h: the owner and any number of thieves, a step at a time. A step is the
-- source's statements up to the next access of memory that another thread writes; slots are written
-- by the owner only, so it reads a slot in the step that makes the value its own. `log` records what
-- the calls do when they take effect and `counted` how many values were pushed; no step reads them.
use lock_free_stuffs.Prelude.{
  ℕ, ◌+◌, ◌≡◌, List, [], ◌∷◌, ◌++◌, length, take, leb, ltb, ◌==◌, if◌then◌else◌, add_size, sub_size,
}
use lock_free_stuffs.Deque.{
  Deque, new, has_space, has_item, store, load, room, set_bottom, settle, cas_top, refresh,
}
use lock_free_stuffs.Deque.Spec.{Event, pushed, refused, popped, found_empty, stolen}

-- Where the owner is. A push of one value is a batch of one.
pub data Owner {ℓ} (A : Type ℓ) : Type ℓ where
  resting : Owner A
  testing : List A → Owner A
  storing : List A → List A → Owner A
  wanting : Owner A
  lowering : Owner A
  looking : Owner A
  contending : Owner A
  giving_back : ℕ → Owner A
  lost : ℕ → Owner A
  kept : Owner A

-- Where a thief is, with the top that it has loaded and the value that it has read.
pub data Thief {ℓ} (A : Type ℓ) : Type ℓ where
  away : Thief A
  loaded : ℕ → Thief A
  allowed : ℕ → Thief A
  holding : ℕ → A → Thief A

pub record Machine {ℓ} (A : Type ℓ) : Type ℓ where
  pub deque : Deque A
  pub owner : Owner A
  pub thieves : ℕ → Thief A
  pub log : List (Event A)
  pub counted : ℕ

abbrev pub start {ℓ} : {A : Type ℓ} → (ℕ → A) → Machine A
start raw = record { deque = new raw; owner = resting; thieves = λ i. away; log = []; counted = 0 }

module _ {ℓ} {A : Type ℓ} where
  abbrev pub set_thief : ℕ → Thief A → (ℕ → Thief A) → ℕ → Thief A
  set_thief i t thieves j = if j == i then t else thieves j

module _ {ℓ} {A : Type ℓ} (k elem : ℕ) where
  -- The owner's next step. `storing done todo` has stored `done` and will store `todo`; a batch of
  -- none does not begin.
  unfoldable pub own_step : Owner A → Machine A → Machine A
  own_step resting m = m
  own_step (testing vs) m =
      let (space, q) = has_space k elem m.deque in
      if space
      then record m { deque = q; owner = storing [] (take (room k elem (length vs) q) vs) }
      else record m { deque = q; owner = resting; log = refused ∷ m.log }
  own_step (storing done (v ∷ todo)) m = record m {
    deque = store k elem (add_size m.deque.bottom (length done)) v m.deque;
    owner = storing (done ++ (v ∷ [])) todo;
  }
  own_step (storing done []) m = record m {
    deque = set_bottom (add_size m.deque.bottom (length done)) m.deque;
    owner = resting;
    log = pushed done ∷ m.log;
    counted = m.counted + length done;
  }
  own_step wanting m =
      let (some_left, q) = has_item m.deque in
      if some_left
      then record m { deque = q; owner = lowering }
      else record m { deque = q; owner = resting; log = found_empty ∷ m.log }
  own_step lowering m = record m {
    deque = set_bottom (sub_size m.deque.bottom 1) m.deque;
    owner = looking;
  }
  own_step looking m =
      if ltb m.deque.bottom m.deque.top
      then record m { owner = giving_back m.deque.top }
      else if m.deque.top == m.deque.bottom
      then record m { owner = contending }
      else record m {
        deque = refresh m.deque;
        owner = resting;
        log = popped (load k elem m.deque.bottom m.deque) ∷ m.log;
      }
  own_step contending m =
      let (won, q) = cas_top m.deque.bottom m.deque in
      if won
      then record m {
        deque = q;
        owner = kept;
        log = popped (load k elem m.deque.bottom m.deque) ∷ m.log;
      }
      else record m { deque = q; owner = lost q.top }
  own_step (giving_back top) m = record m {
    deque = settle (add_size m.deque.bottom 1) top m.deque;
    owner = resting;
    log = found_empty ∷ m.log;
  }
  own_step (lost top) m = record m {
    deque = settle top top m.deque;
    owner = resting;
    log = found_empty ∷ m.log;
  }
  own_step kept m = record m {
    deque = settle (add_size m.deque.bottom 1) (add_size m.deque.bottom 1) m.deque;
    owner = resting;
  }

  -- the next step of thief `i`, who is at `t`
  unfoldable pub steal_step : ℕ → Thief A → Machine A → Machine A
  steal_step i away m = record m { thieves = set_thief i (loaded m.deque.top) m.thieves }
  steal_step i (loaded top) m = record m {
    thieves =
        set_thief i (if leb m.deque.published_bottom top then away else allowed top) m.thieves;
  }
  steal_step i (allowed top) m = record m {
    thieves = set_thief i (holding top (load k elem top m.deque)) m.thieves;
  }
  steal_step i (holding top v) m =
      let (won, q) = cas_top top m.deque in
      if won
      then record m { deque = q; thieves = set_thief i away m.thieves; log = stolen v ∷ m.log }
      else record m { deque = q; thieves = set_thief i away m.thieves }

  -- The owner may begin a call when it rests, and any thread may go next.
  pub data Step (m : Machine A) : Machine A → Type ℓ where
    begin_push :
        (v : A) (vs : List A) → m.owner ≡ resting → Step m (record m { owner = testing (v ∷ vs) })
    begin_pop : m.owner ≡ resting → Step m (record m { owner = wanting })
    owner_goes : Step m (own_step m.owner m)
    thief_goes : (i : ℕ) → Step m (steal_step i (m.thieves i) m)

  pub data Reach (raw : ℕ → A) : Machine A → Type ℓ where
    here : Reach raw (start raw)
    next : {m m' : Machine A} → Reach raw m → Step m m' → Reach raw m'
