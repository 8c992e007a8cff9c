-- ===== src/Mpmc/Machine.antt =====
-- include/mpmc_seq.h and include/mpmc_seq_split.h: any number of threads, a step of one thread at a
-- time. push (emplace) and pop take a ticket from head_ or tail_ and wait until its slot's number
-- gives them the turn; try_emplace (try_push, enqueue) and try_pop (behind dequeue and try_dequeue)
-- load the counter, test the number, and take the ticket by a weak compare and swap if it is the
-- turn. Where wait_for_sequence tests twice it goes on at the second, so its end is one test.
-- `pushes`, `pops`, `issued` and `got` record the run, and no step reads them.
use lock_free_stuffs.Prelude.{
  ℕ, ◌+◌, ◌%◌, ◌^◌, ◌≡◌, Bool, Option, none, some, List, [], ◌∷◌, ◌==◌, if◌then◌else◌, add_size,
  ltb, word,
}
use lock_free_stuffs.Mpmc.Ring.{Queue, Ring}

-- Where a thread is, with the ticket that it has taken, or the counter that it has loaded.
pub data Thread {ℓ} (A : Type ℓ) : Type ℓ where
  idle : Thread A
  push_waits : ℕ → A → Thread A
  push_writes : ℕ → A → Thread A
  push_publishes : ℕ → A → Thread A
  pop_waits : ℕ → Thread A
  pop_reads : ℕ → Thread A
  pop_frees : ℕ → A → Thread A
  try_push_loads : A → Thread A
  try_push_tests : ℕ → A → Thread A
  try_push_claims : ℕ → A → Thread A
  try_pop_loads : Thread A
  try_pop_tests : ℕ → Thread A
  try_pop_claims : ℕ → Thread A

pub record Machine {ℓ} (A M : Type ℓ) : Type ℓ where
  pub queue : Queue M
  pub threads : ℕ → Thread A
  pub pushes : ℕ
  pub pops : ℕ
  pub issued : ℕ → Option A
  pub got : List (ℕ × A)

-- `diff < 0`, on the signed values of the two numbers
unfoldable pub behind : ℕ → ℕ → Bool
behind observed expected = ltb ((observed + 2 ^ 63) % word) ((expected + 2 ^ 63) % word)

abbrev pub set_thread {ℓ} : {T : Type ℓ} → ℕ → T → (ℕ → T) → ℕ → T
set_thread i t threads j = if j == i then t else threads j

module _ {ℓ} {A M : Type ℓ} where
  -- `head_` goes up by 1 for a push of `v` by thread `i`, who goes on at `t`.
  abbrev pub raise_head : ℕ → Thread A → A → Machine A M → Machine A M
  raise_head i t v m = record m {
    queue = record m.queue { head = add_size m.queue.head 1 };
    threads = set_thread i t m.threads;
    pushes = m.pushes + 1;
    issued = λ c. if c == m.pushes then some v else m.issued c;
  }

  -- `tail_` goes up by 1 for a pop.
  abbrev pub raise_tail : ℕ → Thread A → Machine A M → Machine A M
  raise_tail i t m = record m {
    queue = record m.queue { tail = add_size m.queue.tail 1 };
    threads = set_thread i t m.threads;
    pops = m.pops + 1;
  }

  -- `head_.fetch_add(1)` of a push of `v`
  unfoldable pub take_push : ℕ → A → Machine A M → Machine A M
  take_push i v m = raise_head i (push_waits m.queue.head v) v m

  -- `tail_.fetch_add(1)` of a pop
  unfoldable pub take_pop : ℕ → Machine A M → Machine A M
  take_pop i m = raise_tail i (pop_waits m.queue.tail) m

  -- A weak compare and swap may fail without cause.
  unfoldable pub fail : ℕ → Thread A → Machine A M → Machine A M
  fail i (try_push_claims pos v) m = record m {
    threads = set_thread i (try_push_loads v) m.threads;
  }
  fail i (try_pop_claims pos) m = record m { threads = set_thread i try_pop_loads m.threads }
  fail i _ m = m

module _ {ℓ} {A M : Type ℓ} (k : ℕ) (R : Ring A M) where
  -- the test that ends wait_for_sequence, and `diff == 0`
  unfoldable pub has_turn : ℕ → ℕ → Queue M → Bool
  has_turn pos expected q = R.number pos q.slots == expected

  -- the next step of thread `i`, which is at `t`
  unfoldable pub go : ℕ → Thread A → Machine A M → Machine A M
  go i idle m = m
  go i (push_waits pos v) m = record m {
    threads =
        set_thread i (if has_turn pos pos m.queue then push_writes pos v else push_waits pos v)
          m.threads;
  }
  go i (push_writes pos v) m = record m {
    queue = record m.queue { slots = R.store_value pos v m.queue.slots };
    threads = set_thread i (push_publishes pos v) m.threads;
  }
  go i (push_publishes pos v) m = record m {
    queue = record m.queue { slots = R.store_number pos (add_size pos 1) m.queue.slots };
    threads = set_thread i idle m.threads;
  }
  go i (pop_waits pos) m = record m {
    threads =
        set_thread i
          (if has_turn pos (add_size pos 1) m.queue then pop_reads pos else pop_waits pos)
          m.threads;
  }
  go i (pop_reads pos) m = record m {
    threads = set_thread i (pop_frees pos (R.value pos m.queue.slots)) m.threads;
  }
  go i (pop_frees pos v) m = record m {
    queue = record m.queue { slots = R.store_number pos (add_size pos (2 ^ k)) m.queue.slots };
    threads = set_thread i idle m.threads;
    got = (pos, v) ∷ m.got;
  }
  go i (try_push_loads v) m = record m {
    threads = set_thread i (try_push_tests m.queue.head v) m.threads;
  }
  go i (try_push_tests pos v) m = record m {
    threads =
        set_thread i
          (if has_turn pos pos m.queue
            then try_push_claims pos v
            else if behind (R.number pos m.queue.slots) pos
            then idle
            else try_push_loads v)
          m.threads;
  }
  go i (try_push_claims pos v) m =
      if m.queue.head == pos
      then raise_head i (push_writes pos v) v m
      else record m { threads = set_thread i (try_push_loads v) m.threads }
  go i try_pop_loads m = record m { threads = set_thread i (try_pop_tests m.queue.tail) m.threads }
  go i (try_pop_tests pos) m = record m {
    threads =
        set_thread i
          (if has_turn pos (add_size pos 1) m.queue
            then try_pop_claims pos
            else if behind (R.number pos m.queue.slots) (add_size pos 1)
            then idle
            else try_pop_loads)
          m.threads;
  }
  go i (try_pop_claims pos) m =
      if m.queue.tail == pos
      then raise_tail i (pop_reads pos) m
      else record m { threads = set_thread i try_pop_loads m.threads }

  -- Any thread may go next; an idle thread may begin a call.
  pub data Step (m : Machine A M) : Machine A M → Type ℓ where
    begin_push : (i : ℕ) (v : A) → m.threads i ≡ idle → Step m (take_push i v m)
    begin_pop : (i : ℕ) → m.threads i ≡ idle → Step m (take_pop i m)
    begin_try_push :
        (i : ℕ) (v : A)
        → m.threads i ≡ idle
        → Step m (record m { threads = set_thread i (try_push_loads v) m.threads })
    begin_try_pop :
        (i : ℕ)
        → m.threads i ≡ idle
        → Step m (record m { threads = set_thread i try_pop_loads m.threads })
    goes : (i : ℕ) → Step m (go i (m.threads i) m)
    fails : (i : ℕ) → Step m (fail i (m.threads i) m)

  -- The constructor leaves `made`.
  abbrev pub start : M → Machine A M
  start made = record {
    queue = record { head = 0; tail = 0; slots = made };
    threads = λ i. idle;
    pushes = 0;
    pops = 0;
    issued = λ c. none;
    got = [];
  }

  pub data Reach (made : M) : Machine A M → Type ℓ where
    here : Reach made (start made)
    next : {m m' : Machine A M} → Reach made m → Step m m' → Reach made m'
