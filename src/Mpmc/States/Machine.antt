-- ===== src/Mpmc/States/Machine.antt =====
-- include/mpmc_1.h: any number of threads, a step of one thread at a time. push (emplace) and pop
-- take a ticket by a fetch_add, try_emplace (try_push, enqueue) and try_pop (behind dequeue and
-- try_dequeue) by a weak compare and swap after they have tested both counters. Whoever has a ticket
-- claims its slot by a weak compare and swap of the state, and where this fails waits until the state
-- is the wanted one and claims again. `pushes`, `issued`, `last`, `got` and `served` record the run,
-- and no step reads them: `last` has for each slot the ticket of the push that last stored there, and
-- `served` the ticket of each pop that has ended with that of the push whose value it got.
use lock_free_stuffs.Prelude.{
  ℕ, ◌+◌, ◌%◌, ◌^◌, ◌≡◌, Option, none, some, List, [], ◌∷◌, ◌==◌, if◌then◌else◌, add_size,
}
use lock_free_stuffs.Spsc.Cells.{write}
use lock_free_stuffs.Mpmc.Machine.{set_thread}
use lock_free_stuffs.Mpmc.States.{
  storing, stored, loading, vacant, is_vacant, is_stored, Queue, new, buffer_index, state_index,
  looks_full, looks_empty, set_state, store_value,
}

-- Where a thread is, with the ticket that it has taken, or the counter that it has loaded.
pub data Thread {ℓ} (A : Type ℓ) : Type ℓ where
  idle : Thread A
  push_claims : ℕ → A → Thread A
  push_spins : ℕ → A → Thread A
  push_writes : ℕ → A → Thread A
  push_stores : ℕ → A → Thread A
  pop_claims : ℕ → Thread A
  pop_spins : ℕ → Thread A
  pop_reads : ℕ → Thread A
  pop_frees : ℕ → A → Thread A
  try_push_loads : A → Thread A
  try_push_tests : ℕ → A → Thread A
  try_push_raises : ℕ → A → Thread A
  try_pop_loads : Thread A
  try_pop_tests : ℕ → Thread A
  try_pop_raises : ℕ → Thread A

pub record Machine {ℓ} (A : Type ℓ) : Type ℓ where
  pub queue : Queue A
  pub threads : ℕ → Thread A
  pub pushes : ℕ
  pub issued : ℕ → Option A
  pub last : ℕ → ℕ
  pub got : List (ℕ × A)
  pub served : List (ℕ × ℕ)

module _ {ℓ} {A : Type ℓ} where
  -- `head_` goes up by 1, and thread `i` has the ticket `pos` for a push of `v`.
  abbrev pub raise_head : ℕ → ℕ → A → Machine A → Machine A
  raise_head i pos v m = record m {
    queue = record m.queue { head = add_size m.queue.head 1 };
    threads = set_thread i (push_claims pos v) m.threads;
    pushes = m.pushes + 1;
    issued = λ c. if c == m.pushes then some v else m.issued c;
  }

  -- `tail_` goes up by 1, and thread `i` has the ticket `pos` for a pop.
  abbrev pub raise_tail : ℕ → ℕ → Machine A → Machine A
  raise_tail i pos m = record m {
    queue = record m.queue { tail = add_size m.queue.tail 1 };
    threads = set_thread i (pop_claims pos) m.threads;
  }

  -- `head_.fetch_add(1)` of a push of `v`
  unfoldable pub take_push : ℕ → A → Machine A → Machine A
  take_push i v m = raise_head i m.queue.head v m

  -- `tail_.fetch_add(1)` of a pop
  unfoldable pub take_pop : ℕ → Machine A → Machine A
  take_pop i m = raise_tail i m.queue.tail m

  -- A weak compare and swap may fail without cause; one of a counter leaves what it has loaded.
  unfoldable pub fail : ℕ → Thread A → Machine A → Machine A
  fail i (push_claims pos v) m = record m { threads = set_thread i (push_spins pos v) m.threads }
  fail i (pop_claims pos) m = record m { threads = set_thread i (pop_spins pos) m.threads }
  fail i (try_push_raises pos v) m = record m {
    threads = set_thread i (try_push_tests m.queue.head v) m.threads;
  }
  fail i (try_pop_raises pos) m = record m {
    threads = set_thread i (try_pop_tests m.queue.tail) m.threads;
  }
  fail i _ m = m

module _ {ℓ} {A : Type ℓ} (k elem : ℕ) where
  -- the next step of thread `i`, which is at `t`
  unfoldable pub go : ℕ → Thread A → Machine A → Machine A
  go i idle m = m
  go i (push_claims pos v) m =
      if is_vacant (m.queue.states (state_index k pos))
      then record m {
        queue = set_state k elem pos storing m.queue;
        threads = set_thread i (push_writes pos v) m.threads;
      }
      else record m { threads = set_thread i (push_spins pos v) m.threads }
  go i (push_spins pos v) m = record m {
    threads =
        set_thread i
          (if is_vacant (m.queue.states (state_index k pos))
            then push_claims pos v
            else push_spins pos v)
          m.threads;
  }
  go i (push_writes pos v) m = record m {
    queue = store_value k elem pos v m.queue;
    threads = set_thread i (push_stores pos v) m.threads;
  }
  go i (push_stores pos v) m = record m {
    queue = set_state k elem pos stored m.queue;
    threads = set_thread i idle m.threads;
    last = write m.last (pos % 2 ^ k) pos;
  }
  go i (pop_claims pos) m =
      if is_stored (m.queue.states (state_index k pos))
      then record m {
        queue = set_state k elem pos loading m.queue;
        threads = set_thread i (pop_reads pos) m.threads;
      }
      else record m { threads = set_thread i (pop_spins pos) m.threads }
  go i (pop_spins pos) m = record m {
    threads =
        set_thread i
          (if is_stored (m.queue.states (state_index k pos)) then pop_claims pos else pop_spins pos)
          m.threads;
  }
  go i (pop_reads pos) m = record m {
    threads = set_thread i (pop_frees pos (m.queue.buffer (buffer_index k elem pos))) m.threads;
  }
  go i (pop_frees pos v) m = record m {
    queue = set_state k elem pos vacant m.queue;
    threads = set_thread i idle m.threads;
    got = (m.last (pos % 2 ^ k), v) ∷ m.got;
    served = (pos, m.last (pos % 2 ^ k)) ∷ m.served;
  }
  go i (try_push_loads v) m = record m {
    threads = set_thread i (try_push_tests m.queue.head v) m.threads;
  }
  go i (try_push_tests pos v) m = record m {
    threads =
        set_thread i
          (if looks_full k (record m.queue { head = pos }) then idle else try_push_raises pos v)
          m.threads;
  }
  go i (try_push_raises pos v) m =
      if m.queue.head == pos
      then raise_head i pos v m
      else record m { threads = set_thread i (try_push_tests m.queue.head v) m.threads }
  go i try_pop_loads m = record m { threads = set_thread i (try_pop_tests m.queue.tail) m.threads }
  go i (try_pop_tests pos) m = record m {
    threads =
        set_thread i
          (if looks_empty (record m.queue { tail = pos }) then idle else try_pop_raises pos)
          m.threads;
  }
  go i (try_pop_raises pos) m =
      if m.queue.tail == pos
      then raise_tail i pos m
      else record m { threads = set_thread i (try_pop_tests m.queue.tail) m.threads }

  -- Any thread may go next; an idle thread may begin a call.
  pub data Step (m : Machine A) : Machine A → Type ℓ where
    begin_push : (i : ℕ) (v : A) → m.threads i ≡ idle → Step m (take_push i v m)
    begin_pop : (i : ℕ) → m.threads i ≡ idle → Step m (take_pop i m)
    begin_try_push :
        (i : ℕ) (v : A)
        → m.threads i ≡ idle
        → Step m (record m { threads = set_thread i (try_push_loads v) m.threads })
    begin_try_pop :
        (i : ℕ)
        → m.threads i ≡ idle
        → Step m (record m { threads = set_thread i try_pop_loads m.threads })
    goes : (i : ℕ) → Step m (go i (m.threads i) m)
    fails : (i : ℕ) → Step m (fail i (m.threads i) m)

  abbrev pub start : (ℕ → A) → Machine A
  start raw = record {
    queue = new raw;
    threads = λ i. idle;
    pushes = 0;
    issued = λ c. none;
    last = λ p. 0;
    got = [];
    served = [];
  }

  pub data Reach (raw : ℕ → A) : Machine A → Type ℓ where
    here : Reach raw (start raw)
    next : {m m' : Machine A} → Reach raw m → Step m m' → Reach raw m'
