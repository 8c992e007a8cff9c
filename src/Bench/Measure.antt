-- ===== src/Bench/Measure.antt =====
-- bench/queue_measure.h: the throughput measurement of a single-producer single-consumer queue. A
-- producer sends 1, 2, ... up to a last message that ends the consumer, which adds up the others. The
-- queue is one of those of the Spsc modules, and each call of it goes step by step as there; a call
-- that the nonblocking mode repeats is one that gives up and is begun again. The statistics are asked
-- for, as run_retry_profile_benchmark of bench/queue_measure.cpp does. A step gets the reading of
-- the clock, should it take one.
pub mod Triangle
pub mod Sum
pub mod Order
pub mod Tests
use lock_free_stuffs.Prelude.{
  ℕ, ◌+◌, ◌-◌, ◌%◌, ◌^◌, ◌≤◌, ◌≡◌, Bool, true, false, not, leb, max, ◌==◌, if◌then◌else◌, add_size,
  sub_size,
}
use lock_free_stuffs.Spsc.Protocol.{Protocol}
use lock_free_stuffs.Spsc.Machine.{Producer, Consumer, Machine, start, produce, consume}

pub record RetryStats : Type 0 where
  pub false_returns : ℕ
  pub stalled_successes : ℕ
  pub max_streak : ℕ
  pub total_stall_cycles : ℕ

abbrev pub no_stats : RetryStats
no_stats = record {
  false_returns = 0;
  stalled_successes = 0;
  max_streak = 0;
  total_stall_cycles = 0;
}

-- RetryStats::record
unfoldable pub record_stall : ℕ → ℕ → RetryStats → RetryStats
record_stall streak cycles s = record {
  false_returns = add_size s.false_returns streak;
  stalled_successes = add_size s.stalled_successes 1;
  max_streak = max s.max_streak streak;
  total_stall_cycles = add_size s.total_stall_cycles cycles;
}

-- The locals of queue_push or queue_pop in its loop, and the statistics.
pub record Retry : Type 0 where
  pub streak : ℕ
  pub began : ℕ
  pub stats : RetryStats

-- The body of the loop, after a try that returned false.
unfoldable pub retry : ℕ → Retry → Retry
retry now r = record r {
  streak = add_size r.streak 1;
  began = if r.streak == 0 then now else r.began;
}

-- What follows the loop; the next call has locals of its own.
unfoldable pub succeed : ℕ → Retry → Retry
succeed now r = record {
  streak = 0;
  began = 0;
  stats = if r.streak == 0 then r.stats else record_stall r.streak (sub_size now r.began) r.stats;
}

-- message_count, the queue with its two threads, and their locals: `n` of the producer, `sum` of the
-- consumer, who has `finished` once it has left its loop.
pub record Bench (Q : Type 0) : Type 0 where
  pub machine : Machine ℕ Q
  pub n : ℕ
  pub pushing : Retry
  pub sum : ℕ
  pub finished : Bool
  pub popping : Retry

-- `message_count + 1`, an unsigned of 32 bits
unfoldable pub stop_message : ℕ → ℕ
stop_message message_count = (message_count + 1) % 2 ^ 32

abbrev pub begin : {Q : Type 0} → Q → Bench Q
begin q = record {
  machine = start q;
  n = 1;
  pushing = record { streak = 0; began = 0; stats = no_stats };
  sum = 0;
  finished = false;
  popping = record { streak = 0; began = 0; stats = no_stats };
}

module _ {Q : Type 0} (p : Protocol ℕ Q) (blocking : Bool) (message_count : ℕ) where
  -- The head of the producer's loop, and the call.
  unfoldable pub call_push : Bench Q → Bench Q
  call_push b =
      if leb b.n (stop_message message_count)
      then record b {
        machine = record b.machine { producer = Producer.trying blocking (b.n % 2 ^ 32) };
      }
      else b

  -- the next step of the producer, which is at `c`
  unfoldable pub push_step : ℕ → Producer ℕ → Bench Q → Bench Q
  push_step now Producer.idle b = call_push b
  push_step now (Producer.trying waits v) b = record b {
    machine = produce p (Producer.trying waits v) b.machine;
    pushing =
        if waits
        then b.pushing
        else if (p.reserve b.machine.queue).0
        then b.pushing
        else retry now b.pushing;
  }
  push_step now (Producer.writing v) b = record b {
    machine = produce p (Producer.writing v) b.machine;
  }
  push_step now (Producer.publishing v) b = record b {
    machine = produce p (Producer.publishing v) b.machine;
    n = add_size b.n 1;
    pushing = succeed now b.pushing;
  }

  -- The consumer's call, unless it has left its loop.
  unfoldable pub call_pop : Bench Q → Bench Q
  call_pop b =
      if b.finished
      then b
      else record b { machine = record b.machine { consumer = Consumer.trying blocking } }

  -- What the consumer does with a message.
  unfoldable pub receive : ℕ → Bench Q → Bench Q
  receive v b =
      if v == stop_message message_count
      then record b { finished = true }
      else record b { sum = add_size b.sum v }

  -- the next step of the consumer, which is at `c`
  unfoldable pub pop_step : ℕ → Consumer ℕ → Bench Q → Bench Q
  pop_step now Consumer.idle b = call_pop b
  pop_step now (Consumer.trying waits) b = record b {
    machine = consume p (Consumer.trying waits) b.machine;
    popping =
        if waits
        then b.popping
        else if (p.acquire b.machine.queue).0
        then b.popping
        else retry now b.popping;
  }
  pop_step now Consumer.reading b = record b { machine = consume p Consumer.reading b.machine }
  pop_step now (Consumer.retiring v) b = receive v (record b {
    machine = consume p (Consumer.retiring v) b.machine;
    popping = succeed now b.popping;
  })
  pop_step now Consumer.crashed b = b

  -- Either thread goes next, and the clock shows `now`.
  pub data Step (b : Bench Q) : Bench Q → Type 0 where
    pushes : (now : ℕ) → Step b (push_step now b.machine.producer b)
    pops : (now : ℕ) → Step b (pop_step now b.machine.consumer b)

  pub data Reach (q : Q) : Bench Q → Type 0 where
    here : Reach q (begin q)
    next : {b b' : Bench Q} → Reach q b → Step b b' → Reach q b'
