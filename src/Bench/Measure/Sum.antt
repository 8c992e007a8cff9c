-- ===== src/Bench/Measure/Sum.antt =====
-- bench/queue_measure.h: what the consumer has added up when it leaves its loop, for any queue that
-- meets the laws of the protocol.
use lock_free_stuffs.Prelude.{
  ℕ, suc, ◌+◌, ◌-◌, ◌%◌, ◌^◌, ◌<◌, ◌≤◌, ◌≡◌, refl, sym, ap, ◌∙◌, subst, Bool, true, false, List, [],
  ◌∷◌, ◌++◌, append_assoc, append-nil, leb, ◌==◌, ==→eq, if◌then◌else◌, if_split, add_size, arith,
}
use lock_free_stuffs.Spsc.Protocol.{Protocol, Laws, Phase, quiet}
use lock_free_stuffs.Spsc.Machine
use lock_free_stuffs.Spsc.Machine.{
  Producer, Consumer, Machine, produce, consume, producer_goes, consumer_goes, begin_push,
  begin_pop,
}
use lock_free_stuffs.Spsc.Order.{Reach-InOrder}
use lock_free_stuffs.Bench.Measure.{
  Bench, stop_message, begin, call_push, push_step, call_pop, receive, succeed, pop_step, Reach,
  here, next, pushes, pops,
}
use lock_free_stuffs.Bench.Measure.Triangle.{range, triangle, triangle_le, range-snoc, range_next}

-- The producer is at the message `n`, if at any.
abbrev Sends : ℕ → ℕ → Producer ℕ → Type 0
Sends stop n Producer.idle = Unit
Sends stop n (Producer.trying b v) = (v ≡ n) × (n ≤ stop)
Sends stop n (Producer.writing v) = (v ≡ n) × (n ≤ stop)
Sends stop n (Producer.publishing v) = (v ≡ n) × (n ≤ stop)

-- What the consumer has, once it has got the first `count` messages.
abbrev Added : ℕ → ℕ → ℕ → Bool → Type 0
Added stop count sum true = (count ≡ stop) × (0 < stop) × (sum ≡ triangle (stop - 1))
Added stop count sum false = (sum ≡ triangle count) × ((0 < stop) → count < stop)

module _ {Q : Type 0} {cap : ℕ} {p : Protocol ℕ Q} {Rep : Phase ℕ → Bool → List ℕ → Q → Type 0}
    (laws : Laws cap p Rep) {q : Q} (rep : Rep quiet false [] q) (blocking : Bool)
    (message_count : ℕ) where
  abbrev stop : ℕ
  stop = stop_message message_count

  record Inv (b : Bench Q) : Type 0 where
    reach : Machine.Reach p q b.machine
    sent : b.machine.pushed ≡ range 1 (b.n - 1)
    at_least : 1 ≤ b.n
    at_most : b.n ≤ stop + 1
    sends : Sends stop b.n b.machine.producer
    count : ℕ
    got : b.machine.popped ≡ range 1 count
    added : Added stop count b.sum b.finished

  stop_lt : stop < 2 ^ 32
  unfolding stop_message
  stop_lt = omega arith

  after_try :
      (n v : ℕ) (room waits : Bool)
      → (v ≡ n) × (n ≤ stop)
      → Sends stop n (
          if room
          then Producer.writing v
          else if waits
          then Producer.trying true v
          else Producer.idle)
  after_try n v true waits h = h
  after_try n v false true h = h
  after_try n v false false h = tt

  produced :
      (c : Producer ℕ) (b : Bench Q)
      → b.machine.producer ≡ c
      → Inv b
      → Machine.Reach p q (produce p c b.machine)
  produced c b at inv =
      subst (λ c. Machine.Reach p q (produce p c b.machine)) at
        (Machine.next inv.reach producer_goes)

  call_push-Inv :
      (b : Bench Q)
      → b.machine.producer ≡ Producer.idle
      → Inv b
      → Inv (call_push p blocking message_count b)
  unfolding call_push
  call_push-Inv b at inv =
      if_split (λ (b' : Bench Q). Inv b') (leb b.n (stop_message message_count))
        (λ more.
          let le : b.n ≤ stop = ground (arith, more) in
          record {
            reach = Machine.next inv.reach (begin_push blocking (b.n % 2 ^ 32) at);
            sent = inv.sent;
            at_least = inv.at_least;
            at_most = inv.at_most;
            sends = (omega (arith, le, stop_lt), le);
            count = inv.count;
            got = inv.got;
            added = inv.added;
          })
        (λ done. inv)

  push_step-Inv :
      (now : ℕ) (c : Producer ℕ) (b : Bench Q)
      → b.machine.producer ≡ c
      → Inv b
      → Inv (push_step p blocking message_count now c b)
  unfolding push_step produce
  push_step-Inv now Producer.idle b at inv = call_push-Inv b at inv
  push_step-Inv now (Producer.trying waits v) b at inv = record {
    reach = produced (Producer.trying waits v) b at inv;
    sent = inv.sent;
    at_least = inv.at_least;
    at_most = inv.at_most;
    sends =
        after_try b.n v (p.reserve b.machine.queue).0 waits
          (subst (λ c. Sends stop b.n c) at inv.sends);
    count = inv.count;
    got = inv.got;
    added = inv.added;
  }
  push_step-Inv now (Producer.writing v) b at inv = record {
    reach = produced (Producer.writing v) b at inv;
    sent = inv.sent;
    at_least = inv.at_least;
    at_most = inv.at_most;
    sends = subst (λ c. Sends stop b.n c) at inv.sends;
    count = inv.count;
    got = inv.got;
    added = inv.added;
  }
  push_step-Inv now (Producer.publishing v) b at inv =
      let (e, le) = subst (λ c. Sends stop b.n c) at inv.sends in
      let up : add_size b.n 1 ≡ b.n + 1 = omega (arith, le, stop_lt) in
      record {
        reach = produced (Producer.publishing v) b at inv;
        sent =
            ap (λ l. l ++ (v ∷ [])) inv.sent
            ∙ ap (λ t. range 1 (b.n - 1) ++ (t ∷ [])) {x = v} {y = 1 + (b.n - 1)}
                (omega (arith, e, inv.at_least))
            ∙ range-snoc 1 (b.n - 1)
            ∙ ap (range 1) {x = suc (b.n - 1)} {y = add_size b.n 1 - 1}
                (omega (arith, up, inv.at_least));
        at_least = omega (arith, up);
        at_most = omega (arith, up, le);
        sends = tt;
        count = inv.count;
        got = inv.got;
        added = inv.added;
      }

  consumed :
      (c : Consumer ℕ) (b : Bench Q)
      → b.machine.consumer ≡ c
      → Inv b
      → Machine.Reach p q (consume p c b.machine)
  consumed c b at inv =
      subst (λ c. Machine.Reach p q (consume p c b.machine)) at
        (Machine.next inv.reach consumer_goes)

  -- The next message that is got, if any is, is the next that was sent.
  next_message :
      (v : ℕ) (b : Bench Q)
      → b.machine.consumer ≡ Consumer.retiring v
      → (inv : Inv b) → (v ≡ 1 + inv.count) × (inv.count < stop)
  unfolding consume
  next_message v b at inv =
      let (queued, ordered, fits, sound) =
        Reach-InOrder laws rep (consumed (Consumer.retiring v) b at inv) in
      let (a, lt) = range_next 1 inv.count (b.n - 1) v queued (
        sym (append_assoc (range 1 inv.count) (v ∷ []) queued)
        ∙ ap (λ l. (l ++ (v ∷ [])) ++ queued) (sym inv.got)
        ∙ sym ordered
        ∙ inv.sent) in
      (a, omega (arith, lt, inv.at_most))

  sum_next :
      (v n sum : ℕ) (finished : Bool)
      → v ≡ 1 + n
      → n < stop
      → Added stop n sum finished
      → (v == stop ≡ true → Added stop (n + 1) sum true)
        × (v == stop ≡ false → Added stop (n + 1) (add_size sum v) finished)
  unfolding triangle
  sum_next v n sum true e lt (c, pos, s) = absurd (omega (arith, c, lt))
  sum_next v n sum false e lt (s, below) = (
    (λ last.
        let at = ==→eq v stop last in
        (omega (arith, at, e), omega (arith, lt), s ∙ ap triangle (omega (arith, at, e)))),
    (λ more. (
      omega (arith, s, e, stop_lt, triangle_le n (omega (arith, lt, stop_lt)), ap triangle up),
      (λ pos. ground (arith, more, e, lt)),
    )),
  )
    where
      up : n + 1 ≡ suc n
      up = omega arith

  receive-Added :
      (v n : ℕ) (b : Bench Q)
      → v ≡ 1 + n
      → n < stop
      → Added stop n b.sum b.finished
      → (let b' : Bench Q = receive p blocking message_count v b in
          Added stop (n + 1) b'.sum b'.finished)
  unfolding receive
  receive-Added v n b e lt added =
      let (last, more) = sum_next v n b.sum b.finished e lt added in
      if_split (λ (b' : Bench Q). Added stop (n + 1) b'.sum b'.finished) (v == stop) last more

  received :
      (v : ℕ) (b : Bench Q)
      → ((receive p blocking message_count v b).machine ≡ b.machine)
        × ((receive p blocking message_count v b).n ≡ b.n)
  unfolding receive
  received v b =
      if_split (λ (b' : Bench Q). (b'.machine ≡ b.machine) × (b'.n ≡ b.n)) (v == stop)
        (λ e. (refl, refl)) (λ e. (refl, refl))

  call_pop-Inv :
      (b : Bench Q)
      → b.machine.consumer ≡ Consumer.idle
      → Inv b
      → Inv (call_pop p blocking message_count b)
  unfolding call_pop
  call_pop-Inv b at inv =
      if_split (λ (b' : Bench Q). Inv b') b.finished (λ done. inv)
        (λ more. record {
          reach = Machine.next inv.reach (begin_pop blocking at);
          sent = inv.sent;
          at_least = inv.at_least;
          at_most = inv.at_most;
          sends = inv.sends;
          count = inv.count;
          got = inv.got;
          added = inv.added;
        })

  pop_step-Inv :
      (now : ℕ) (c : Consumer ℕ) (b : Bench Q)
      → b.machine.consumer ≡ c
      → Inv b
      → Inv (pop_step p blocking message_count now c b)
  unfolding pop_step consume
  pop_step-Inv now Consumer.idle b at inv = call_pop-Inv b at inv
  pop_step-Inv now (Consumer.trying waits) b at inv = record {
    reach = consumed (Consumer.trying waits) b at inv;
    sent = inv.sent;
    at_least = inv.at_least;
    at_most = inv.at_most;
    sends = inv.sends;
    count = inv.count;
    got = inv.got;
    added = inv.added;
  }
  pop_step-Inv now Consumer.reading b at inv = record {
    reach = consumed Consumer.reading b at inv;
    sent = inv.sent;
    at_least = inv.at_least;
    at_most = inv.at_most;
    sends = inv.sends;
    count = inv.count;
    got = inv.got;
    added = inv.added;
  }
  pop_step-Inv now (Consumer.retiring v) b at inv =
      let (e, lt) = next_message v b at inv in
      let (same, same_n) = received v (got_one now v b) in
      record {
        reach =
            subst (λ m. Machine.Reach p q m) (sym same) (consumed (Consumer.retiring v) b at inv);
        sent = ap (λ m. m.pushed) same ∙ inv.sent ∙ ap (λ n. range 1 (n - 1)) (sym same_n);
        at_least = omega (arith, same_n, inv.at_least);
        at_most = omega (arith, same_n, inv.at_most);
        sends =
            subst
              (λ m. Sends stop (receive p blocking message_count v (got_one now v b)).n m.producer)
              (sym same) (subst (λ n. Sends stop n b.machine.producer) (sym same_n) inv.sends);
        count = inv.count + 1;
        got =
            ap (λ m. m.popped) same
            ∙ ap (λ l. l ++ (v ∷ [])) inv.got
            ∙ ap (λ t. range 1 inv.count ++ (t ∷ [])) e
            ∙ range-snoc 1 inv.count
            ∙ ap (range 1) {x = suc inv.count} {y = inv.count + 1} (omega arith);
        added = receive-Added v inv.count (got_one now v b) e lt inv.added;
      }
    where
      got_one : ℕ → ℕ → Bench Q → Bench Q
      got_one now v b = record b {
        machine = consume p (Consumer.retiring v) b.machine;
        popping = succeed now b.popping;
      }
  pop_step-Inv now Consumer.crashed b at inv = inv

  begin-Inv : Inv (begin q)
  unfolding range triangle
  begin-Inv = record {
    reach = Machine.here;
    sent = refl;
    at_least = omega arith;
    at_most = omega arith;
    sends = tt;
    count = 0;
    got = refl;
    added = (refl, (λ pos. pos));
  }

  Reach-Inv : {b : Bench Q} → Reach p blocking message_count q b → Inv b
  Reach-Inv here = begin-Inv
  Reach-Inv (next {b} r (pushes now)) = push_step-Inv now b.machine.producer b refl (Reach-Inv r)
  Reach-Inv (next {b} r (pops now)) = pop_step-Inv now b.machine.consumer b refl (Reach-Inv r)

  at_end :
      (count sum : ℕ) (finished : Bool)
      → finished ≡ true
      → Added stop count sum finished
      → Added stop count sum true
  at_end count sum finished e = subst (λ f. Added stop count sum f) e

  whole :
      (count : ℕ) (b : Bench Q)
      → b.machine.popped ≡ range 1 count
      → b.machine.pushed ≡ range 1 (b.n - 1)
      → b.n ≤ stop + 1
      → count ≡ stop
      → (queued : List ℕ) → b.machine.pushed ≡ b.machine.popped ++ queued
      → b.machine.pushed ≡ b.machine.popped
  whole count b got sent le all [] ordered = ordered ∙ append-nil b.machine.popped
  whole count b got sent le all (v ∷ queued) ordered =
      let (e, lt) =
        range_next 1 count (b.n - 1) v queued
          (ap (λ l. l ++ (v ∷ queued)) (sym got) ∙ sym ordered ∙ sent) in
      absurd (omega (arith, lt, all, le))

  -- Once the consumer has left its loop, all was sent and got, and the sum is that of the messages.
  pub finished_lem :
      {b : Bench Q}
      → Reach p blocking message_count q b
      → b.finished ≡ true
      → (0 < stop)
        × (b.sum ≡ triangle (stop - 1))
        × (b.machine.popped ≡ range 1 stop)
        × (b.machine.pushed ≡ b.machine.popped)
  finished_lem {b} r done =
      let inv = Reach-Inv r in
      let (count, pos, sum) = at_end inv.count b.sum b.finished done inv.added in
      let (queued, ordered, fits, sound) = Reach-InOrder laws rep inv.reach in
      (
        pos,
        sum,
        inv.got ∙ ap (range 1) count,
        whole inv.count b inv.got inv.sent inv.at_most count queued ordered,
      )
