-- ===== src/Spsc/Machine.antt =====
-- One producer thread and one consumer thread on a queue, a step at a time. A blocking call repeats
-- its test until it passes; a `try_` call gives up. `pushed` and `popped` record what the calls
-- that have taken effect have put and got, and no step reads them.
use lock_free_stuffs.Prelude.{◌≡◌, Bool, true, none, some, List, [], ◌∷◌, ◌++◌, if◌then◌else◌}
use lock_free_stuffs.Spsc.Protocol.{Protocol}

-- Where the producer is; `true` in `trying` is a blocking call.
pub data Producer {ℓ} (A : Type ℓ) : Type ℓ where
  idle : Producer A
  trying : Bool → A → Producer A
  writing : A → Producer A
  publishing : A → Producer A

-- Where the consumer is; `crashed` is a read of a slot that holds no object.
pub data Consumer {ℓ} (A : Type ℓ) : Type ℓ where
  idle : Consumer A
  trying : Bool → Consumer A
  reading : Consumer A
  retiring : A → Consumer A
  crashed : Consumer A

pub record Machine {ℓ} (A Q : Type ℓ) : Type ℓ where
  pub queue : Q
  pub producer : Producer A
  pub consumer : Consumer A
  pub pushed : List A
  pub popped : List A

abbrev pub start {ℓ} : {A Q : Type ℓ} → Q → Machine A Q
start q = record {
  queue = q;
  producer = Producer.idle;
  consumer = Consumer.idle;
  pushed = [];
  popped = [];
}

module _ {ℓ} {A Q : Type ℓ} (p : Protocol A Q) where
  -- the producer's next step
  unfoldable pub produce : Producer A → Machine A Q → Machine A Q
  produce Producer.idle m = m
  produce (Producer.trying blocking v) m =
      let (room, q) = p.reserve m.queue in
      record m {
        queue = q;
        producer =
            if room
            then Producer.writing v
            else if blocking
            then Producer.trying true v
            else Producer.idle;
      }
  produce (Producer.writing v) m = record m {
    queue = p.write_slot v m.queue;
    producer = Producer.publishing v;
  }
  produce (Producer.publishing v) m = record m {
    queue = p.publish_write m.queue;
    producer = Producer.idle;
    pushed = m.pushed ++ (v ∷ []);
  }

  -- the consumer's next step
  unfoldable pub consume : Consumer A → Machine A Q → Machine A Q
  consume Consumer.idle m = m
  consume (Consumer.trying blocking) m =
      let (ready, q) = p.acquire m.queue in
      record m {
        queue = q;
        consumer =
            if ready
            then Consumer.reading
            else if blocking
            then Consumer.trying true
            else Consumer.idle;
      }
  consume Consumer.reading m = record m {
    consumer = elim (p.read_slot m.queue) [
      | none ↦ Consumer.crashed
      | some v ↦ Consumer.retiring v
    ];
  }
  consume (Consumer.retiring v) m = record m {
    queue = p.publish_read m.queue;
    consumer = Consumer.idle;
    popped = m.popped ++ (v ∷ []);
  }
  consume Consumer.crashed m = m

  -- Any thread may go next; an idle thread may begin any call.
  pub data Step (m : Machine A Q) : Machine A Q → Type ℓ where
    begin_push :
        (blocking : Bool) (v : A)
        → m.producer ≡ Producer.idle
        → Step m (record m { producer = Producer.trying blocking v })
    begin_pop :
        (blocking : Bool)
        → m.consumer ≡ Consumer.idle
        → Step m (record m { consumer = Consumer.trying blocking })
    producer_goes : Step m (produce m.producer m)
    consumer_goes : Step m (consume m.consumer m)

  pub data Reach (q : Q) : Machine A Q → Type ℓ where
    here : Reach q (start q)
    next : {m n : Machine A Q} → Reach q m → Step m n → Reach q n
