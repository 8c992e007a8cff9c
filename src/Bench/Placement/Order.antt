-- ===== src/Bench/Placement/Order.antt =====
-- bench/mpmc_bench.cpp: each thread is started once, and no two share a hardware thread.
use lock_free_stuffs.Prelude.{
  ℕ, zero, suc, ◌+◌, ◌-◌, ◌*◌, ◌/◌, ◌<◌, ◌≤◌, ◌≡◌, refl, ap, ap₂, append-nil, ◌∙◌, Bool, true,
  false, List, [], ◌∷◌, ◌++◌, ◌==◌, if_split, arith,
}
use lock_free_stuffs.Bench.Config.{BenchmarkConfig}
use lock_free_stuffs.Bench.Measure.Triangle.{range}
use lock_free_stuffs.Bench.Placement.{
  Role, producer, consumer, Started, alternating, producers, consumers, started, own_cpu,
  available_pairs, queue_max_pairs,
}

abbrev pub cpus : List Started → List ℕ
cpus [] = []
cpus (s ∷ ss) = s.cpu ∷ cpus ss

-- A thread's index, if it is of the wanted role, in front of the others.
abbrev pub keep : Role → Role → ℕ → List ℕ → List ℕ
keep producer producer n l = n ∷ l
keep producer consumer n l = l
keep consumer producer n l = l
keep consumer consumer n l = n ∷ l

-- The indices of the threads of one role.
abbrev pub threads_of : Role → List Started → List ℕ
threads_of role [] = []
threads_of role (s ∷ ss) = keep role s.role s.thread (threads_of role ss)

-- These are all the threads there are, each once, on hardware threads one after the other.
pub record Placed (pairs : ℕ) (first cpu left : ℕ) (ss : List Started) : Type 0 where
  pub on : cpus ss ≡ range cpu (left + (left - 1))
  pub producing : threads_of producer ss ≡ range first left
  pub consuming : threads_of consumer ss ≡ range (pairs + first) (left - 1)

alternating-Placed :
    (pairs left i cpu_index : ℕ)
    → i + suc left ≡ pairs
    → Placed pairs i cpu_index (suc left) (alternating pairs (suc left) i cpu_index)
unfolding alternating range
alternating-Placed pairs zero i cpu_index e =
    rw (last) record { on = refl; producing = refl; consuming = refl }
  where
    last : (i == pairs - 1) ≡ true
    last = ground (arith, e)
alternating-Placed pairs (suc left) i cpu_index e =
    let more : (i == pairs - 1) ≡ false = ground (arith, e) in
    let h = alternating-Placed pairs left (i + 1) (cpu_index + 2) (omega (arith, e)) in
    rw (more) record {
      on =
          ap (λ l. cpu_index ∷ (cpu_index + 1) ∷ l)
            (h.on ∙ ap (λ t. range t n) {x = cpu_index + 2} {y = cpu_index + 1 + 1} (omega arith))
          ∙ ap (range cpu_index) {x = suc (suc n)} {y = suc (suc left) + (suc (suc left) - 1)}
              (omega arith);
      producing = ap (λ l. i ∷ l) h.producing;
      consuming =
          ap (λ l. (pairs + i) ∷ l)
            (h.consuming
              ∙ ap (λ t. range t (suc left - 1)) {x = pairs + (i + 1)} {y = pairs + i + 1}
                  (omega arith))
          ∙ ap (range (pairs + i)) {x = suc (suc left - 1)} {y = suc (suc left) - 1} (omega arith);
    }
  where
    n : ℕ
    n = suc left + (suc left - 1)

-- The loops of the other placement.
producers_lem :
    (left i cpu_index : ℕ)
    → (cpus (producers left i cpu_index) ≡ range cpu_index left)
      × (threads_of producer (producers left i cpu_index) ≡ range i left)
      × (threads_of consumer (producers left i cpu_index) ≡ [])
unfolding producers range
producers_lem zero i cpu_index = (refl, refl, refl)
producers_lem (suc left) i cpu_index =
    let (a, b, c) = producers_lem left (i + 1) (cpu_index + 1) in
    (ap (λ l. cpu_index ∷ l) a, ap (λ l. i ∷ l) b, c)

consumers_lem :
    (pairs left i cpu_index : ℕ)
    → (cpus (consumers pairs left i cpu_index) ≡ range cpu_index left)
      × (threads_of producer (consumers pairs left i cpu_index) ≡ [])
      × (threads_of consumer (consumers pairs left i cpu_index) ≡ range (pairs + i) left)
unfolding consumers range
consumers_lem pairs zero i cpu_index = (refl, refl, refl)
consumers_lem pairs (suc left) i cpu_index =
    let (a, b, c) = consumers_lem pairs left (i + 1) (cpu_index + 1) in
    (
      ap (λ l. cpu_index ∷ l) a,
      b,
      ap (λ l. (pairs + i) ∷ l)
          (c ∙ ap (λ t. range t left) {x = pairs + (i + 1)} {y = pairs + i + 1} (omega arith)),
    )

cpus-append : (xs ys : List Started) → cpus (xs ++ ys) ≡ cpus xs ++ cpus ys
cpus-append [] ys = refl
cpus-append (x ∷ xs) ys = ap (λ l. x.cpu ∷ l) (cpus-append xs ys)

keep-append :
    (role r : Role) (n : ℕ) (xs ys : List ℕ) → keep role r n (xs ++ ys) ≡ keep role r n xs ++ ys
keep-append producer producer n xs ys = refl
keep-append producer consumer n xs ys = refl
keep-append consumer producer n xs ys = refl
keep-append consumer consumer n xs ys = refl

threads_of-append :
    (role : Role) (xs ys : List Started)
    → threads_of role (xs ++ ys) ≡ threads_of role xs ++ threads_of role ys
threads_of-append role [] ys = refl
threads_of-append role (x ∷ xs) ys =
    ap (keep role x.role x.thread) (threads_of-append role xs ys)
    ∙ keep-append role x.role x.thread (threads_of role xs) (threads_of role ys)

range-append : (first m n : ℕ) → range first m ++ range (first + m) n ≡ range first (m + n)
unfolding range
range-append first zero n =
    ap (λ t. range t n) {x = first + 0} {y = first} (omega arith)
    ∙ ap (range first) {y = 0 + n} (omega arith)
range-append first (suc m) n =
    ap (λ l. first ∷ l)
      (ap (λ t. range (first + 1) m ++ range t n) {x = first + suc m} {y = first + 1 + m}
          (omega arith)
        ∙ range-append (first + 1) m n)
    ∙ ap (range first) {x = suc (m + n)} {y = suc m + n} (omega arith)

started-Placed :
    (alternative : Bool) (pairs : ℕ)
    → 0 < pairs
    → Placed pairs 0 0 pairs (started alternative pairs)
unfolding started
started-Placed true zero pos = absurd (omega (arith, pos))
started-Placed true (suc pairs) pos = alternating-Placed (suc pairs) pairs 0 0 (omega arith)
started-Placed false pairs pos =
    let (a, b, c) = producers_lem pairs 0 0 in
    let (d, e, f) = consumers_lem pairs (pairs - 1) 0 pairs in
    record {
      on =
          cpus-append first rest
          ∙ ap₂ ◌++◌ a d
          ∙ ap (λ t. range 0 pairs ++ range t (pairs - 1)) {x = pairs} {y = 0 + pairs} (omega arith)
          ∙ range-append 0 pairs (pairs - 1);
      producing = threads_of-append producer first rest ∙ ap₂ ◌++◌ b e ∙ append-nil (range 0 pairs);
      consuming = threads_of-append consumer first rest ∙ ap₂ ◌++◌ c f;
    }
  where
    first : List Started
    first = producers pairs 0 0

    rest : List Started
    rest = consumers pairs (pairs - 1) 0 pairs

-- For at least one pair of threads and no more than queue_max_pairs allows for `size` hardware threads:
-- with either placement the threads that benchmark_throughput starts are on the hardware threads of
-- the indices 0, 1, ... up to twice the pairs less two, in this order; the producers are those of the
-- indices below the number of pairs and the consumers those behind it, each started once; and the
-- calling thread has the next index, which is still one of hw_thread_ids.
pub started_lem :
    (alternative : Bool) (pairs most size : ℕ) (c : BenchmarkConfig)
    → 0 < pairs
    → pairs ≤ queue_max_pairs most size c
    → (cpus (started alternative pairs) ≡ range 0 (own_cpu pairs))
      × (threads_of producer (started alternative pairs) ≡ range 0 pairs)
      × (threads_of consumer (started alternative pairs) ≡ range pairs (pairs - 1))
      × (own_cpu pairs < size)
unfolding own_cpu queue_max_pairs available_pairs
started_lem alternative pairs most size c pos le =
    let h = started-Placed alternative pairs pos in
    (
      h.on ∙ ap (range 0) (omega arith),
      h.producing,
      h.consuming ∙ ap (λ t. range t (pairs - 1)) (omega arith),
      enough,
    )
  where
    limit : pairs ≤ size / 2
    limit =
        if_split (λ n. pairs ≤ n → pairs ≤ size / 2) (c.max_pairs == 0) (λ e h. omega (arith, h))
          (λ e h. omega (arith, h)) le

    enough : pairs * 2 - 1 < size
    enough = omega (arith, limit, pos)
