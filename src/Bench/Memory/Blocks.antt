-- ===== src/Bench/Memory/Blocks.antt =====
-- bench/memory.h, bench/memory.cpp: the objects that are created in the pages and destroyed in any
-- order.
use lock_free_stuffs.Prelude.{
  ℕ, zero, suc, ◌+◌, ◌-◌, ◌<◌, ◌≡◌, refl, false, Option, none, some, List, [], ◌∷◌, ltb, ◌==◌,
  if◌then◌else◌, Bool-cases, inl, inr, arith, add_size, sub_size, ◌≤◌, ap, ==→eq, sym, subst, ◌∙◌,
}
use lock_free_stuffs.Bench.Memory.{HugePages, allocate_nothrow, allocate, deallocate, WellFormed}

-- create_unique_ptr of an object of this many bytes, which may throw, and destroy of the n-th of the
-- objects that live, counted from the newest.
pub data Call : Type 0 where
  creates : ℕ → Call
  destroys : ℕ → Call

-- `live` has the address and the size of each object, the newest first.
pub record Arena : Type 0 where
  pub pages : HugePages
  pub live : List (ℕ × ℕ)

-- The n-th of a list, and the others.
abbrev pub take_out {ℓ} : {A : Type ℓ} → ℕ → List A → Option (A × List A)
take_out n [] = none
take_out zero (x ∷ xs) = some (x, xs)
take_out (suc n) (x ∷ xs) = elim (take_out n xs) [ none ↦ none | some (y, ys) ↦ some (y, x ∷ ys) ]

unfoldable pub create : ℕ → Arena → Arena
create size a = elim (allocate size a.pages) [
  | none ↦ a
  | some (p, hp) ↦ record { pages = hp; live = (p, size) ∷ a.live }
]

unfoldable pub destroy : ℕ → Arena → Arena
destroy n a = elim (take_out n a.live) [
  | none ↦ a
  | some ((p, size), rest) ↦ record { pages = deallocate p size a.pages; live = rest }
]

unfoldable pub call : Call → Arena → Arena
call (creates size) a = create size a
call (destroys n) a = destroy n a

unfoldable pub run : List Call → Arena → Arena
run [] a = a
run (c ∷ cs) a = run cs (call c a)

-- The objects lie in `beg` up to `top`, each in front of the one that came next.
abbrev pub Stacked : ℕ → ℕ → List (ℕ × ℕ) → Type 0
Stacked beg top [] = beg ≤ top
Stacked beg top ((p, size) ∷ rest) = (p + size ≤ top) × (0 < size) × Stacked beg p rest

-- Only objects of at least a byte are created.
abbrev pub Sized : List Call → Type 0
Sized [] = Unit
Sized (creates size ∷ cs) = (0 < size) × Sized cs
Sized (destroys n ∷ cs) = Sized cs

pub record Ok (a : Arena) (beg end : ℕ) : Type 0 where
  pub well : WellFormed a.pages
  pub from : a.pages.beg ≡ beg
  pub to : a.pages.end ≡ end
  pub stacked : Stacked a.pages.beg a.pages.cur a.live

-- What allocate does to pages that are well formed.
pub allocate_lem :
    (size : ℕ) {hp : HugePages}
    → WellFormed hp
    → allocate size hp ≡ (
        if ltb (hp.end - hp.cur) size
        then none
        else some (hp.cur, record hp { cur = hp.cur + size }))
unfolding allocate allocate_nothrow
allocate_lem size {hp} w = elim (Bool-cases (ltb (hp.end - hp.cur) size)) [
  | inl small ↦ rw (room, small) refl
  | inr fits ↦
      let enough : size ≤ hp.end - hp.cur = ground (arith, fits) in
      let up : add_size hp.cur size ≡ hp.cur + size = omega (arith, w.below, enough) in
      let there : (hp.cur == 0) ≡ false = ground (arith, w.mapped, w.after) in
      rw (room, fits, there, up) refl
]
  where
    room : sub_size hp.end hp.cur ≡ hp.end - hp.cur
    room = omega (arith, w.within, w.below)

pub deallocate_lem :
    (p size : ℕ) {hp : HugePages}
    → WellFormed hp
    → size ≤ hp.cur
    → deallocate p size hp ≡ (if hp.cur - size == p then record hp { cur = hp.cur - size } else hp)
unfolding deallocate
deallocate_lem p size {hp} w le =
    ap (λ q. if q == p then record hp { cur = q } else hp) {x = sub_size hp.cur size}
      {y = hp.cur - size} (omega (arith, w.within, w.below))

raise_top :
    (beg low top : ℕ) (live : List (ℕ × ℕ))
    → low ≤ top
    → Stacked beg low live
    → Stacked beg top live
raise_top beg low top [] le h = omega arith
raise_top beg low top ((p, size) ∷ rest) le (a, b, c) = (omega arith, b, c)

above : (beg top : ℕ) (live : List (ℕ × ℕ)) → Stacked beg top live → beg ≤ top
above beg top [] h = h
above beg top ((p, size) ∷ rest) (a, b, c) = omega (arith, a, above beg p rest c)

-- What is left when an object goes; below it is nothing but what came before it.
abbrev pub Left : ℕ → ℕ → Option ((ℕ × ℕ) × List (ℕ × ℕ)) → Type 0
Left beg top none = Unit
Left beg top (some ((p, size), rest)) =
    Stacked beg top rest × (p + size ≤ top) × (0 < size) × (p + size ≡ top → Stacked beg p rest)

Left-cons :
    (beg top q s : ℕ) (o : Option ((ℕ × ℕ) × List (ℕ × ℕ)))
    → q + s ≤ top
    → 0 < s
    → Left beg q o
    → Left beg top (elim o [ none ↦ none | some (y, ys) ↦ some (y, (q, s) ∷ ys) ])
Left-cons beg top q s none le pos h = tt
Left-cons beg top q s (some ((p, size), rest)) le pos (a, b, c, d) =
    ((le, pos, a), omega arith, c, (λ e. absurd (omega (arith, e, b, le, pos))))

take_out-Left :
    (n beg top : ℕ) (live : List (ℕ × ℕ)) → Stacked beg top live → Left beg top (take_out n live)
take_out-Left n beg top [] h = tt
take_out-Left zero beg top ((q, s) ∷ xs) (a, b, c) =
    (raise_top beg q top xs (omega arith) c, a, b, (λ e. c))
take_out-Left (suc n) beg top ((q, s) ∷ xs) (a, b, c) =
    Left-cons beg top q s (take_out n xs) a b (take_out-Left n beg q xs c)

pub create-Ok :
    (size : ℕ) {a : Arena} {beg end : ℕ} → 0 < size → Ok a beg end → Ok (create size a) beg end
unfolding create
create-Ok size {a} {beg} {end} pos ok = elim (Bool-cases (ltb (hp.end - hp.cur) size)) [
  | inl small ↦
      subst (λ o. Ok (next o) beg end) {x = none}
        (sym (allocate_lem size ok.well ∙ rw (small) refl)) ok
  | inr fits ↦
      let enough : size ≤ hp.end - hp.cur = ground (arith, fits) in
      let w = ok.well in
      subst (λ o. Ok (next o) beg end) {x = some (hp.cur, record hp { cur = hp.cur + size })}
        (sym (allocate_lem size ok.well ∙ rw (fits) refl))
        (record {
          well = record {
            mapped = w.mapped;
            after = omega (arith, w.after);
            within = omega (arith, w.within, enough);
            below = w.below;
          };
          from = ok.from;
          to = ok.to;
          stacked = (omega arith, pos, ok.stacked);
        })
]
  where
    hp : HugePages
    hp = a.pages

    next : Option (ℕ × HugePages) → Arena
    next o = elim o [ none ↦ a | some (p, hp') ↦ record { pages = hp'; live = (p, size) ∷ a.live } ]

pub destroy-Ok : (n : ℕ) {a : Arena} {beg end : ℕ} → Ok a beg end → Ok (destroy n a) beg end
unfolding destroy
destroy-Ok n {a} {beg} {end} ok =
    left (take_out n a.live) (take_out-Left n hp.beg hp.cur a.live ok.stacked)
  where
    hp : HugePages
    hp = a.pages

    left :
        (o : Option ((ℕ × ℕ) × List (ℕ × ℕ)))
        → Left hp.beg hp.cur o
        → Ok
            (elim o [
              | none ↦ a
              | some ((p, size), rest) ↦ record { pages = deallocate p size hp; live = rest }
            ])
            beg
            end
    left none h = ok
    left (some ((p, size), rest)) (s, le, pos, top) = elim (Bool-cases (hp.cur - size == p)) [
      | inl last ↦
          let at : hp.cur - size ≡ p = ==→eq (hp.cur - size) p last in
          let low : Stacked hp.beg (hp.cur - size) rest =
            subst (λ t. Stacked hp.beg t rest) (sym at) (top (omega (arith, at, le, pos))) in
          rw (deallocate_lem p size ok.well (omega (arith, le)), last)
            record {
              well = record {
                mapped = ok.well.mapped;
                after = above hp.beg (hp.cur - size) rest low;
                within = omega (arith, ok.well.within);
                below = ok.well.below;
              };
              from = ok.from;
              to = ok.to;
              stacked = low;
            }
      | inr other ↦
          rw (deallocate_lem p size ok.well (omega (arith, le)), other)
            record { well = ok.well; from = ok.from; to = ok.to; stacked = s }
    ]

-- In pages that are well formed, where nothing lives at first: after any creations of objects of at
-- least a byte, which may throw, and destructions of any of those that live, in any order, the pages
-- are still well formed and the same region, and the objects that live lie in its given-out part
-- without overlap, each in front of the one that was created next.
pub arena_disjoint :
    (cs : List Call) {hp : HugePages}
    → WellFormed hp
    → Sized cs
    → Ok (run cs (record { pages = hp; live = [] })) hp.beg hp.end
unfolding run call
arena_disjoint cs {hp} w sized =
    from cs (record { pages = hp; live = [] }) sized
      (record { well = w; from = refl; to = refl; stacked = w.after })
  where
    from :
        (cs : List Call) (a : Arena) → Sized cs → Ok a hp.beg hp.end → Ok (run cs a) hp.beg hp.end
    from [] a sized ok = ok
    from (creates size ∷ cs) a (pos, sized) ok =
        from cs (create size a) sized (create-Ok size pos ok)
    from (destroys n ∷ cs) a sized ok = from cs (destroy n a) sized (destroy-Ok n ok)
