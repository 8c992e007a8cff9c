-- ===== src/Bench/Memory/Construct.antt =====
-- bench/memory.cpp: the constructor of HugePages, which asks for smaller pages where it gets none.
use lock_free_stuffs.Prelude.{
  ℕ, suc, ◌+◌, ◌-◌, ◌%◌, ◌^◌, ◌<◌, ◌≤◌, ◌≡◌, refl, sym, ap, subst, ◌∙◌, ◌*◌, ◌/◌, true, Option,
  none, some, add_size, word, arith, clear_low, clear_low_lem, pow_pos, mod-lt,
}
use native.Mathlib.Nat.{pow-le-pow_right, div-add-mod, mul-mod_right}
use lock_free_stuffs.Bench.Memory.{
  HugePages, PageType, page_default, page_2mb, page_1gb, Warnings, Outcome, made, throws, page_bits,
  rounded_size, warn_1gb, warn_2mb, region, construct, empty, WellFormed,
}

-- The least number of bytes that are whole pages and hold the total.
abbrev pub RoundedUp : ℕ → PageType → ℕ → ℕ → Type 0
RoundedUp d type total n =
    (total ≤ n) × (n < total + 2 ^ page_bits d type) × (n % 2 ^ page_bits d type ≡ 0)

-- The size is rounded up to whole pages.
pub rounded_lem :
    (d : ℕ) (type : PageType) (total : ℕ)
    → page_bits d type ≤ 63
    → total + 2 ^ page_bits d type ≤ word
    → RoundedUp d type total (rounded_size d type total)
unfolding rounded_size
rounded_lem d type total le fits =
    (omega (arith, cut, low, sum), omega (arith, cut, sum, pow_pos bits), whole)
  where
    bits : ℕ
    bits = page_bits d type

    up : ℕ
    up = add_size total (2 ^ bits - 1)

    sum : up ≡ total + 2 ^ bits - 1
    sum = omega (arith, fits, pow_pos bits)

    cut : clear_low bits up + up % 2 ^ bits ≡ up
    cut = clear_low_lem bits up (omega arith) (omega (arith, sum, pow_pos bits))

    whole : clear_low bits up % 2 ^ bits ≡ 0
    whole =
        ap (λ t. t % 2 ^ bits) {x = clear_low bits up} {y = 2 ^ bits * (up / 2 ^ bits)}
          (omega (arith, cut, div-add-mod up (2 ^ bits)))
        ∙ mul-mod_right (2 ^ bits) (up / 2 ^ bits)

    low : up % 2 ^ bits < 2 ^ bits
    low = mod-lt up (pow_pos bits)

module _ (mmap : PageType → ℕ → Option ℕ) (d total : ℕ) where
  -- What mmap is documented to return: an address above 0, with the whole region below 2^64.
  abbrev pub Maps : Type 0
  Maps = (type : PageType) (size p : ℕ) → mmap type size ≡ some p → (0 < p) × (p + size < word)

  -- The region is one that mmap gave, of as many whole pages as the total needs, and nothing is in it.
  pub record Mapped (hp : HugePages) : Type 0 where
    pub type : PageType
    pub from : mmap type (hp.end - hp.beg) ≡ some hp.beg
    pub rounded : RoundedUp d type total (hp.end - hp.beg)
    pub well : WellFormed hp
    pub unused : empty hp ≡ true

  -- mmap gave no such region.
  abbrev pub Failed : PageType → Type 0
  Failed type = (n : ℕ) × (mmap type n ≡ none) × RoundedUp d type total n

  -- Asked for the first kind of pages and come to the second, the constructor has failed to get
  -- larger ones.
  abbrev pub Passed : PageType → PageType → Type 0
  Passed page_1gb page_1gb = Unit
  Passed page_1gb page_2mb = Failed page_1gb
  Passed page_1gb page_default = Failed page_1gb × Failed page_2mb
  Passed page_2mb page_1gb = ⊥
  Passed page_2mb page_2mb = Unit
  Passed page_2mb page_default = Failed page_2mb
  Passed page_default page_1gb = ⊥
  Passed page_default page_2mb = ⊥
  Passed page_default page_default = Unit

  -- How the constructor ends that is asked for these pages.
  abbrev pub Ends : PageType → Option Outcome → Type 0
  Ends type none = ⊥
  Ends type (some (made hp w)) = (h : Mapped hp) × Passed type h.type
  Ends type (some (throws w)) = Passed type page_default × Failed page_default

  region-Mapped :
      (type : PageType) (p : ℕ)
      → Maps
      → page_bits d type ≤ 63
      → total + 2 ^ page_bits d type ≤ word
      → mmap type (rounded_size d type total) ≡ some p
      → Mapped (region p (rounded_size d type total))
  unfolding empty
  region-Mapped type p maps le fits e =
      let (a, b) = maps type (rounded_size d type total) p e in
      let rounded = rounded_lem d type total le fits in
      let width : add_size p (rounded_size d type total) - p ≡ rounded_size d type total =
        omega (arith, b) in
      record {
        type = type;
        from = ap (mmap type) width ∙ e;
        rounded = subst (RoundedUp d type total) (sym width) rounded;
        well = record {
          mapped = a;
          after = omega arith;
          within = omega (arith, b);
          below = omega (arith, b);
        };
        unused = ground arith;
      }

  -- One round: mmap succeeds, or what follows decides.
  round :
      (type : PageType) (w : Warnings) (o : Option ℕ) (next : Option Outcome)
      → Maps
      → page_bits d type ≤ 63
      → total + 2 ^ page_bits d type ≤ word
      → mmap type (rounded_size d type total) ≡ o
      → Passed type type
      → (Failed type → Ends type next)
      → Ends type
          (elim o [ some p ↦ some (made (region p (rounded_size d type total)) w) | none ↦ next ])
  unfolding region-Mapped
  round type w none next maps le fits e here after =
      after (rounded_size d type total, e, rounded_lem d type total le fits)
  round type w (some p) next maps le fits e here after = (region-Mapped type p maps le fits e, here)

  from_2mb : (o : Option Outcome) → Failed page_1gb → Ends page_2mb o → Ends page_1gb o
  from_2mb none f h = h
  from_2mb (some (made hp w)) f (h, p) = (h, passed h.type p)
    where
      passed : (type : PageType) → Passed page_2mb type → Passed page_1gb type
      passed page_1gb p = tt
      passed page_2mb p = f
      passed page_default p = (f, p)
  from_2mb (some (throws w)) f (p, last) = ((f, p), last)

  from_default : (o : Option Outcome) → Failed page_2mb → Ends page_default o → Ends page_2mb o
  from_default none f h = h
  from_default (some (made hp w)) f (h, p) = (h, passed h.type p)
    where
      passed : (type : PageType) → Passed page_default type → Passed page_2mb type
      passed page_1gb p = p
      passed page_2mb p = tt
      passed page_default p = f
  from_default (some (throws w)) f (p, last) = (f, last)

  -- For an mmap that returns what it is documented to, default pages of 2^d bytes with d ≤ 30 and a
  -- total of at most 2^64 - 2^30: the constructor ends within three rounds, whatever pages it is asked
  -- for. Either it makes well-formed pages with nothing in them, in a region that mmap gave for exactly
  -- its size, which is a multiple of the size of the pages, at least the total, and less than one page
  -- more than it, after mmap has failed for all larger pages that it was to try first; or it throws,
  -- after mmap has failed for all of them and the default ones. Where mmap has failed, it was asked for
  -- the total rounded up in the same way.
  pub arena_constructs :
      (type : PageType) (w : Warnings)
      → Maps
      → d ≤ 30
      → total + 2 ^ 30 ≤ word
      → Ends type (construct mmap d 3 type total w)
  unfolding construct
  arena_constructs type w maps le fits = ends type
    where
      pow_le : 2 ^ d ≤ 2 ^ 30
      pow_le = pow-le-pow_right (omega arith) le

      default_fits : total + 2 ^ d ≤ word
      default_fits = omega (arith, fits, pow_le)

      default_ends :
          (fuel : ℕ) (w : Warnings)
          → Ends page_default (construct mmap d (suc fuel) page_default total w)
      default_ends fuel w =
          round page_default w (mmap page_default (rounded_size d page_default total))
            (some (throws w)) maps (omega (arith, le)) default_fits refl tt (λ f. (tt, f))

      smaller_ends :
          (fuel : ℕ) (w : Warnings)
          → Ends page_2mb (construct mmap d (suc (suc fuel)) page_2mb total w)
      smaller_ends fuel w =
          round page_2mb w (mmap page_2mb (rounded_size d page_2mb total))
            (construct mmap d (suc fuel) page_default total (warn_2mb w)) maps (omega arith)
            (omega (arith, fits)) refl tt
            (λ f.
              from_default (construct mmap d (suc fuel) page_default total (warn_2mb w)) f
                (default_ends fuel (warn_2mb w)))

      ends : (type : PageType) → Ends type (construct mmap d 3 type total w)
      ends page_default = default_ends 2 w
      ends page_2mb = smaller_ends 1 w
      ends page_1gb =
          round page_1gb w (mmap page_1gb (rounded_size d page_1gb total))
            (construct mmap d 2 page_2mb total (warn_1gb w)) maps (omega arith) fits refl tt
            (λ f.
              from_2mb (construct mmap d 2 page_2mb total (warn_1gb w)) f
                (smaller_ends 0 (warn_1gb w)))
