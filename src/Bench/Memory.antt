-- ===== src/Bench/Memory.antt =====
-- bench/memory.h, bench/memory.cpp: HugePages, one mapped region from whose front blocks are given
-- out. A pointer is a number, and nullptr is 0. mmap is a parameter, which gets the kind of pages and
-- the size, on which its other arguments depend.
pub mod Construct
pub mod Blocks
pub mod Nest
pub mod Tests
use lock_free_stuffs.Prelude.{
  ℕ, zero, suc, ◌-◌, ◌*◌, ◌^◌, ◌<◌, ◌≤◌, Bool, true, false, Option, none, some, List, [], ◌∷◌, ◌++◌,
  ltb, ◌==◌, if◌then◌else◌, add_size, sub_size, word, clear_low,
}

pub record HugePages : Type 0 where
  pub cur : ℕ
  pub end : ℕ
  pub beg : ℕ

pub data PageType : Type 0 where
  page_default : PageType
  page_2mb : PageType
  page_1gb : PageType

pub data Warning : Type 0 where
  no_1gb_pages : Warning
  no_2mb_pages : Warning

-- The two static function pointers, whether they are set, and what has been called.
pub record Warnings : Type 0 where
  pub warn_no_1gb : Bool
  pub warn_no_2mb : Bool
  pub called : List Warning

-- How a constructor ends.
pub data Outcome : Type 0 where
  made : HugePages → Warnings → Outcome
  throws : Warnings → Outcome

-- `size_t{1} << type`, or kDefaultPageSize, which is 2^d
abbrev pub page_bits : ℕ → PageType → ℕ
page_bits d page_default = d
page_bits d page_2mb = 21
page_bits d page_1gb = 30

unfoldable pub rounded_size : ℕ → PageType → ℕ → ℕ
rounded_size d type total =
    let bits = page_bits d type in clear_low bits (add_size total (2 ^ bits - 1))

unfoldable pub warn_1gb : Warnings → Warnings
warn_1gb w =
    if w.warn_no_1gb
    then record w { warn_no_1gb = false; called = w.called ++ (no_1gb_pages ∷ []) }
    else w

unfoldable pub warn_2mb : Warnings → Warnings
warn_2mb w =
    if w.warn_no_2mb
    then record w { warn_no_2mb = false; called = w.called ++ (no_2mb_pages ∷ []) }
    else w

abbrev pub region : ℕ → ℕ → HugePages
region p size = record { beg = p; cur = p; end = add_size p size }

-- `none` while the loop has not ended in `fuel` rounds; mmap returns `none` for MAP_FAILED.
unfoldable pub construct :
    (PageType → ℕ → Option ℕ) → ℕ → ℕ → PageType → ℕ → Warnings → Option Outcome
construct mmap d zero type total w = none
construct mmap d (suc fuel) page_1gb total w =
    elim (mmap page_1gb (rounded_size d page_1gb total)) [
      | some p ↦ some (made (region p (rounded_size d page_1gb total)) w)
      | none ↦ construct mmap d fuel page_2mb total (warn_1gb w)
    ]
construct mmap d (suc fuel) page_2mb total w =
    elim (mmap page_2mb (rounded_size d page_2mb total)) [
      | some p ↦ some (made (region p (rounded_size d page_2mb total)) w)
      | none ↦ construct mmap d fuel page_default total (warn_2mb w)
    ]
construct mmap d (suc fuel) page_default total w =
    elim (mmap page_default (rounded_size d page_default total)) [
      | some p ↦ some (made (region p (rounded_size d page_default total)) w)
      | none ↦ some (throws w)
    ]

-- What the destructor gives back: the address and the length.
unfoldable pub unmapped : HugePages → Option (ℕ × ℕ)
unmapped hp = if hp.beg == 0 then none else some (hp.beg, sub_size hp.end hp.beg)

-- The new object and what is left of `other`.
unfoldable pub move_construct : HugePages → HugePages × HugePages
move_construct other = (
  record { cur = other.cur; end = other.end; beg = other.beg },
  record { cur = 0; end = 0; beg = 0 },
)

-- `same` tells that `other` is this object itself.
unfoldable pub move_assign : Bool → HugePages → HugePages → HugePages × HugePages
move_assign same hp other = if same then (hp, other) else (other, hp)

unfoldable pub reset : HugePages → HugePages
reset hp = record hp { cur = hp.beg }

unfoldable pub empty : HugePages → Bool
empty hp = hp.cur == hp.beg

unfoldable pub used : HugePages → ℕ
used hp = sub_size hp.cur hp.beg

-- The pointer, or 0 where too little is left.
unfoldable pub allocate_nothrow : ℕ → HugePages → ℕ × HugePages
allocate_nothrow size hp =
    if ltb (sub_size hp.end hp.cur) size
    then (0, hp)
    else (hp.cur, record hp { cur = add_size hp.cur size })

-- `none` for std::bad_alloc
unfoldable pub allocate : ℕ → HugePages → Option (ℕ × HugePages)
allocate size hp = let (p, hp') = allocate_nothrow size hp in if p == 0 then none else some (p, hp')

unfoldable pub deallocate : ℕ → ℕ → HugePages → HugePages
deallocate p size hp = let q = sub_size hp.cur size in if q == p then record hp { cur = q } else hp

-- check_huge_pages_leaks: the pages after it, and the number of bytes that it reports
unfoldable pub check_leaks : HugePages → Option ℕ × HugePages
check_leaks hp = if empty hp then (none, hp) else (some (used hp), reset hp)

abbrev megabyte : ℕ
megabyte = 1024 * 1024

-- make_benchmark_pages: the second constructor runs where the first throws.
unfoldable pub make_benchmark_pages :
    (PageType → ℕ → Option ℕ) → ℕ → ℕ → Bool → Warnings → Option Outcome
make_benchmark_pages mmap d fuel false w = construct mmap d fuel page_default (4 * megabyte) w
make_benchmark_pages mmap d fuel true w = elim (construct mmap d fuel page_1gb (32 * megabyte) w) [
  | none ↦ none
  | some (made hp w') ↦ some (made hp w')
  | some (throws w') ↦ construct mmap d fuel page_default (4 * megabyte) w'
]

-- Between calls the region lies below 2^64, and its free part is a part of it.
pub record WellFormed (hp : HugePages) : Type 0 where
  pub mapped : 0 < hp.beg
  pub after : hp.beg ≤ hp.cur
  pub within : hp.cur ≤ hp.end
  pub below : hp.end < word
