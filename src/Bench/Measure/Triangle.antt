-- ===== src/Bench/Measure/Triangle.antt =====
-- bench/queue_measure.h: the messages 1, 2, ... and their sum.
use lock_free_stuffs.Prelude.{
  ℕ, zero, suc, ◌+◌, ◌*◌, ◌^◌, ◌<◌, ◌≤◌, ◌≡◌, refl, ap, ◌∙◌, List, [], ◌∷◌, ◌++◌, arith,
}

-- `count` numbers from `first` on
unfoldable pub range : ℕ → ℕ → List ℕ
range first zero = []
range first (suc count) = first ∷ range (first + 1) count

unfoldable pub triangle : ℕ → ℕ
triangle zero = 0
triangle (suc n) = triangle n + suc n

pub triangle_lem : (n : ℕ) → 2 * triangle n ≡ n * (n + 1)
unfolding triangle
triangle_lem zero = refl
triangle_lem (suc n) = grind (arith, triangle_lem n)

pub triangle_le : (n : ℕ) → n ≤ 2 ^ 32 → triangle n ≤ n * 2 ^ 32
unfolding triangle
triangle_le zero h = omega arith
triangle_le (suc n) h = omega (arith, triangle_le n (omega arith))

pub range-snoc : (first n : ℕ) → range first n ++ ((first + n) ∷ []) ≡ range first (suc n)
unfolding range
range-snoc first zero = ap (λ t. t ∷ []) (omega arith)
range-snoc first (suc n) =
    ap (λ t. first ∷ (range (first + 1) n ++ (t ∷ []))) {x = first + suc n} {y = first + 1 + n}
      (omega arith)
    ∙ ap (λ l. first ∷ l) (range-snoc (first + 1) n)

-- What comes next in a range of which some are known.
pub range_next :
    (first j k v : ℕ) (rest : List ℕ)
    → range first j ++ (v ∷ rest) ≡ range first k
    → (v ≡ first + j) × (j < k)
unfolding range
range_next first zero zero v rest e = cc
range_next first zero (suc k) v rest e = (let at : v ≡ first = cc in omega (arith, at), omega arith)
range_next first (suc j) zero v rest e = cc
range_next first (suc j) (suc k) v rest e =
    let tails : range (first + 1) j ++ (v ∷ rest) ≡ range (first + 1) k = cc in
    let (a, b) = range_next (first + 1) j k v rest tails in (omega (arith, a), omega (arith, b))
