-- ===== src/Version/Order.antt =====
-- semverCompare orders the version strings.
use Prim.Native.Nat.{Ordering, lt, eq, gt}
use kimi_wire_go.Prelude.{ℕ, String, ◌≡◌, ◌≢◌, refl, List, [], ◌∷◌, arith}
use kimi_wire_go.Version.{compare_step, compare_parts, semver_compare, split_version, codes}

abbrev pub swap : Ordering → Ordering
swap lt = gt
swap eq = eq
swap gt = lt

compare_step-swap :
    (a b : ℕ) (r s : Ordering) → s ≡ swap r → compare_step b a s ≡ swap (compare_step a b r)
unfolding compare_step
compare_step-swap a b r s h = ground arith

compare_parts-swap : (xs ys : List ℕ) → compare_parts ys xs ≡ swap (compare_parts xs ys)
unfolding compare_parts
compare_parts-swap [] [] = refl
compare_parts-swap [] (y ∷ ys) = compare_step-swap 0 y _ _ (compare_parts-swap [] ys)
compare_parts-swap (x ∷ xs) [] = compare_step-swap x 0 _ _ (compare_parts-swap xs [])
compare_parts-swap (x ∷ xs) (y ∷ ys) = compare_step-swap x y _ _ (compare_parts-swap xs ys)

-- Swapping the two versions swaps the results -1 and 1.
pub semver_compare-swap : (a b : String) → semver_compare b a ≡ swap (semver_compare a b)
unfolding semver_compare
semver_compare-swap a b = compare_parts-swap (split_version (codes a)) (split_version (codes b))

compare_step_trans :
    (a b c : ℕ) (r s t : Ordering)
    → (r ≢ gt → s ≢ gt → t ≢ gt)
    → compare_step a b r ≢ gt
    → compare_step b c s ≢ gt
    → compare_step a c t ≢ gt
unfolding compare_step
compare_step_trans a b c r s t h p q = ground arith

compare_parts_trans :
    (xs ys zs : List ℕ)
    → compare_parts xs ys ≢ gt
    → compare_parts ys zs ≢ gt
    → compare_parts xs zs ≢ gt
unfolding compare_parts
compare_parts_trans [] [] zs p q = q
compare_parts_trans [] (y ∷ ys) [] p q = λ e. absurd (ground arith)
compare_parts_trans [] (y ∷ ys) (z ∷ zs) p q =
    compare_step_trans 0 y z _ _ _ (compare_parts_trans [] ys zs) p q
compare_parts_trans (x ∷ xs) [] [] p q = p
compare_parts_trans (x ∷ xs) [] (z ∷ zs) p q =
    compare_step_trans x 0 z _ _ _ (compare_parts_trans xs [] zs) p q
compare_parts_trans (x ∷ xs) (y ∷ ys) [] p q =
    compare_step_trans x y 0 _ _ _ (compare_parts_trans xs ys []) p q
compare_parts_trans (x ∷ xs) (y ∷ ys) (z ∷ zs) p q =
    compare_step_trans x y z _ _ _ (compare_parts_trans xs ys zs) p q

-- `a` is no newer than `b`.
abbrev pub AtMost : String → String → Type 0
AtMost a b = semver_compare a b ≢ gt

-- "Not newer than", for versions of any text, is transitive.
pub AtMost-trans : (a b c : String) → AtMost a b → AtMost b c → AtMost a c
unfolding semver_compare
AtMost-trans a b c p q =
    compare_parts_trans (split_version (codes a)) (split_version (codes b))
      (split_version (codes c)) p q

swap_fixed : (o : Ordering) → o ≡ swap o → o ≡ eq
swap_fixed lt h = ground arith
swap_fixed eq h = refl
swap_fixed gt h = ground arith

pub AtMost-refl : (a : String) → AtMost a a
AtMost-refl a = ground (arith, swap_fixed (semver_compare a a), semver_compare-swap a a)

-- A version that is not newer is at most, read from the other side.
pub AtMost-of_lt : (a b : String) → semver_compare a b ≡ lt → AtMost a b
AtMost-of_lt a b h = ground arith

pub AtMost-of_not_lt : (a b : String) → semver_compare a b ≢ lt → AtMost b a
AtMost-of_not_lt a b h = ground (arith, semver_compare-swap a b)

pub AtMost-of_gt : (a b : String) → semver_compare a b ≡ gt → AtMost b a
AtMost-of_gt a b h = ground (arith, semver_compare-swap a b)
