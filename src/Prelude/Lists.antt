-- ===== src/Prelude/Lists.antt =====
-- Lists measured and indexed by native numbers, under the library's names, and results of fallible
-- calls.
use Prim.Native.Nat.{ℕ, zero, suc, ◌+◌, ◌<◌}
use mathlib.Core.Path.{◌≡◌, refl, sym, ap, ◌∙◌}
use mathlib.Core.Logic.{◌≢◌, ◌⊎◌, inl, inr}
use mathlib.Core.Option.{Option, none, some}
use mathlib.Core.List.{List, [], ◌∷◌, ◌++◌, map}
use native.Mathlib.Omega.{arith}

module _ {ℓ} {A : Type ℓ} where
  abbrev pub length : List A → ℕ
  length [] = 0
  length (x ∷ xs) = suc (length xs)

  abbrev pub get_elem? : List A → ℕ → Option A
  get_elem? [] i = none
  get_elem? (x ∷ xs) zero = some x
  get_elem? (x ∷ xs) (suc i) = get_elem? xs i

  -- A write out of bounds changes nothing.
  abbrev pub set : List A → ℕ → A → List A
  set [] i v = []
  set (x ∷ xs) zero v = v ∷ xs
  set (x ∷ xs) (suc i) v = x ∷ set xs i v

  pub length-append : (xs ys : List A) → length (xs ++ ys) ≡ length xs + length ys
  length-append [] ys = omega arith
  length-append (x ∷ xs) ys = omega (arith, length-append xs ys)

  -- The sum of a weight over a list.
  unfoldable pub total : (A → ℕ) → List A → ℕ
  total w [] = 0
  total w (x ∷ xs) = w x + total w xs

  pub total-append : (w : A → ℕ) (xs ys : List A) → total w (xs ++ ys) ≡ total w xs + total w ys
  unfolding total
  total-append w [] ys = omega arith
  total-append w (x ∷ xs) ys = omega (arith, total-append w xs ys)

  pub total-snoc : (w : A → ℕ) (xs : List A) (x : A) → total w (xs ++ x ∷ []) ≡ total w xs + w x
  unfolding total
  total-snoc w xs x = omega (arith, total-append w xs (x ∷ []))

  pub total-nil : (w : A → ℕ) → total w [] ≡ 0
  unfolding total
  total-nil w = refl

  pub total-set :
      (w : A → ℕ) (xs : List A) (i : ℕ) (x y : A)
      → get_elem? xs i ≡ some x
      → total w (set xs i y) + w x ≡ total w xs + w y
  unfolding total
  total-set w [] i x y h = ground arith
  total-set w (z ∷ xs) zero x y h = ground arith
  total-set w (z ∷ xs) (suc i) x y h = omega (arith, total-set w xs i x y h)

-- A value or an error, as Go's pair of a result and a non-nil error.
pub data Result {ℓ κ} (E : Type ℓ) (A : Type κ) : Type (ℓ ⊔ κ) where
  ok : A → Result E A
  err : E → Result E A

infixl 5 ◌>>=◌
abbrev pub ◌>>=◌ {ℓ κ μ} :
    {E : Type ℓ} {A : Type κ} {B : Type μ} → Result E A → (A → Result E B) → Result E B
err reason >>= next = err reason
ok value >>= next = next value

module _ {ℓ} {A : Type ℓ} where
  -- A write through a pointer: nothing changes out of bounds.
  abbrev pub modify : List A → ℕ → (A → A) → List A
  modify [] i f = []
  modify (x ∷ xs) zero f = f x ∷ xs
  modify (x ∷ xs) (suc i) f = x ∷ modify xs i f

  pub get_elem?-modify_self :
      (xs : List A) (i : ℕ) (f : A → A) {x : A}
      → get_elem? xs i ≡ some x
      → get_elem? (modify xs i f) i ≡ some (f x)
  get_elem?-modify_self [] i f h = ground arith
  get_elem?-modify_self (y ∷ xs) zero f h = ground arith
  get_elem?-modify_self (y ∷ xs) (suc i) f h = get_elem?-modify_self xs i f h

  pub get_elem?-modify_ne :
      (xs : List A) (i j : ℕ) (f : A → A) → i ≢ j → get_elem? (modify xs i f) j ≡ get_elem? xs j
  get_elem?-modify_ne [] i j f h = refl
  get_elem?-modify_ne (y ∷ xs) zero zero f h = absurd (h refl)
  get_elem?-modify_ne (y ∷ xs) zero (suc j) f h = refl
  get_elem?-modify_ne (y ∷ xs) (suc i) zero f h = refl
  get_elem?-modify_ne (y ∷ xs) (suc i) (suc j) f h =
      get_elem?-modify_ne xs i j f (λ e. h (ap suc e))

  pub total-modify :
      (w : A → ℕ) (xs : List A) (i : ℕ) (f : A → A) (x : A)
      → get_elem? xs i ≡ some x
      → total w (modify xs i f) + w x ≡ total w xs + w (f x)
  unfolding total
  total-modify w [] i f x h = ground arith
  total-modify w (y ∷ xs) zero f x h = let e : y ≡ x = ground arith in rw e (omega arith)
  total-modify w (y ∷ xs) (suc i) f x h = omega (arith, total-modify w xs i f x h)

  -- A write that no weight sees.
  pub total-modify_same :
      (w : A → ℕ) (xs : List A) (i : ℕ) (f : A → A)
      → ((x : A) → w (f x) ≡ w x)
      → total w (modify xs i f) ≡ total w xs
  unfolding total
  total-modify_same w [] i f h = refl
  total-modify_same w (y ∷ xs) zero f h = ap (λ n. n + total w xs) (h y)
  total-modify_same w (y ∷ xs) (suc i) f h = ap (λ n. w y + n) (total-modify_same w xs i f h)

  pub get_elem?-append_last : (xs : List A) (x : A) → get_elem? (xs ++ x ∷ []) (length xs) ≡ some x
  get_elem?-append_last [] x = refl
  get_elem?-append_last (y ∷ xs) x = get_elem?-append_last xs x

  pub get_elem?-append_left :
      (xs : List A) (x : A) (i : ℕ) → i < length xs → get_elem? (xs ++ x ∷ []) i ≡ get_elem? xs i
  get_elem?-append_left [] x i h = elim h [ ]
  get_elem?-append_left (y ∷ xs) x zero h = refl
  get_elem?-append_left (y ∷ xs) x (suc i) h = get_elem?-append_left xs x i (omega arith)

  pub get_elem?-lt : (xs : List A) (i : ℕ) {x : A} → get_elem? xs i ≡ some x → i < length xs
  get_elem?-lt [] i h = ground arith
  get_elem?-lt (y ∷ xs) zero h = omega arith
  get_elem?-lt (y ∷ xs) (suc i) h = omega (arith, get_elem?-lt xs i h)

pub result_cases {ℓ κ μ ν} :
    {E : Type ℓ} {A : Type κ} {B : Type μ} (P : B → Type ν) (r : Result E A) {f : E → B} {g : A → B}
    → ((e : E) → r ≡ err e → P (f e))
    → ((a : A) → r ≡ ok a → P (g a))
    → P (elim r [ err e ↦ f e | ok a ↦ g a ])
result_cases P (ok a) p q = q a refl
result_cases P (err e) p q = p e refl

module _ {ℓ} {A : Type ℓ} where
  pub modify-none : (xs : List A) (i : ℕ) (f : A → A) → get_elem? xs i ≡ none → modify xs i f ≡ xs
  modify-none [] i f h = refl
  modify-none (x ∷ xs) zero f h = ground arith
  modify-none (x ∷ xs) (suc i) f h = ap (◌∷◌ x) (modify-none xs i f h)

module _ {ℓ} {A : Type ℓ} where
  pub get_elem?-append_cases :
      (xs : List A) (x : A) (i : ℕ) (y : A)
      → get_elem? (xs ++ x ∷ []) i ≡ some y
      → (get_elem? xs i ≡ some y) ⊎ ((i ≡ length xs) × (y ≡ x))
  get_elem?-append_cases [] x zero y h = inr (refl, (ground arith))
  get_elem?-append_cases [] x (suc i) y h = ground arith
  get_elem?-append_cases (z ∷ xs) x zero y h = inl h
  get_elem?-append_cases (z ∷ xs) x (suc i) y h = elim (get_elem?-append_cases xs x i y h) [
    | inl old ↦ inl old
    | inr (e, f) ↦ inr (ap suc e, f)
  ]

  -- What stands at an index after a write, read backwards.
  pub get_elem?-modify_cases :
      (xs : List A) (i j : ℕ) (f : A → A) (y : A)
      → get_elem? (modify xs i f) j ≡ some y
      → ((j ≢ i) × (get_elem? xs j ≡ some y))
        ⊎ ((j ≡ i) × ((x : A) × (get_elem? xs i ≡ some x) × (y ≡ f x)))
  get_elem?-modify_cases [] i j f y h = ground arith
  get_elem?-modify_cases (z ∷ xs) zero zero f y h = inr (refl, (z, refl, ground arith))
  get_elem?-modify_cases (z ∷ xs) zero (suc j) f y h = inl (omega arith, h)
  get_elem?-modify_cases (z ∷ xs) (suc i) zero f y h = inl (omega arith, h)
  get_elem?-modify_cases (z ∷ xs) (suc i) (suc j) f y h =
      elim (get_elem?-modify_cases xs i j f y h) [
        | inl (n, old) ↦ inl (omega arith, old)
        | inr (e, hit) ↦ inr (ap suc e, hit)
      ]

module _ {ℓ κ} {A : Type ℓ} {B : Type κ} where
  pub get_elem?-map :
      (xs : List A) (i : ℕ) (f : A → B) (y : B)
      → get_elem? (map f xs) i ≡ some y
      → (x : A) × (get_elem? xs i ≡ some x) × (y ≡ f x)
  get_elem?-map [] i f y h = absurd (cc)
  get_elem?-map (x ∷ xs) zero f y h = (x, refl, ground arith)
  get_elem?-map (x ∷ xs) (suc i) f y h = get_elem?-map xs i f y h

  pub get_elem?-map-some :
      (xs : List A) (i : ℕ) (f : A → B) (x : A)
      → get_elem? xs i ≡ some x
      → get_elem? (map f xs) i ≡ some (f x)
  get_elem?-map-some (y ∷ xs) zero f x h = let e : y ≡ x = ground arith in ap (λ z. some (f z)) e
  get_elem?-map-some (y ∷ xs) (suc i) f x h = get_elem?-map-some xs i f x h
  get_elem?-map-some [] i f x h = absurd (cc)

module _ {ℓ} {A : Type ℓ} where
  pub length-modify : (xs : List A) (i : ℕ) (f : A → A) → length (modify xs i f) ≡ length xs
  length-modify [] i f = refl
  length-modify (x ∷ xs) zero f = refl
  length-modify (x ∷ xs) (suc i) f = ap suc (length-modify xs i f)

  pub modify-modify :
      (xs : List A) (i : ℕ) (f g : A → A) → modify (modify xs i f) i g ≡ modify xs i (λ x. g (f x))
  modify-modify [] i f g = refl
  modify-modify (x ∷ xs) zero f g = refl
  modify-modify (x ∷ xs) (suc i) f g = ap (λ ys. x ∷ ys) (modify-modify xs i f g)

  -- Only what is done to the element at the index matters.
  pub modify_congr :
      (xs : List A) (i : ℕ) (f g : A → A) (x : A)
      → get_elem? xs i ≡ some x
      → f x ≡ g x
      → modify xs i f ≡ modify xs i g
  modify_congr [] i f g x h e = refl
  modify_congr (y ∷ xs) zero f g x h e =
      let same : y ≡ x = ground arith in ap (λ z. z ∷ xs) (ap f same ∙ e ∙ ap g (sym same))
  modify_congr (y ∷ xs) (suc i) f g x h e = ap (λ ys. y ∷ ys) (modify_congr xs i f g x h e)
