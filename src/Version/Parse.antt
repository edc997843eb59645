-- ===== src/Version/Parse.antt =====
-- splitVersion reads back the parts that a version was printed from.
use mathlib.Core.List.{append-nil, append_assoc}
use Prim.Native.Nat.{lt}
use Prim.Native.Char.{code}
use kimi_wire_go.Prelude.Decimal.{digit, emit, decimal, code-digit}
use kimi_wire_go.Prelude.{
  ℕ, zero, suc, ◌+◌, ◌<◌, ◌≡◌, ◌-◌, ◌*◌, ◌/◌, ◌%◌, ◌≤◌, String, ap, ◌∙◌, inl, inr, List, [], ◌∷◌,
  ◌++◌, arith, ltb, Bool-cases, ◌^◌, sym, ◌≢◌, true, eq_iff,
}
use kimi_wire_go.Version.{
  codes, int_mod, atoi, atoi_from, negotiate_version, split_version, wire_protocol_legacy_version,
  split_from, semver_compare, first_version, signed_key, compare_parts,
}

-- The parts, each in decimal, with dots between them.
pub print_version : ℕ → List ℕ → List ℕ
print_version n [] = codes (decimal n)
print_version n (m ∷ ms) = codes (decimal n) ++ b'.' ∷ print_version m ms

code_digit_bounds : (d : ℕ) → (48 ≤ code (digit d)) × (code (digit d) ≤ 57)
unfolding digit
code_digit_bounds zero = omega arith
code_digit_bounds (suc zero) = omega arith
code_digit_bounds (suc (suc zero)) = omega arith
code_digit_bounds (suc (suc (suc zero))) = omega arith
code_digit_bounds (suc (suc (suc (suc zero)))) = omega arith
code_digit_bounds (suc (suc (suc (suc (suc zero))))) = omega arith
code_digit_bounds (suc (suc (suc (suc (suc (suc zero)))))) = omega arith
code_digit_bounds (suc (suc (suc (suc (suc (suc (suc zero))))))) = omega arith
code_digit_bounds (suc (suc (suc (suc (suc (suc (suc (suc zero)))))))) = omega arith
code_digit_bounds (suc (suc (suc (suc (suc (suc (suc (suc (suc n))))))))) = omega arith

-- One digit in front of a text, as atoi reads it.
atoi_step :
    (acc d : ℕ) (s : List ℕ)
    → d < 10
    → acc * 10 + d < int_mod
    → atoi_from acc (code (digit d) ∷ s) ≡ atoi_from (acc * 10 + d) s
unfolding atoi_from
atoi_step acc d s h fits = ground (
  arith,
  code_digit_bounds d,
  code-digit d h,
  ap (λ k. atoi_from k s)
      (fits_lem (acc * 10 + (code (digit d) - 48)) (acc * 10 + d) (omega (arith, code-digit d h))
        fits),
)
  where
    fits_lem : (k m : ℕ) → k ≡ m → m < int_mod → k % int_mod ≡ m
    fits_lem k m e f = omega arith

atoi-emit :
    (fuel n : ℕ) (out : String)
    → n < fuel
    → n < int_mod
    → atoi_from 0 (codes (emit fuel n out)) ≡ atoi_from n (codes out)
unfolding emit
atoi-emit zero n out h fits = absurd (omega arith)
atoi-emit (suc fuel) n out h fits = elim (Bool-cases (ltb n 10)) [
  | inl small ↦ rw small (
      atoi_step 0 n (codes out) (ground arith) (omega arith)
      ∙ ap (λ k. atoi_from k (codes out)) (omega arith))
  | inr large ↦ rw large (
      atoi-emit fuel (n / 10) _ (ground arith) (omega arith)
      ∙ atoi_step (n / 10) (n % 10) (codes out) (omega arith) (omega arith)
      ∙ ap (λ k. atoi_from k (codes out)) (omega arith))
]

pub atoi-decimal : (n : ℕ) → n < int_mod → atoi (codes (decimal n)) ≡ n
unfolding decimal atoi
atoi-decimal n fits = atoi-emit (suc n) n "" (omega arith) fits

abbrev NoDots : List ℕ → Type 0
NoDots [] = Unit {0}
NoDots (c ∷ s) = (c ≢ b'.') × NoDots s

NoDots-emit : (fuel n : ℕ) (out : String) → NoDots (codes out) → NoDots (codes (emit fuel n out))
unfolding emit
NoDots-emit zero n out h = h
NoDots-emit (suc fuel) n out h = elim (Bool-cases (ltb n 10)) [
  | inl small ↦ rw small (omega (arith, code_digit_bounds n), h)
  | inr large ↦
      rw large (NoDots-emit fuel (n / 10) _ (omega (arith, code_digit_bounds (n % 10)), h))
]

NoDots-decimal : (n : ℕ) → NoDots (codes (decimal n))
unfolding decimal
NoDots-decimal n = NoDots-emit (suc n) n "" tt

-- Up to the next dot, splitVersion only moves on.
split_from-append :
    (current ds rest : List ℕ)
    → NoDots ds
    → split_from current (ds ++ rest) ≡ split_from (current ++ ds) rest
unfolding split_from
split_from-append current [] rest h = rw append-nil
split_from-append current (d ∷ ds) rest h =
    ground
      (arith, split_from-append (current ++ d ∷ []) ds rest h.1, append_assoc current (d ∷ []) ds)

split_last : (n : ℕ) → n < int_mod → split_from [] (codes (decimal n)) ≡ n ∷ []
unfolding split_from
split_last n fits =
    ap (split_from []) (sym (append-nil (codes (decimal n))))
    ∙ split_from-append [] (codes (decimal n)) [] (NoDots-decimal n)
    ∙ ap (λ k. k ∷ []) (atoi-decimal n fits)

split_more :
    (n : ℕ) (rest : List ℕ)
    → n < int_mod
    → split_from [] (codes (decimal n) ++ b'.' ∷ rest) ≡ n ∷ split_from [] rest
unfolding split_from
split_more n rest fits =
    split_from-append [] (codes (decimal n)) (b'.' ∷ rest) (NoDots-decimal n)
    ∙ ap (λ k. k ∷ split_from [] rest) (atoi-decimal n fits)

abbrev pub Fits : List ℕ → Type 0
Fits [] = Unit {0}
Fits (n ∷ ns) = (n < 2 ^ 63) × Fits ns

-- Parts below 2^63, printed in decimal with dots between them, are read back as they are.
pub split-print :
    (n : ℕ) (ms : List ℕ) → n < 2 ^ 63 → Fits ms → split_version (print_version n ms) ≡ n ∷ ms
unfolding split_version print_version
split-print n [] h f = split_last n (omega (arith, h))
split-print n (m ∷ ms) h f =
    split_more n (print_version m ms) (omega (arith, h))
    ∙ ap (λ k. n ∷ k) (split-print m ms f.0 f.1)

signed_key_negative : (n : ℕ) → 2 ^ 63 ≤ n → n < int_mod → ltb (signed_key n) (signed_key 1) ≡ true
signed_key_negative n big fits =
    let e : signed_key n ≡ n - 2 ^ 63 = omega arith in rw e (ground arith)

not-empty-decimal : (n : ℕ) → n < int_mod → 0 < n → decimal n ≢ ""
unfolding atoi atoi_from
not-empty-decimal n fits h e =
    absurd (omega (arith, sym (atoi-decimal n fits) ∙ ap (λ s. atoi (codes s)) e))

overflow_compares_low :
    (n : ℕ) → 2 ^ 63 ≤ n → n < int_mod → semver_compare (decimal n) first_version ≡ lt
unfolding semver_compare
overflow_compares_low n big fits =
    ap (λ xs. compare_parts xs (split_version (codes first_version))) (split_last n fits)
    ∙ rw (signed_key_negative n big fits)

-- A version whose only part is at least 2^63 and below 2^64 is answered with the legacy version.
pub overflow_is_legacy :
    (n : ℕ)
    → 2 ^ 63 ≤ n
    → n < int_mod
    → negotiate_version (decimal n) ≡ wire_protocol_legacy_version
unfolding negotiate_version
overflow_is_legacy n big fits =
    ground
      (arith, overflow_compares_low n big fits, eq_iff (decimal n) "", not-empty-decimal n fits)
