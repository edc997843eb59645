-- ===== src/Version.antt =====
-- Version negotiation: negotiateVersion, semverCompare, splitVersion and atoi of server/server.go,
-- and the version constants of protocol/protocol_method.go. A Go string that came out of the JSON
-- decoder is valid UTF-8, so the walk over its code points meets the dots and the digits where the
-- walk over its bytes meets them. An `int` has 64 bits and wraps.
pub mod Parse
pub mod Order
pub mod Negotiate
use Prim.Native.Char.{code}
use Prim.Native.Nat.{Ordering, lt, eq, gt}
use kimi_wire_go.Prelude.{
  ℕ, ◌+◌, ◌-◌, ◌*◌, ◌%◌, ◌^◌, String, Bool, true, false, ◌||◌, List, [], ◌∷◌, ◌++◌, ltb, eqb,
  if◌then◌else◌, ◌==◌,
}

abbrev pub wire_protocol_version : String
wire_protocol_version = "1.10"

abbrev pub wire_protocol_legacy_version : String
wire_protocol_legacy_version = "legacy/no-handshake"

-- The first version with a handshake.
abbrev pub first_version : String
first_version = "1.1"

abbrev pub codes : String → List ℕ
codes String.[] = []
codes (String.◌∷◌ c s) = code c ∷ codes s

-- An `int` is its 64-bit pattern.
abbrev pub int_mod : ℕ
int_mod = 2 ^ 64

atoi_from : ℕ → List ℕ → ℕ
atoi_from n [] = n
atoi_from n (c ∷ s) =
    if ltb c b'0' || ltb b'9' c then n else atoi_from ((n * 10 + (c - b'0')) % int_mod) s

pub atoi : List ℕ → ℕ
unfolding atoi_from
atoi s = atoi_from 0 s

-- `current` is v[start:i].
split_from : List ℕ → List ℕ → List ℕ
split_from current [] = atoi current ∷ []
split_from current (c ∷ v) =
    let after = split_from [] v in
    let longer = split_from (current ++ c ∷ []) v in
    if eqb c b'.' then atoi current ∷ after else longer

-- Each part is an int, kept as its 64-bit pattern; the comparison reads it as signed.
pub split_version : List ℕ → List ℕ
unfolding split_from
split_version v = split_from [] v

-- The order of signed numbers on their patterns.
abbrev pub signed_key : ℕ → ℕ
signed_key x = (x + 2 ^ 63) % int_mod

-- One round of the loop of semverCompare; `rest` is the outcome of the later rounds.
pub compare_step : ℕ → ℕ → Ordering → Ordering
compare_step va vb rest =
    if ltb (signed_key va) (signed_key vb)
    then lt
    else if ltb (signed_key vb) (signed_key va)
    then gt
    else rest

-- The rounds, with 0 for a part that is missing.
pub compare_parts : List ℕ → List ℕ → Ordering
compare_parts [] [] = eq
compare_parts [] (b ∷ bs) = compare_step 0 b (compare_parts [] bs)
compare_parts (a ∷ as_) [] = compare_step a 0 (compare_parts as_ [])
compare_parts (a ∷ as_) (b ∷ bs) = compare_step a b (compare_parts as_ bs)

-- The results -1, 0 and 1 are lt, eq and gt.
unfoldable pub semver_compare : String → String → Ordering
unfolding split_version split_from atoi atoi_from compare_parts compare_step
semver_compare a b = compare_parts (split_version (codes a)) (split_version (codes b))

abbrev pub is_lt : Ordering → Bool
is_lt lt = true
is_lt eq = false
is_lt gt = false

abbrev pub is_gt : Ordering → Bool
is_gt lt = false
is_gt eq = false
is_gt gt = true

unfoldable pub negotiate_version : String → String
negotiate_version requested =
    if requested == ""
    then wire_protocol_legacy_version
    else if is_lt (semver_compare requested first_version)
    then wire_protocol_legacy_version
    else if is_gt (semver_compare requested wire_protocol_version)
    then wire_protocol_version
    else requested
