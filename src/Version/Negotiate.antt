-- ===== src/Version/Negotiate.antt =====
-- What negotiateVersion answers.
use Prim.Native.Nat.{lt, gt}
use kimi_wire_go.Prelude.{
  String, ◌≡◌, refl, sym, subst, inl, inr, ◌==◌, eq_iff, Bool-cases, ◌≢◌, arith,
}
use kimi_wire_go.Version.{
  negotiate_version, wire_protocol_version, wire_protocol_legacy_version, first_version, is_gt,
  is_lt, semver_compare,
}
use kimi_wire_go.Version.Order.{
  AtMost, AtMost-of_lt, AtMost-of_not_lt, semver_compare-swap, AtMost-refl, AtMost-trans,
}

-- The three outcomes, each with the requests that lead to it.
pub data Outcome (r : String) : Type 0 where
  legacy :
      AtMost r first_version
      → ¬ AtMost first_version r
      → negotiate_version r ≡ wire_protocol_legacy_version
      → Outcome r
  newest :
      ¬ AtMost r wire_protocol_version → negotiate_version r ≡ wire_protocol_version → Outcome r
  kept :
      AtMost first_version r → AtMost r wire_protocol_version → negotiate_version r ≡ r → Outcome r

empty_is_old : semver_compare "" first_version ≡ lt
unfolding semver_compare
empty_is_old = refl

not-AtMost_of_gt : (a b : String) → semver_compare a b ≡ gt → ¬ AtMost a b
not-AtMost_of_gt a b h = λ p. p h

not-AtMost_of_lt : (a b : String) → semver_compare a b ≡ lt → ¬ AtMost b a
not-AtMost_of_lt a b h = λ p. p (rw (semver_compare-swap a b, h))

old-Outcome :
    (r : String)
    → semver_compare r first_version ≡ lt
    → negotiate_version r ≡ wire_protocol_legacy_version
    → Outcome r
old-Outcome r h e = legacy (AtMost-of_lt r first_version h) (not-AtMost_of_lt r first_version h) e

-- A request that is neither empty nor older than the first version.
recent-Outcome :
    (r : String)
    → semver_compare r first_version ≢ lt
    → (semver_compare r wire_protocol_version ≡ gt → negotiate_version r ≡ wire_protocol_version)
    → (semver_compare r wire_protocol_version ≢ gt → negotiate_version r ≡ r)
    → Outcome r
recent-Outcome r recent above below =
    elim (Bool-cases (is_gt (semver_compare r wire_protocol_version))) [
      | inl over ↦
          let e : semver_compare r wire_protocol_version ≡ gt = ground arith in
          newest (λ p. p e) (above e)
      | inr fits ↦
          let e : semver_compare r wire_protocol_version ≢ gt = ground arith in
          kept (AtMost-of_not_lt r first_version recent) e (below e)
    ]

-- Every request is answered in one of three ways: the legacy version if it is older than the first
-- version, the newest version if it is newer than that, and the request itself in between.
pub negotiate-Outcome : (r : String) → Outcome r
negotiate-Outcome r = elim (Bool-cases (r == "")) [
  | inl nothing ↦
      old-Outcome r
        (subst (λ s. semver_compare s first_version ≡ lt) (sym ((eq_iff r "").0 nothing))
          empty_is_old)
        (unfold negotiate_version in rw nothing)
  | inr some_text ↦ elim (Bool-cases (is_lt (semver_compare r first_version))) [
    | inl old ↦ old-Outcome r (ground arith) (unfold negotiate_version in rw (some_text, old))
    | inr recent ↦
        recent-Outcome r (ground arith) (λ e. unfold negotiate_version in rw (some_text, recent, e))
          (λ e. unfold negotiate_version in ground arith)
  ]
]

legacy_is_oldest : (r : String) → AtMost wire_protocol_legacy_version (negotiate_version r)
legacy_is_oldest r = elim (negotiate-Outcome r) [
  | legacy _ _ e ↦ rw e (AtMost-refl wire_protocol_legacy_version)
  | newest _ e ↦ rw e (unfold semver_compare in λ h. cc)
  | kept p _ e ↦ rw e (
      AtMost-trans wire_protocol_legacy_version first_version r (unfold semver_compare in λ h. cc)
        p)
]

legacy_negotiates_to_itself :
    negotiate_version wire_protocol_legacy_version ≡ wire_protocol_legacy_version
unfolding negotiate_version semver_compare
legacy_negotiates_to_itself = refl

newest_negotiates_to_itself : negotiate_version wire_protocol_version ≡ wire_protocol_version
unfolding negotiate_version semver_compare
newest_negotiates_to_itself = refl

-- Negotiating the answer once more gives the same answer.
pub negotiate_idempotent :
    (r : String) → negotiate_version (negotiate_version r) ≡ negotiate_version r
negotiate_idempotent r = elim (negotiate-Outcome r) [
  | legacy _ _ e ↦ rw e legacy_negotiates_to_itself
  | newest _ e ↦ rw e newest_negotiates_to_itself
  | kept _ _ e ↦ rw (e, e)
]

newest_is_recent : ¬ AtMost wire_protocol_version first_version
unfolding semver_compare
newest_is_recent p = p refl

AtMost-total : (a b : String) → ¬ AtMost a b → AtMost b a
AtMost-total a b h = ground (arith, semver_compare-swap a b)

first_is_old : AtMost first_version wire_protocol_version
unfolding semver_compare
first_is_old h = cc

-- What is no older than a recent version is recent.
recent_above : (r s : String) → AtMost first_version r → AtMost r s → AtMost first_version s
recent_above r s = AtMost-trans first_version r s

newest_monotone :
    (r s : String)
    → AtMost r s
    → ¬ AtMost r wire_protocol_version
    → AtMost wire_protocol_version (negotiate_version s)
newest_monotone r s h over = elim (negotiate-Outcome s) [
  | legacy _ old _ ↦ absurd (old (recent_above r s first_r h))
  | newest _ e ↦ rw e (AtMost-refl wire_protocol_version)
  | kept _ high _ ↦ absurd (over (AtMost-trans r s wire_protocol_version h high))
]
  where
    first_r : AtMost first_version r
    first_r =
        AtMost-trans first_version wire_protocol_version r first_is_old
          (AtMost-total r wire_protocol_version over)

kept_monotone :
    (r s : String)
    → AtMost r s
    → AtMost first_version r
    → AtMost r wire_protocol_version
    → AtMost r (negotiate_version s)
kept_monotone r s h low high = elim (negotiate-Outcome s) [
  | legacy _ old _ ↦ absurd (old (recent_above r s low h))
  | newest _ e ↦ rw e high
  | kept _ _ e ↦ rw e h
]

-- A client that asks for a version that is not older than another gets one that is not older.
pub negotiate_monotone :
    (r s : String) → AtMost r s → AtMost (negotiate_version r) (negotiate_version s)
negotiate_monotone r s h = elim (negotiate-Outcome r) [
  | legacy _ _ e ↦ rw e (legacy_is_oldest s)
  | newest over e ↦ rw e (newest_monotone r s h over)
  | kept low high e ↦ rw e (kept_monotone r s h low high)
]
