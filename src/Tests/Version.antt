-- ===== src/Tests/Version.antt =====
-- Versions.
use kimi_wire_go.Prelude.{◌^◌, ◌≡◌, refl, [], ◌∷◌, arith}
use kimi_wire_go.Version.Parse.{print_version, overflow_is_legacy, split-print}
use kimi_wire_go.Version.{
  semver_compare, negotiate_version, split_version, wire_protocol_legacy_version,
}
use kimi_wire_go.Prelude.Decimal.{decimal}
use kimi_wire_go.Version.Order.{AtMost, swap, semver_compare-swap, AtMost-trans}
use kimi_wire_go.Version.Negotiate.{
  negotiate_monotone, Outcome, negotiate_idempotent, negotiate-Outcome,
}

newer_is_capped : negotiate_version "2.0" ≡ "1.10"
unfolding negotiate_version semver_compare
newer_is_capped = refl

older_is_legacy : negotiate_version "1.0.9" ≡ "legacy/no-handshake"
unfolding negotiate_version semver_compare
older_is_legacy = refl

between_is_kept : negotiate_version "1.5" ≡ "1.5"
unfolding negotiate_version semver_compare
between_is_kept = refl

negotiate-Outcome_example : Outcome "1.5"
negotiate-Outcome_example = negotiate-Outcome "1.5"

three-AtMost : AtMost "1.3" "1.12"
unfolding semver_compare
three-AtMost e = cc e

negotiate_monotone_example : AtMost (negotiate_version "1.3") (negotiate_version "1.12")
negotiate_monotone_example = negotiate_monotone "1.3" "1.12" three-AtMost

negotiate_idempotent_example : negotiate_version (negotiate_version "2.0") ≡ negotiate_version "2.0"
negotiate_idempotent_example = negotiate_idempotent "2.0"

semver_compare-swap_example : semver_compare "1.5" "1.10" ≡ swap (semver_compare "1.10" "1.5")
semver_compare-swap_example = semver_compare-swap "1.10" "1.5"

twelve-AtMost : AtMost "1.12" "2"
unfolding semver_compare
twelve-AtMost e = cc e

AtMost-trans_example : AtMost "1.3" "2"
AtMost-trans_example = AtMost-trans "1.3" "1.12" "2" three-AtMost twelve-AtMost

split-print_example : split_version (print_version 1 (10 ∷ 4 ∷ [])) ≡ 1 ∷ 10 ∷ 4 ∷ []
split-print_example = split-print 1 (10 ∷ 4 ∷ []) (omega arith) (omega arith, (omega arith, tt))

overflow_is_legacy_example : negotiate_version (decimal (2 ^ 63)) ≡ wire_protocol_legacy_version
overflow_is_legacy_example = overflow_is_legacy (2 ^ 63) (omega arith) (omega arith)
