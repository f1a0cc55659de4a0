-- ===== src/Identity/Recency.antt =====
-- The age of a verification against exact integers, and the two eligibility tests together.
use iam_governance_plugin.Base.{ℕ, ◌≤◌, ◌≡◌, ◌↔◌, leb→le, le→leb, arith}
use iam_governance_plugin.Base.Int.{ℤ, pos, ◌-ℤ◌, ◌<ℤ◌, ◌≤ℤ◌, IsI64, ltb_ℤ_iff}
use iam_governance_plugin.Errors.{Result, ok, >>=-eq-ok, require-eq-ok}
use iam_governance_plugin.Solana.{Clock}
use iam_governance_plugin.Identity.{IdentityFields, verification_age, check_eligibility}

-- For `i64` values, with the clock not before 1970, the saturating age is below a window exactly
-- if the true difference is.
pub verification_age_lt_iff :
    (now last window : ℤ)
    → IsI64 now
    → IsI64 last
    → IsI64 window
    → pos 0 ≤ℤ now
    → (verification_age now last <ℤ window) ↔ (now -ℤ last <ℤ window)
unfolding verification_age ◌-ℤ◌
verification_age_lt_iff now last window hn hl hw h = ground arith

-- For `i64` values, with the clock not before 1970: the age of a verification dated at or after
-- the clock's time is the exact difference, which is not positive, and so below every positive
-- window. It does not saturate.
pub verification_age_future :
    (now last window : ℤ)
    → IsI64 now
    → IsI64 last
    → pos 0 ≤ℤ now
    → now ≤ℤ last
    → pos 0 <ℤ window
    → (verification_age now last ≡ now -ℤ last)
      × (verification_age now last ≤ℤ pos 0)
      × (verification_age now last <ℤ window)
unfolding verification_age ◌-ℤ◌
verification_age_future now last window hn hl h later hw = ground arith

-- The meaning of the two tests.
pub record IsEligible (i : IdentityFields) (min_trust_score : ℕ) (window : ℤ) (clock : Clock)
    : Type 0 where
  pub trusted : min_trust_score ≤ i.trust_score
  pub recent : verification_age clock.unix_timestamp i.last_verification_timestamp <ℤ window

check_eligibility-IsEligible :
    (i : IdentityFields) (floor : ℕ) (window : ℤ) (get_clock : Result Clock) (clock : Clock)
    → check_eligibility i floor window get_clock ≡ ok clock
    → (get_clock ≡ ok clock) × IsEligible i floor window clock
unfolding check_eligibility
check_eligibility-IsEligible i floor window get_clock clock h =
    let (trusted, h₁) = require-eq-ok _ _ _ h in
    let (now, read, h₂) = >>=-eq-ok _ _ h₁ in
    let (recent, h₃) = require-eq-ok _ _ _ h₂ in
    let same : now ≡ clock = cc h₃ in
    (
      rw (← same) read,
      rw (← same) (record { trusted = leb→le _ _ trusted; recent = (ltb_ℤ_iff _ window).0 recent }),
    )

IsEligible-check_eligibility :
    (i : IdentityFields) (floor : ℕ) (window : ℤ) (clock : Clock)
    → IsEligible i floor window clock
    → check_eligibility i floor window (ok clock) ≡ ok clock
unfolding check_eligibility
IsEligible-check_eligibility i floor window clock h =
    rw (le→leb _ _ h.trusted, (ltb_ℤ_iff _ window).1 h.recent)

-- The tests pass exactly if the clock is read, the score reaches the floor, and the age of the
-- verification at that clock is below the window.
pub check_eligibility_iff :
    (i : IdentityFields) (floor : ℕ) (window : ℤ) (get_clock : Result Clock) (clock : Clock)
    → (check_eligibility i floor window get_clock ≡ ok clock)
      ↔ ((get_clock ≡ ok clock) × IsEligible i floor window clock)
check_eligibility_iff i floor window get_clock clock = (
  check_eligibility-IsEligible i floor window get_clock clock,
  λ h. rw h.0 (IsEligible-check_eligibility i floor window clock h.1),
)
