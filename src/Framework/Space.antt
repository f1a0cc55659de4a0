-- ===== src/Framework/Space.antt =====
-- The spaces that `get_space` reserves for the two record types of the addin API.
use iam_governance_plugin.Base.{ℕ, ◌+◌, ◌≤◌, ◌≡◌, Option, none, some, length, arith}
use iam_governance_plugin.State.{
  VoterWeightRecord, VoterInRange, voter_weight_record_space, MaxVoterWeightRecord, MaxInRange,
  max_voter_weight_record_space,
}
use iam_governance_plugin.Framework.{Framework}
use iam_governance_plugin.Framework.Laws.{CodecLaws, option_size}

-- Where there is a value.
abbrev pub IsSome {ℓ} : {A : Type ℓ} → Option A → Type 0
IsSome none = ⊥
IsSome (some _) = Unit

full {ℓ} : {A : Type ℓ} (n : ℕ) (o : Option A) → option_size n o ≤ 1 + n
full n none = omega arith
full n (some _) = omega arith

filled {ℓ} : {A : Type ℓ} (n : ℕ) (o : Option A) → IsSome o → option_size n o ≡ 1 + n
filled n none h = elim h [ ]
filled n (some _) h = omega arith

module _ (fw : Framework) (laws : CodecLaws fw) where
  -- Under the framework's laws: every voter weight record within its types' ranges fits the
  -- reserved space.
  pub voter_weight_record_fits :
      (v : VoterWeightRecord)
      → VoterInRange v
      → length (fw.voter_weight_record.serialize v) ≤ voter_weight_record_space
  voter_weight_record_fits v h = omega (
    arith,
    laws.voter_size v h,
    full 8 v.voter_weight_expiry,
    full 1 v.weight_action,
    full 32 v.weight_action_target,
  )

  -- Under the framework's laws: every max voter weight record within its types' ranges fits the
  -- reserved space.
  pub max_voter_weight_record_fits :
      (m : MaxVoterWeightRecord)
      → MaxInRange m
      → length (fw.max_voter_weight_record.serialize m) ≤ max_voter_weight_record_space
  max_voter_weight_record_fits m h =
      omega (arith, laws.max_size m h, full 8 m.max_voter_weight_expiry)

  -- Under the framework's laws: a voter weight record whose three options hold values fills the
  -- reserved space exactly.
  pub voter_weight_record_fills :
      (v : VoterWeightRecord)
      → VoterInRange v
      → IsSome v.voter_weight_expiry
      → IsSome v.weight_action
      → IsSome v.weight_action_target
      → length (fw.voter_weight_record.serialize v) ≡ voter_weight_record_space
  voter_weight_record_fills v h p q r = omega (
    arith,
    laws.voter_size v h,
    filled 8 v.voter_weight_expiry p,
    filled 1 v.weight_action q,
    filled 32 v.weight_action_target r,
  )
