-- ===== src/Program/Genuine.antt =====
-- The invariant of the accounts that the program owns: each holds zeros or one well-formed record
-- of the program, at the address that the record's own fields derive.
use iam_governance_plugin.Base.{ℕ, length, ◌≤◌, ◌<◌, ◌≡◌, ◌⊎◌, none, some, ◌++◌, replicate}
use iam_governance_plugin.Base.Int.{pos, ◌<ℤ◌}
use iam_governance_plugin.Base.Bytes.{Bytes}
use iam_governance_plugin.Solana.{Pubkey, Ledger}
use iam_governance_plugin.State.{
  id, registrar_len, voter_weight_record_space, max_voter_weight_record_space, Registrar,
  RegistrarInRange, VoterWeightRecord, VoterInRange, MaxVoterWeightRecord, MaxInRange,
}
use iam_governance_plugin.Framework.{Framework}
use iam_governance_plugin.Seeds.{
  derived, registrar_seeds, voter_weight_record_seeds, max_voter_weight_record_seeds,
}

pub record IsGoodRegistrar (fw : Framework) (k : Pubkey) (r : Registrar) : Type 0 where
  pub range : RegistrarInRange r
  pub address : k ≡ derived fw (registrar_seeds r.realm r.governing_token_mint)
  pub positive : pos 0 <ℤ r.max_verification_age

-- A record is as it was created, without weight and expired, or carries the weight 1 with an expiry of
-- at least 100. Which clock the expiry counts from is a matter of the history, in Earned.
abbrev pub IsBallot : VoterWeightRecord → Type 0
IsBallot v =
    ((v.voter_weight ≡ 0) × (v.voter_weight_expiry ≡ some 0))
    ⊎ ((v.voter_weight ≡ 1)
        × ((expiry : ℕ) × (v.voter_weight_expiry ≡ some expiry) × (100 ≤ expiry)))

pub record IsGoodVoter (fw : Framework) (k : Pubkey) (v : VoterWeightRecord) : Type 0 where
  pub range : VoterInRange v
  pub tagged : v.account_discriminator ≡ fw.voter_weight_record_discriminator
  pub address :
      k
      ≡ derived fw
          (voter_weight_record_seeds v.realm v.governing_token_mint v.governing_token_owner)
  pub ballot : IsBallot v
  pub any_action : v.weight_action ≡ none
  pub any_target : v.weight_action_target ≡ none

-- A maximum is as it was created, zero and expired, or positive and without expiry.
abbrev pub IsMaximum : MaxVoterWeightRecord → Type 0
IsMaximum m =
    ((m.max_voter_weight ≡ 0) × (m.max_voter_weight_expiry ≡ some 0))
    ⊎ ((0 < m.max_voter_weight) × (m.max_voter_weight_expiry ≡ none))

pub record IsGoodMax (fw : Framework) (k : Pubkey) (m : MaxVoterWeightRecord) : Type 0 where
  pub range : MaxInRange m
  pub tagged : m.account_discriminator ≡ fw.max_voter_weight_record_discriminator
  pub address : k ≡ derived fw (max_voter_weight_record_seeds m.realm m.governing_token_mint)
  pub maximum : IsMaximum m

pub data IsGenuine (fw : Framework) (k : Pubkey) (bytes : Bytes) : Type 0 where
  -- an account that another program has assigned to this one, with data of zeros
  blank : (n : ℕ) → bytes ≡ replicate n 0 → IsGenuine fw k bytes
  registrar :
      (r : Registrar) (rest : Bytes)
      → registrar_len ≤ length bytes
      → bytes ≡ fw.registrar.serialize r ++ rest
      → IsGoodRegistrar fw k r
      → IsGenuine fw k bytes
  voter :
      (v : VoterWeightRecord) (rest : Bytes)
      → voter_weight_record_space ≤ length bytes
      → bytes ≡ fw.voter_weight_record.serialize v ++ rest
      → IsGoodVoter fw k v
      → IsGenuine fw k bytes
  maximum :
      (m : MaxVoterWeightRecord) (rest : Bytes)
      → max_voter_weight_record_space ≤ length bytes
      → bytes ≡ fw.max_voter_weight_record.serialize m ++ rest
      → IsGoodMax fw k m
      → IsGenuine fw k bytes

pub record IsSound (fw : Framework) (l : Ledger) : Type 0 where
  pub genuine : (k : Pubkey) → (l k).owner ≡ id → IsGenuine fw k (l k).bytes
