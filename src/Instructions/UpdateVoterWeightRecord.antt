-- ===== src/Instructions/UpdateVoterWeightRecord.antt =====
-- instructions/update_voter_weight_record.rs; the reading of the identity account is in `Identity`.
pub mod Outcome
pub mod Complete
use iam_governance_plugin.Base.{none, some, List}
use iam_governance_plugin.Errors.{
  Result, ◌>>=◌, ◌>>◌, ok, err, require, entros, voter_weight_record_realm_mismatch,
  voter_weight_record_mint_mismatch, voter_weight_record_owner_mismatch,
}
use iam_governance_plugin.Solana.{key_eq, Ledger, AccountInfo, Clock}
use iam_governance_plugin.State.{id, Registrar, VoterWeightRecord}
use iam_governance_plugin.Framework.{Framework}
use iam_governance_plugin.Governance.Voter
use iam_governance_plugin.Seeds.{registrar_seeds}
use iam_governance_plugin.Anchor.{signer, mutable, seeded, account, exit, registrar_try_deserialize}
use iam_governance_plugin.Identity.{read_identity, check_eligibility, saturating_add}

-- `remaining_accounts` are those of the context.
pub record UpdateVoterWeightRecord : Type 0 where
  pub registrar : AccountInfo
  pub voter_weight_record : AccountInfo
  pub voter_authority : AccountInfo
  pub remaining_accounts : List AccountInfo

-- The checks of the accounts struct; the registrar and the record are read.
unfoldable pub accounts :
    Framework → UpdateVoterWeightRecord → Ledger → Result (Registrar × VoterWeightRecord)
accounts fw ctx l = do
  registrar ← account fw id (registrar_try_deserialize fw) ctx.registrar l
  voter_weight_record ←
      account fw Voter.owner (Voter.try_deserialize_unchecked fw) ctx.voter_weight_record l
  signer ctx.voter_authority
  seeded fw (registrar_seeds registrar.realm registrar.governing_token_mint) ctx.registrar
  mutable ctx.voter_weight_record
  require (key_eq voter_weight_record.realm registrar.realm)
      (entros voter_weight_record_realm_mismatch)
  require (key_eq voter_weight_record.governing_token_mint registrar.governing_token_mint)
      (entros voter_weight_record_mint_mismatch)
  ok (registrar, voter_weight_record)

-- The handler: the record as it leaves it. `get_clock` is what `Clock::get()` returns.
unfoldable pub update_voter_weight_record :
    Framework
    → UpdateVoterWeightRecord
    → Result Clock
    → Registrar
    → VoterWeightRecord
    → Ledger
    → Result VoterWeightRecord
update_voter_weight_record fw ctx get_clock registrar voter_weight_record l = do
  let voter = ctx.voter_authority.key
  require (key_eq voter_weight_record.governing_token_owner voter)
      (entros voter_weight_record_owner_mismatch)
  identity ← read_identity fw voter ctx.remaining_accounts l
  clock ←
      check_eligibility identity registrar.min_trust_score registrar.max_verification_age get_clock
  ok (record voter_weight_record {
    voter_weight = 1;
    voter_weight_expiry = some (saturating_add clock.slot 100);
    weight_action = none;
    weight_action_target = none;
  })

-- The instruction: checks, handler, and the write of the record.
unfoldable pub run : Framework → UpdateVoterWeightRecord → Result Clock → Ledger → Result Ledger
unfolding accounts update_voter_weight_record exit Voter.try_serialize account
    registrar_try_deserialize Voter.try_deserialize_unchecked read_identity check_eligibility
    saturating_add
run fw ctx get_clock l = do
  (registrar, voter_weight_record) ← accounts fw ctx l
  updated ← update_voter_weight_record fw ctx get_clock registrar voter_weight_record l
  exit (Voter.try_serialize fw updated) ctx.voter_weight_record l
