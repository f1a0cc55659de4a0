-- ===== src/Instructions/CloseVoterWeightRecord.antt =====
-- instructions/close_voter_weight_record.rs
pub mod Outcome
pub mod Complete
use iam_governance_plugin.Errors.{
  Result, ◌>>=◌, ◌>>◌, ok, err, require, entros, voter_weight_record_realm_mismatch,
  voter_weight_record_mint_mismatch, voter_weight_record_owner_mismatch,
}
use iam_governance_plugin.Solana.{key_eq, Ledger, AccountInfo}
use iam_governance_plugin.State.{id, VoterWeightRecord}
use iam_governance_plugin.Framework.{Framework}
use iam_governance_plugin.Governance.Voter
use iam_governance_plugin.Seeds.{registrar_seeds}
use iam_governance_plugin.Anchor.{
  signer, mutable, seeded, account, closable, registrar_try_deserialize,
}

pub record CloseVoterWeightRecord : Type 0 where
  pub registrar : AccountInfo
  pub voter_weight_record : AccountInfo
  pub voter_authority : AccountInfo
  pub sol_destination : AccountInfo

-- The checks of the accounts struct; the record is read.
unfoldable pub accounts : Framework → CloseVoterWeightRecord → Ledger → Result VoterWeightRecord
accounts fw ctx l = do
  registrar ← account fw id (registrar_try_deserialize fw) ctx.registrar l
  voter_weight_record ←
      account fw Voter.owner (Voter.try_deserialize_unchecked fw) ctx.voter_weight_record l
  signer ctx.voter_authority
  seeded fw (registrar_seeds registrar.realm registrar.governing_token_mint) ctx.registrar
  mutable ctx.voter_weight_record
  require (key_eq voter_weight_record.realm registrar.realm)
      (entros voter_weight_record_realm_mismatch)
  require (key_eq voter_weight_record.governing_token_mint registrar.governing_token_mint)
      (entros voter_weight_record_mint_mismatch)
  closable ctx.voter_weight_record ctx.sol_destination
  mutable ctx.sol_destination
  ok voter_weight_record

-- The handler only checks the owner.
unfoldable pub close_voter_weight_record :
    CloseVoterWeightRecord → VoterWeightRecord → Result (Unit {0})
close_voter_weight_record ctx voter_weight_record =
    require (key_eq voter_weight_record.governing_token_owner ctx.voter_authority.key)
      (entros voter_weight_record_owner_mismatch)

-- The instruction: checks, handler, and the closing of the record.
unfoldable pub run : Framework → CloseVoterWeightRecord → Ledger → Result Ledger
unfolding accounts close_voter_weight_record account registrar_try_deserialize
    Voter.try_deserialize_unchecked
run fw ctx l = do
  voter_weight_record ← accounts fw ctx l
  close_voter_weight_record ctx voter_weight_record
  fw.close ctx.voter_weight_record.key ctx.sol_destination.key l
