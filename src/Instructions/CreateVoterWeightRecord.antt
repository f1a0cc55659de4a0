-- ===== src/Instructions/CreateVoterWeightRecord.antt =====
-- instructions/create_voter_weight_record.rs
pub mod Outcome
pub mod Complete
use iam_governance_plugin.Base.{none, some}
use iam_governance_plugin.Errors.{
  Result, ◌>>=◌, ◌>>◌, ok, err, require, entros, governing_token_owner_signer_mismatch,
}
use iam_governance_plugin.Solana.{Pubkey, key_eq, Ledger, AccountInfo}
use iam_governance_plugin.State.{id, Registrar, VoterWeightRecord, voter_weight_record_space}
use iam_governance_plugin.Framework.{Framework}
use iam_governance_plugin.Governance.Voter
use iam_governance_plugin.Seeds.{registrar_seeds, voter_weight_record_seeds}
use iam_governance_plugin.Anchor.{
  signer, program, mutable, seeded, account, init, exit, registrar_try_deserialize,
}

pub record CreateVoterWeightRecord : Type 0 where
  pub registrar : AccountInfo
  pub voter_weight_record : AccountInfo
  pub governing_token_owner_signer : AccountInfo
  pub payer : AccountInfo
  pub system_program : AccountInfo

-- The checks of the accounts struct; the registrar is read, and the record is created.
unfoldable pub accounts :
    Framework
    → CreateVoterWeightRecord
    → Pubkey
    → Ledger
    → Result (Registrar × VoterWeightRecord × Ledger)
accounts fw ctx governing_token_owner l = do
  registrar ← account fw id (registrar_try_deserialize fw) ctx.registrar l
  signer ctx.governing_token_owner_signer
  signer ctx.payer
  program fw.system_program ctx.system_program
  (voter_weight_record, l') ←
      init fw Voter.owner (Voter.try_deserialize_unchecked fw)
        (voter_weight_record_seeds registrar.realm registrar.governing_token_mint
          governing_token_owner)
        voter_weight_record_space ctx.payer ctx.voter_weight_record l
  seeded fw (registrar_seeds registrar.realm registrar.governing_token_mint) ctx.registrar
  mutable ctx.payer
  ok (registrar, voter_weight_record, l')

-- The handler: the record as it leaves it.
unfoldable pub create_voter_weight_record :
    Framework
    → CreateVoterWeightRecord
    → Pubkey
    → Registrar
    → VoterWeightRecord
    → Result VoterWeightRecord
create_voter_weight_record fw ctx governing_token_owner registrar voter_weight_record = do
  require (key_eq ctx.governing_token_owner_signer.key governing_token_owner)
      (entros governing_token_owner_signer_mismatch)
  ok (record voter_weight_record {
    account_discriminator = Voter.discriminator fw;
    realm = registrar.realm;
    governing_token_mint = registrar.governing_token_mint;
    governing_token_owner = governing_token_owner;
    voter_weight = 0;
    voter_weight_expiry = some 0;
    weight_action = none;
    weight_action_target = none;
  })

-- The instruction: checks, creation, handler, and the write of the record.
unfoldable pub run : Framework → CreateVoterWeightRecord → Pubkey → Ledger → Result Ledger
unfolding accounts create_voter_weight_record exit Voter.try_serialize account init
    registrar_try_deserialize Voter.try_deserialize_unchecked Voter.discriminator
run fw ctx governing_token_owner l = do
  (registrar, fresh, l') ← accounts fw ctx governing_token_owner l
  created ← create_voter_weight_record fw ctx governing_token_owner registrar fresh
  exit (Voter.try_serialize fw created) ctx.voter_weight_record l'
