-- ===== src/Instructions/CreateMaxVoterWeightRecord.antt =====
-- instructions/create_max_voter_weight_record.rs
pub mod Outcome
pub mod Complete
use iam_governance_plugin.Base.{some}
use iam_governance_plugin.Errors.{Result, ◌>>=◌, ◌>>◌, ok, err, require}
use iam_governance_plugin.Solana.{key_eq, Ledger, AccountInfo}
use iam_governance_plugin.State.{id, Registrar, MaxVoterWeightRecord, max_voter_weight_record_space}
use iam_governance_plugin.Framework.{Framework}
use iam_governance_plugin.Governance.Max
use iam_governance_plugin.Seeds.{registrar_seeds, max_voter_weight_record_seeds}
use iam_governance_plugin.Anchor.{
  signer, program, mutable, constraint, seeded, account, init, exit, registrar_try_deserialize,
}
use iam_governance_plugin.Authority.{require_realm_authority}

pub record CreateMaxVoterWeightRecord : Type 0 where
  pub registrar : AccountInfo
  pub max_voter_weight_record : AccountInfo
  pub realm : AccountInfo
  pub realm_authority : AccountInfo
  pub payer : AccountInfo
  pub system_program : AccountInfo

-- The checks of the accounts struct; the registrar is read, and the record is created.
unfoldable pub accounts :
    Framework
    → CreateMaxVoterWeightRecord
    → Ledger
    → Result (Registrar × MaxVoterWeightRecord × Ledger)
accounts fw ctx l = do
  registrar ← account fw id (registrar_try_deserialize fw) ctx.registrar l
  signer ctx.realm_authority
  signer ctx.payer
  program fw.system_program ctx.system_program
  (max_voter_weight_record, l') ←
      init fw Max.owner (Max.try_deserialize_unchecked fw)
        (max_voter_weight_record_seeds registrar.realm registrar.governing_token_mint)
        max_voter_weight_record_space ctx.payer ctx.max_voter_weight_record l
  seeded fw (registrar_seeds registrar.realm registrar.governing_token_mint) ctx.registrar
  constraint (key_eq ctx.realm.key registrar.realm)
  mutable ctx.payer
  ok (registrar, max_voter_weight_record, l')

-- The handler: the record as it leaves it.
unfoldable pub create_max_voter_weight_record :
    Framework
    → CreateMaxVoterWeightRecord
    → Registrar
    → MaxVoterWeightRecord
    → Ledger
    → Result MaxVoterWeightRecord
create_max_voter_weight_record fw ctx registrar max_voter_weight_record l = do
  require_realm_authority fw registrar.governance_program_id ctx.realm
      registrar.governing_token_mint ctx.realm_authority l
  ok (record max_voter_weight_record {
    account_discriminator = Max.discriminator fw;
    realm = registrar.realm;
    governing_token_mint = registrar.governing_token_mint;
    max_voter_weight = 0;
    max_voter_weight_expiry = some 0;
  })

-- The instruction: checks, creation, handler, and the write of the record.
unfoldable pub run : Framework → CreateMaxVoterWeightRecord → Ledger → Result Ledger
unfolding accounts create_max_voter_weight_record exit Max.try_serialize account init
    registrar_try_deserialize Max.try_deserialize_unchecked require_realm_authority
    Max.discriminator
run fw ctx l = do
  (registrar, fresh, l') ← accounts fw ctx l
  created ← create_max_voter_weight_record fw ctx registrar fresh l'
  exit (Max.try_serialize fw created) ctx.max_voter_weight_record l'
