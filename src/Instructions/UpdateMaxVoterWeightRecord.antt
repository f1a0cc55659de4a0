-- ===== src/Instructions/UpdateMaxVoterWeightRecord.antt =====
-- instructions/update_max_voter_weight_record.rs
pub mod Outcome
pub mod Complete
use iam_governance_plugin.Base.{ℕ, none, ltb}
use iam_governance_plugin.Errors.{
  Result, ◌>>=◌, ◌>>◌, ok, err, require, entros, invalid_max_voter_weight,
}
use iam_governance_plugin.Solana.{key_eq, Ledger, AccountInfo}
use iam_governance_plugin.State.{id, Registrar, MaxVoterWeightRecord}
use iam_governance_plugin.Framework.{Framework}
use iam_governance_plugin.Governance.Max
use iam_governance_plugin.Seeds.{registrar_seeds}
use iam_governance_plugin.Anchor.{
  signer, mutable, constraint, seeded, account, exit, registrar_try_deserialize,
}
use iam_governance_plugin.Authority.{require_realm_authority}

pub record UpdateMaxVoterWeightRecord : Type 0 where
  pub registrar : AccountInfo
  pub max_voter_weight_record : AccountInfo
  pub realm : AccountInfo
  pub realm_authority : AccountInfo

-- The checks of the accounts struct; the registrar and the record are read.
unfoldable pub accounts :
    Framework → UpdateMaxVoterWeightRecord → Ledger → Result (Registrar × MaxVoterWeightRecord)
accounts fw ctx l = do
  registrar ← account fw id (registrar_try_deserialize fw) ctx.registrar l
  max_voter_weight_record ←
      account fw Max.owner (Max.try_deserialize_unchecked fw) ctx.max_voter_weight_record l
  signer ctx.realm_authority
  seeded fw (registrar_seeds registrar.realm registrar.governing_token_mint) ctx.registrar
  mutable ctx.max_voter_weight_record
  constraint (key_eq max_voter_weight_record.realm registrar.realm)
  constraint (key_eq max_voter_weight_record.governing_token_mint registrar.governing_token_mint)
  constraint (key_eq ctx.realm.key registrar.realm)
  ok (registrar, max_voter_weight_record)

-- The handler: the record as it leaves it.
unfoldable pub update_max_voter_weight_record :
    Framework
    → UpdateMaxVoterWeightRecord
    → ℕ
    → Registrar
    → MaxVoterWeightRecord
    → Ledger
    → Result MaxVoterWeightRecord
update_max_voter_weight_record fw ctx max_voter_weight registrar max_voter_weight_record l = do
  require (ltb 0 max_voter_weight) (entros invalid_max_voter_weight)
  require_realm_authority fw registrar.governance_program_id ctx.realm
      registrar.governing_token_mint ctx.realm_authority l
  ok (record max_voter_weight_record {
    max_voter_weight = max_voter_weight;
    max_voter_weight_expiry = none;
  })

-- The instruction: checks, handler, and the write of the record.
unfoldable pub run : Framework → UpdateMaxVoterWeightRecord → ℕ → Ledger → Result Ledger
unfolding accounts update_max_voter_weight_record exit Max.try_serialize account
    registrar_try_deserialize Max.try_deserialize_unchecked require_realm_authority
run fw ctx max_voter_weight l = do
  (registrar, max_voter_weight_record) ← accounts fw ctx l
  updated ←
      update_max_voter_weight_record fw ctx max_voter_weight registrar max_voter_weight_record l
  exit (Max.try_serialize fw updated) ctx.max_voter_weight_record l
