-- ===== src/Instructions/UpdateRegistrar.antt =====
-- instructions/update_registrar.rs
pub mod Outcome
pub mod Complete
use iam_governance_plugin.Base.{ℕ}
use iam_governance_plugin.Base.Int.{ℤ, pos, ltb_ℤ}
use iam_governance_plugin.Errors.{
  Result, ◌>>=◌, ◌>>◌, ok, err, require, entros, invalid_max_verification_age,
}
use iam_governance_plugin.Solana.{key_eq, Ledger, AccountInfo}
use iam_governance_plugin.State.{id, Registrar}
use iam_governance_plugin.Framework.{Framework}
use iam_governance_plugin.Seeds.{registrar_seeds}
use iam_governance_plugin.Anchor.{
  signer, mutable, constraint, seeded, account, exit, registrar_try_deserialize,
  registrar_try_serialize,
}
use iam_governance_plugin.Authority.{require_realm_authority}

pub record UpdateRegistrar : Type 0 where
  pub registrar : AccountInfo
  pub realm : AccountInfo
  pub realm_authority : AccountInfo

-- The checks of the accounts struct; the registrar is read.
unfoldable pub accounts : Framework → UpdateRegistrar → Ledger → Result Registrar
accounts fw ctx l = do
  registrar ← account fw id (registrar_try_deserialize fw) ctx.registrar l
  signer ctx.realm_authority
  seeded fw (registrar_seeds registrar.realm registrar.governing_token_mint) ctx.registrar
  mutable ctx.registrar
  constraint (key_eq ctx.realm.key registrar.realm)
  ok registrar

-- The handler: the registrar as it leaves it.
unfoldable pub update_registrar :
    Framework → UpdateRegistrar → ℕ → ℤ → Registrar → Ledger → Result Registrar
update_registrar fw ctx min_trust_score max_verification_age registrar l = do
  require (ltb_ℤ (pos 0) max_verification_age) (entros invalid_max_verification_age)
  require_realm_authority fw registrar.governance_program_id ctx.realm
      registrar.governing_token_mint ctx.realm_authority l
  ok (record registrar {
    min_trust_score = min_trust_score;
    max_verification_age = max_verification_age;
  })

-- The instruction: checks, handler, and the write of the registrar.
unfoldable pub run : Framework → UpdateRegistrar → ℕ → ℤ → Ledger → Result Ledger
unfolding accounts update_registrar exit registrar_try_serialize account registrar_try_deserialize
    require_realm_authority
run fw ctx min_trust_score max_verification_age l = do
  registrar ← accounts fw ctx l
  registrar' ← update_registrar fw ctx min_trust_score max_verification_age registrar l
  exit (registrar_try_serialize fw registrar') ctx.registrar l
