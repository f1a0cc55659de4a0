-- ===== src/Instructions/CloseRegistrar.antt =====
-- instructions/close_registrar.rs
pub mod Outcome
pub mod Complete
use iam_governance_plugin.Errors.{Result, ◌>>=◌, ◌>>◌, ok, err, require}
use iam_governance_plugin.Solana.{key_eq, Ledger, AccountInfo}
use iam_governance_plugin.State.{id, Registrar}
use iam_governance_plugin.Framework.{Framework}
use iam_governance_plugin.Seeds.{registrar_seeds}
use iam_governance_plugin.Anchor.{
  signer, mutable, constraint, seeded, account, closable, registrar_try_deserialize,
}
use iam_governance_plugin.Authority.{require_realm_authority}

pub record CloseRegistrar : Type 0 where
  pub registrar : AccountInfo
  pub realm : AccountInfo
  pub realm_authority : AccountInfo
  pub sol_destination : AccountInfo

-- The checks of the accounts struct; the registrar is read.
unfoldable pub accounts : Framework → CloseRegistrar → Ledger → Result Registrar
accounts fw ctx l = do
  registrar ← account fw id (registrar_try_deserialize fw) ctx.registrar l
  signer ctx.realm_authority
  seeded fw (registrar_seeds registrar.realm registrar.governing_token_mint) ctx.registrar
  mutable ctx.registrar
  closable ctx.registrar ctx.sol_destination
  constraint (key_eq ctx.realm.key registrar.realm)
  mutable ctx.sol_destination
  ok registrar

-- The handler only checks the authority.
unfoldable pub close_registrar : Framework → CloseRegistrar → Registrar → Ledger → Result (Unit {0})
close_registrar fw ctx registrar l =
    require_realm_authority fw registrar.governance_program_id ctx.realm
      registrar.governing_token_mint ctx.realm_authority l

-- The instruction: checks, handler, and the closing of the registrar.
unfoldable pub run : Framework → CloseRegistrar → Ledger → Result Ledger
unfolding accounts close_registrar account registrar_try_deserialize require_realm_authority
run fw ctx l = do
  registrar ← accounts fw ctx l
  close_registrar fw ctx registrar l
  fw.close ctx.registrar.key ctx.sol_destination.key l
