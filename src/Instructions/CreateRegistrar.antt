-- ===== src/Instructions/CreateRegistrar.antt =====
-- instructions/create_registrar.rs
pub mod Outcome
pub mod Complete
use iam_governance_plugin.Base.{ℕ}
use iam_governance_plugin.Base.Int.{ℤ, pos, ltb_ℤ}
use iam_governance_plugin.Errors.{
  Result, ◌>>=◌, ◌>>◌, ok, err, require, entros, invalid_max_verification_age,
}
use iam_governance_plugin.Solana.{Ledger, AccountInfo}
use iam_governance_plugin.State.{id, Registrar, registrar_len}
use iam_governance_plugin.Framework.{Framework}
use iam_governance_plugin.Seeds.{registrar_seeds}
use iam_governance_plugin.Anchor.{
  signer, program, mutable, executable, owned_by, init, exit, registrar_try_deserialize_unchecked,
  registrar_try_serialize,
}
use iam_governance_plugin.Authority.{require_realm_authority}

pub record CreateRegistrar : Type 0 where
  pub registrar : AccountInfo
  pub governance_program_id : AccountInfo
  pub realm : AccountInfo
  pub governing_token_mint : AccountInfo
  pub realm_authority : AccountInfo
  pub payer : AccountInfo
  pub system_program : AccountInfo

-- The checks of the accounts struct; the registrar is created, and read from its zeros.
unfoldable pub accounts : Framework → CreateRegistrar → Ledger → Result (Registrar × Ledger)
accounts fw ctx l = do
  signer ctx.realm_authority
  signer ctx.payer
  program fw.system_program ctx.system_program
  (registrar, l') ←
      init fw id (registrar_try_deserialize_unchecked fw)
        (registrar_seeds ctx.realm.key ctx.governing_token_mint.key) registrar_len ctx.payer
        ctx.registrar l
  executable ctx.governance_program_id l'
  owned_by ctx.governance_program_id.key ctx.realm l'
  mutable ctx.payer
  ok (registrar, l')

-- The handler: the registrar as it leaves it.
unfoldable pub create_registrar :
    Framework → CreateRegistrar → ℕ → ℤ → Registrar → Ledger → Result Registrar
create_registrar fw ctx min_trust_score max_verification_age registrar l = do
  require (ltb_ℤ (pos 0) max_verification_age) (entros invalid_max_verification_age)
  require_realm_authority fw ctx.governance_program_id.key ctx.realm ctx.governing_token_mint.key
      ctx.realm_authority l
  ok (record registrar {
    governance_program_id = ctx.governance_program_id.key;
    realm = ctx.realm.key;
    governing_token_mint = ctx.governing_token_mint.key;
    min_trust_score = min_trust_score;
    max_verification_age = max_verification_age;
  })

-- The instruction: checks, creation, handler, and the write of the registrar.
unfoldable pub run : Framework → CreateRegistrar → ℕ → ℤ → Ledger → Result Ledger
unfolding accounts create_registrar exit registrar_try_serialize init
    registrar_try_deserialize_unchecked require_realm_authority
run fw ctx min_trust_score max_verification_age l = do
  (registrar, l') ← accounts fw ctx l
  registrar' ← create_registrar fw ctx min_trust_score max_verification_age registrar l'
  exit (registrar_try_serialize fw registrar') ctx.registrar l'
