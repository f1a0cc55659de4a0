-- ===== src/Authority.antt =====
-- The check of the realm's authority, which five handlers make in the same words.
pub mod Laws
use iam_governance_plugin.Base.{Option, none, some}
use iam_governance_plugin.Errors.{
  Result, ◌>>=◌, ◌>>◌, ok, err, require, ok_or, entros, realm_has_no_authority,
  invalid_realm_authority,
}
use iam_governance_plugin.Solana.{Pubkey, key_eq, Ledger, AccountInfo}
use iam_governance_plugin.Framework.{Framework}

unfoldable pub require_realm_authority :
    Framework → Pubkey → AccountInfo → Pubkey → AccountInfo → Ledger → Result (Unit {0})
require_realm_authority fw governance_program_id realm governing_token_mint realm_authority l = do
  realm_data ←
      fw.get_realm_data_for_governing_token_mint governance_program_id realm.key (l realm.key)
        governing_token_mint
  authority ← ok_or realm_data.authority (entros realm_has_no_authority)
  require (key_eq authority realm_authority.key) (entros invalid_realm_authority)
