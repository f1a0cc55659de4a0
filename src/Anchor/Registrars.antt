-- ===== src/Anchor/Registrars.antt =====
-- The registrar as every other instruction reads it: an account of the program, with the registrar's
-- discriminator, at the address that its own realm and mint derive.
use iam_governance_plugin.Base.{◌≡◌}
use iam_governance_plugin.Solana.{Ledger, AccountInfo}
use iam_governance_plugin.State.{id, Registrar}
use iam_governance_plugin.Framework.{Framework}
use iam_governance_plugin.Seeds.{derived, registrar_seeds}
use iam_governance_plugin.Anchor.{registrar_try_deserialize}
use iam_governance_plugin.Anchor.Laws.{IsLoaded}

pub record IsRegistrar (fw : Framework) (info : AccountInfo) (l : Ledger) (r : Registrar)
    : Type 0 where
  pub loaded : IsLoaded fw id (registrar_try_deserialize fw) info l r
  pub address : info.key ≡ derived fw (registrar_seeds r.realm r.governing_token_mint)
