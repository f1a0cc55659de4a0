-- ===== src/Instructions/CloseRegistrar/Complete.antt =====
-- The conditions of a closing of a registrar.
use iam_governance_plugin.Base.{◌≡◌, ◌↔◌}
use iam_governance_plugin.Errors.{ok}
use iam_governance_plugin.Solana.{key_eq_iff, key_eq_ne, Ledger}
use iam_governance_plugin.State.{id, Registrar}
use iam_governance_plugin.Framework.{Framework}
use iam_governance_plugin.Anchor.{registrar_try_deserialize}
use iam_governance_plugin.Anchor.Laws.{IsLoaded-account}
use iam_governance_plugin.Authority.Laws.{HasAuthority, require_realm_authority_iff}
use iam_governance_plugin.Instructions.CloseRegistrar.{
  CloseRegistrar, accounts, close_registrar, run,
}
use iam_governance_plugin.Instructions.CloseRegistrar.Outcome.{AreAccepted, Outcome, run-Outcome}

AreAccepted-accounts :
    (fw : Framework) (ctx : CloseRegistrar) (l : Ledger) (r : Registrar)
    → AreAccepted fw ctx l r
    → accounts fw ctx l ≡ ok r
unfolding accounts
AreAccepted-accounts fw ctx l r h = rw (
  IsLoaded-account fw id (registrar_try_deserialize fw) ctx.registrar l r h.registrar.loaded,
  h.signed,
  (key_eq_iff _ _).1 h.registrar.address,
  h.writable,
  key_eq_ne _ _ h.distinct,
  (key_eq_iff _ _).1 h.realm,
  h.destination_writable,
)

module _ (fw : Framework) (ctx : CloseRegistrar) where
  HasAuthority-close_registrar :
      (r : Registrar) (l : Ledger)
      → HasAuthority fw r.governance_program_id ctx.realm r.governing_token_mint
          ctx.realm_authority.key l
      → close_registrar fw ctx r l ≡ ok tt
  unfolding close_registrar
  HasAuthority-close_registrar r l h =
      (require_realm_authority_iff fw _ ctx.realm _ ctx.realm_authority l).1 h

  Outcome-run : (l l' : Ledger) → Outcome fw ctx l l' → run fw ctx l ≡ ok l'
  unfolding run
  Outcome-run l l' o =
      rw
        (
          AreAccepted-accounts fw ctx l o.before o.accepted,
          HasAuthority-close_registrar o.before l o.authority,
        )
        o.closed

  -- The closing of a registrar succeeds with a ledger exactly if the accounts are accepted, the
  -- realm's authority has signed, and the ledger is what Anchor's closing of the account gives.
  pub close_registrar_iff : (l l' : Ledger) → (run fw ctx l ≡ ok l') ↔ Outcome fw ctx l l'
  close_registrar_iff l l' = (run-Outcome fw ctx l l', Outcome-run l l')
