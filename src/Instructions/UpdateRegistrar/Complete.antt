-- ===== src/Instructions/UpdateRegistrar/Complete.antt =====
-- The conditions of an update of a registrar.
use iam_governance_plugin.Base.{ℕ, ◌≡◌, ◌↔◌}
use iam_governance_plugin.Base.Int.{ℤ, pos, ltb_ℤ_iff}
use iam_governance_plugin.Errors.{anchor, account_did_not_serialize, ok}
use iam_governance_plugin.Solana.{key_eq_iff, Ledger}
use iam_governance_plugin.State.{id, Registrar}
use iam_governance_plugin.Framework.{Framework}
use iam_governance_plugin.Anchor.{registrar_try_deserialize}
use iam_governance_plugin.Anchor.Laws.{IsLoaded-account}
use iam_governance_plugin.Anchor.Writes.{IsWritten-exit_to}
use iam_governance_plugin.Authority.Laws.{require_realm_authority_iff}
use iam_governance_plugin.Instructions.UpdateRegistrar.{
  UpdateRegistrar, accounts, update_registrar, run,
}
use iam_governance_plugin.Instructions.UpdateRegistrar.Outcome.{
  AreAccepted, changed, IsHandled, Outcome, run-Outcome,
}

AreAccepted-accounts :
    (fw : Framework) (ctx : UpdateRegistrar) (l : Ledger) (r : Registrar)
    → AreAccepted fw ctx l r
    → accounts fw ctx l ≡ ok r
unfolding accounts
AreAccepted-accounts fw ctx l r h = rw (
  IsLoaded-account fw id (registrar_try_deserialize fw) ctx.registrar l r h.registrar.loaded,
  h.signed,
  (key_eq_iff _ _).1 h.registrar.address,
  h.writable,
  (key_eq_iff _ _).1 h.realm,
)

module _ (fw : Framework) (ctx : UpdateRegistrar) (floor : ℕ) (window : ℤ) where
  IsHandled-update_registrar :
      (r : Registrar) (l : Ledger)
      → IsHandled fw ctx floor window r l
      → update_registrar fw ctx floor window r l ≡ ok (changed fw ctx floor window r)
  unfolding update_registrar
  IsHandled-update_registrar r l h = rw (
    (ltb_ℤ_iff (pos 0) window).1 h.positive,
    (require_realm_authority_iff fw r.governance_program_id ctx.realm r.governing_token_mint
          ctx.realm_authority l).1
        h.authority,
  )

  Outcome-run :
      (l l' : Ledger) → Outcome fw ctx floor window l l' → run fw ctx floor window l ≡ ok l'
  unfolding run
  Outcome-run l l' o =
      rw
        (
          AreAccepted-accounts fw ctx l o.before o.accepted,
          IsHandled-update_registrar o.before l o.handled,
        )
        (IsWritten-exit_to (fw.registrar.serialize (changed fw ctx floor window o.before))
          (anchor account_did_not_serialize) ctx.registrar l l' o.written)

  -- The update of a registrar succeeds with a ledger exactly if the accounts are accepted, the
  -- window is positive, the realm's authority has signed, and the ledger is the old one with the
  -- new floor and window written into the registrar.
  pub update_registrar_iff :
      (l l' : Ledger) → (run fw ctx floor window l ≡ ok l') ↔ Outcome fw ctx floor window l l'
  update_registrar_iff l l' = (run-Outcome fw ctx floor window l l', Outcome-run l l')
