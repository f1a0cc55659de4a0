-- ===== src/Instructions/CreateRegistrar/Complete.antt =====
-- The conditions of a creation of a registrar.
use iam_governance_plugin.Base.{ℕ, ◌≡◌, ◌↔◌}
use iam_governance_plugin.Base.Int.{ℤ, pos, ltb_ℤ_iff}
use iam_governance_plugin.Errors.{anchor, account_did_not_serialize, ok}
use iam_governance_plugin.Solana.{key_eq_iff, Ledger}
use iam_governance_plugin.State.{id, registrar_len, Registrar}
use iam_governance_plugin.Framework.{Framework}
use iam_governance_plugin.Seeds.{registrar_seeds}
use iam_governance_plugin.Anchor.{init, registrar_try_deserialize_unchecked}
use iam_governance_plugin.Anchor.Laws.{IsCreated-init}
use iam_governance_plugin.Anchor.Writes.{IsWritten-exit_to}
use iam_governance_plugin.Authority.Laws.{require_realm_authority_iff}
use iam_governance_plugin.Instructions.CreateRegistrar.{
  CreateRegistrar, accounts, create_registrar, run,
}
use iam_governance_plugin.Instructions.CreateRegistrar.Outcome.{
  AreAccepted, changed, IsHandled, Outcome, run-Outcome,
}

AreAccepted-accounts :
    (fw : Framework) (ctx : CreateRegistrar) (l : Ledger) (fresh : Registrar) (l' : Ledger)
    → AreAccepted fw ctx l fresh l'
    → accounts fw ctx l ≡ ok (fresh, l')
unfolding accounts init
AreAccepted-accounts fw ctx l fresh l' h = rw (
  h.signed,
  h.payer_signed,
  (key_eq_iff _ _).1 h.system_program,
  IsCreated-init fw id (registrar_try_deserialize_unchecked fw)
      (registrar_seeds ctx.realm.key ctx.governing_token_mint.key) registrar_len ctx.payer
      ctx.registrar l l' fresh h.created,
  h.executable,
  (key_eq_iff _ _).1 h.realm_owner,
  h.payer_writable,
)

module _ (fw : Framework) (ctx : CreateRegistrar) (floor : ℕ) (window : ℤ) where
  IsHandled-create_registrar :
      (fresh : Registrar) (l : Ledger)
      → IsHandled fw ctx floor window l
      → create_registrar fw ctx floor window fresh l ≡ ok (changed fw ctx floor window fresh)
  unfolding create_registrar
  IsHandled-create_registrar fresh l h = rw (
    (ltb_ℤ_iff (pos 0) window).1 h.positive,
    (require_realm_authority_iff fw ctx.governance_program_id.key ctx.realm
          ctx.governing_token_mint.key ctx.realm_authority l).1
        h.authority,
  )

  Outcome-run :
      (l l' : Ledger) → Outcome fw ctx floor window l l' → run fw ctx floor window l ≡ ok l'
  unfolding run
  Outcome-run l l' o =
      rw
        (
          AreAccepted-accounts fw ctx l o.fresh o.created o.accepted,
          IsHandled-create_registrar o.fresh o.created o.handled,
        )
        (IsWritten-exit_to (fw.registrar.serialize (changed fw ctx floor window o.fresh))
          (anchor account_did_not_serialize) ctx.registrar o.created l' o.written)

  -- The creation of a registrar succeeds with a ledger exactly if the accounts are accepted and
  -- the registrar's is created, the window is positive, the realm's authority has signed, and the
  -- ledger is the one after the creation with the registrar's fields written.
  pub create_registrar_iff :
      (l l' : Ledger) → (run fw ctx floor window l ≡ ok l') ↔ Outcome fw ctx floor window l l'
  create_registrar_iff l l' = (run-Outcome fw ctx floor window l l', Outcome-run l l')
