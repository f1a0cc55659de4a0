-- ===== src/Instructions/CreateMaxVoterWeightRecord/Complete.antt =====
-- The conditions of a creation of a max voter weight record.
use iam_governance_plugin.Base.{◌≡◌, ◌↔◌}
use iam_governance_plugin.Errors.{anchor, account_did_not_serialize, ok}
use iam_governance_plugin.Solana.{key_eq_iff, Ledger}
use iam_governance_plugin.State.{id, max_voter_weight_record_space, Registrar, MaxVoterWeightRecord}
use iam_governance_plugin.Framework.{Framework}
use iam_governance_plugin.Governance.Max
use iam_governance_plugin.Seeds.{max_voter_weight_record_seeds}
use iam_governance_plugin.Anchor.{init, registrar_try_deserialize}
use iam_governance_plugin.Anchor.Laws.{IsLoaded-account, IsCreated-init}
use iam_governance_plugin.Anchor.Writes.{IsWritten-exit_to}
use iam_governance_plugin.Authority.Laws.{HasAuthority, require_realm_authority_iff}
use iam_governance_plugin.Instructions.CreateMaxVoterWeightRecord.{
  CreateMaxVoterWeightRecord, accounts, create_max_voter_weight_record, run,
}
use iam_governance_plugin.Instructions.CreateMaxVoterWeightRecord.Outcome.{
  AreAccepted, changed, Outcome, run-Outcome,
}

AreAccepted-accounts :
    (fw : Framework) (ctx : CreateMaxVoterWeightRecord) (l : Ledger) (r : Registrar)
    (fresh : MaxVoterWeightRecord) (l' : Ledger)
    → AreAccepted fw ctx l r fresh l'
    → accounts fw ctx l ≡ ok (r, fresh, l')
unfolding accounts init
AreAccepted-accounts fw ctx l r fresh l' h = rw (
  IsLoaded-account fw id (registrar_try_deserialize fw) ctx.registrar l r h.registrar.loaded,
  h.signed,
  h.payer_signed,
  (key_eq_iff _ _).1 h.system_program,
  IsCreated-init fw Max.owner (Max.try_deserialize_unchecked fw)
      (max_voter_weight_record_seeds r.realm r.governing_token_mint) max_voter_weight_record_space
      ctx.payer ctx.max_voter_weight_record l l' fresh h.created,
  (key_eq_iff _ _).1 h.registrar.address,
  (key_eq_iff _ _).1 h.realm,
  h.payer_writable,
)

module _ (fw : Framework) (ctx : CreateMaxVoterWeightRecord) where
  HasAuthority-create_max_voter_weight_record :
      (r : Registrar) (fresh : MaxVoterWeightRecord) (l : Ledger)
      → HasAuthority fw r.governance_program_id ctx.realm r.governing_token_mint
          ctx.realm_authority.key l
      → create_max_voter_weight_record fw ctx r fresh l ≡ ok (changed fw ctx r fresh)
  unfolding create_max_voter_weight_record Max.discriminator
  HasAuthority-create_max_voter_weight_record r fresh l h = rw (
      (require_realm_authority_iff fw r.governance_program_id ctx.realm r.governing_token_mint
          ctx.realm_authority l).1
        h)

  Outcome-run : (l l' : Ledger) → Outcome fw ctx l l' → run fw ctx l ≡ ok l'
  unfolding run
  Outcome-run l l' o =
      rw
        (
          AreAccepted-accounts fw ctx l o.registrar o.fresh o.created o.accepted,
          HasAuthority-create_max_voter_weight_record o.registrar o.fresh o.created o.authority,
        )
        (IsWritten-exit_to
          (fw.max_voter_weight_record.serialize (changed fw ctx o.registrar o.fresh))
          (anchor account_did_not_serialize) ctx.max_voter_weight_record o.created l' o.written)

  -- The creation of a max voter weight record succeeds with a ledger exactly if the accounts are
  -- accepted and the record's is created, the realm's authority has signed, and the ledger is the
  -- one after the creation with the record's fields written.
  pub create_max_voter_weight_record_iff :
      (l l' : Ledger) → (run fw ctx l ≡ ok l') ↔ Outcome fw ctx l l'
  create_max_voter_weight_record_iff l l' = (run-Outcome fw ctx l l', Outcome-run l l')
