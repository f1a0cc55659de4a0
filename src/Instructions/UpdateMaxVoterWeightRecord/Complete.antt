-- ===== src/Instructions/UpdateMaxVoterWeightRecord/Complete.antt =====
-- The conditions of an update of a max voter weight record.
use iam_governance_plugin.Base.{ℕ, ◌≡◌, ◌↔◌, lt→ltb}
use iam_governance_plugin.Errors.{anchor, account_did_not_serialize, ok}
use iam_governance_plugin.Solana.{key_eq_iff, Ledger}
use iam_governance_plugin.State.{id, Registrar, MaxVoterWeightRecord}
use iam_governance_plugin.Framework.{Framework}
use iam_governance_plugin.Governance.Max
use iam_governance_plugin.Anchor.{registrar_try_deserialize}
use iam_governance_plugin.Anchor.Laws.{IsLoaded-account}
use iam_governance_plugin.Anchor.Writes.{IsWritten-exit_to}
use iam_governance_plugin.Authority.Laws.{require_realm_authority_iff}
use iam_governance_plugin.Instructions.UpdateMaxVoterWeightRecord.{
  UpdateMaxVoterWeightRecord, accounts, update_max_voter_weight_record, run,
}
use iam_governance_plugin.Instructions.UpdateMaxVoterWeightRecord.Outcome.{
  AreAccepted, changed, IsHandled, Outcome, run-Outcome,
}

AreAccepted-accounts :
    (fw : Framework) (ctx : UpdateMaxVoterWeightRecord) (l : Ledger) (r : Registrar)
    (m : MaxVoterWeightRecord)
    → AreAccepted fw ctx l r m
    → accounts fw ctx l ≡ ok (r, m)
unfolding accounts
AreAccepted-accounts fw ctx l r m h = rw (
  IsLoaded-account fw id (registrar_try_deserialize fw) ctx.registrar l r h.registrar.loaded,
  IsLoaded-account fw Max.owner (Max.try_deserialize_unchecked fw) ctx.max_voter_weight_record l m
      h.max_voter_weight_record,
  h.signed,
  (key_eq_iff _ _).1 h.registrar.address,
  h.writable,
  (key_eq_iff _ _).1 h.record_realm,
  (key_eq_iff _ _).1 h.record_mint,
  (key_eq_iff _ _).1 h.realm,
)

module _ (fw : Framework) (ctx : UpdateMaxVoterWeightRecord) (weight : ℕ) where
  IsHandled-update_max_voter_weight_record :
      (r : Registrar) (m : MaxVoterWeightRecord) (l : Ledger)
      → IsHandled fw ctx weight r l
      → update_max_voter_weight_record fw ctx weight r m l ≡ ok (changed fw ctx weight m)
  unfolding update_max_voter_weight_record
  IsHandled-update_max_voter_weight_record r m l h = rw (
    lt→ltb 0 weight h.positive,
    (require_realm_authority_iff fw r.governance_program_id ctx.realm r.governing_token_mint
          ctx.realm_authority l).1
        h.authority,
  )

  Outcome-run : (l l' : Ledger) → Outcome fw ctx weight l l' → run fw ctx weight l ≡ ok l'
  unfolding run
  Outcome-run l l' o =
      rw
        (
          AreAccepted-accounts fw ctx l o.registrar o.before o.accepted,
          IsHandled-update_max_voter_weight_record o.registrar o.before l o.handled,
        )
        (IsWritten-exit_to (fw.max_voter_weight_record.serialize (changed fw ctx weight o.before))
          (anchor account_did_not_serialize) ctx.max_voter_weight_record l l' o.written)

  -- The update of a max voter weight record succeeds with a ledger exactly if the accounts are
  -- accepted, the weight is positive, the realm's authority has signed, and the ledger is the old
  -- one with the new weight, without expiry, written into the record.
  pub update_max_voter_weight_record_iff :
      (l l' : Ledger) → (run fw ctx weight l ≡ ok l') ↔ Outcome fw ctx weight l l'
  update_max_voter_weight_record_iff l l' = (run-Outcome fw ctx weight l l', Outcome-run l l')
