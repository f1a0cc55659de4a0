-- ===== src/Instructions/UpdateVoterWeightRecord/Complete.antt =====
-- The conditions of an update of a voter weight record.
use iam_governance_plugin.Base.{◌≡◌, ◌↔◌}
use iam_governance_plugin.Errors.{anchor, account_did_not_serialize, Result, ok}
use iam_governance_plugin.Solana.{key_eq_iff, Ledger, Clock}
use iam_governance_plugin.State.{id, Registrar, VoterWeightRecord}
use iam_governance_plugin.Framework.{Framework}
use iam_governance_plugin.Governance.Voter
use iam_governance_plugin.Anchor.{registrar_try_deserialize}
use iam_governance_plugin.Anchor.Laws.{IsLoaded-account}
use iam_governance_plugin.Anchor.Writes.{IsWritten-exit_to}
use iam_governance_plugin.Identity.Reading.{read_identity_iff}
use iam_governance_plugin.Identity.Recency.{check_eligibility_iff}
use iam_governance_plugin.Instructions.UpdateVoterWeightRecord.{
  UpdateVoterWeightRecord, accounts, update_voter_weight_record, run,
}
use iam_governance_plugin.Instructions.UpdateVoterWeightRecord.Outcome.{
  AreAccepted, changed, IsHandled, Outcome, run-Outcome,
}

AreAccepted-accounts :
    (fw : Framework) (ctx : UpdateVoterWeightRecord) (l : Ledger) (r : Registrar)
    (v : VoterWeightRecord)
    → AreAccepted fw ctx l r v
    → accounts fw ctx l ≡ ok (r, v)
unfolding accounts
AreAccepted-accounts fw ctx l r v h = rw (
  IsLoaded-account fw id (registrar_try_deserialize fw) ctx.registrar l r h.registrar.loaded,
  IsLoaded-account fw Voter.owner (Voter.try_deserialize_unchecked fw) ctx.voter_weight_record l v
      h.voter_weight_record,
  h.signed,
  (key_eq_iff _ _).1 h.registrar.address,
  h.writable,
  (key_eq_iff _ _).1 h.record_realm,
  (key_eq_iff _ _).1 h.record_mint,
)

module _ (fw : Framework) (ctx : UpdateVoterWeightRecord) (get_clock : Result Clock) where
  IsHandled-update_voter_weight_record :
      (r : Registrar) (v : VoterWeightRecord) (l : Ledger) (clock : Clock)
      → IsHandled fw ctx get_clock r v l clock
      → update_voter_weight_record fw ctx get_clock r v l ≡ ok (changed clock v)
  unfolding update_voter_weight_record
  IsHandled-update_voter_weight_record r v l clock h = rw (
    (key_eq_iff _ _).1 h.mine,
    (read_identity_iff fw _ ctx.remaining_accounts l h.identity).1 h.is_identity,
    (check_eligibility_iff h.identity _ _ get_clock clock).1 (h.clock_read, h.eligible),
  )

  Outcome-run : (l l' : Ledger) → Outcome fw ctx get_clock l l' → run fw ctx get_clock l ≡ ok l'
  unfolding run
  Outcome-run l l' o =
      rw
        (
          AreAccepted-accounts fw ctx l o.registrar o.before o.accepted,
          IsHandled-update_voter_weight_record o.registrar o.before l o.clock o.handled,
        )
        (IsWritten-exit_to (fw.voter_weight_record.serialize (changed o.clock o.before))
          (anchor account_did_not_serialize) ctx.voter_weight_record l l' o.written)

  -- The update succeeds with a ledger exactly if the accounts are accepted, the record's owner has
  -- signed and is eligible at the clock's reading, and the ledger is the old one with the updated
  -- record written where it fits.
  pub run_iff : (l l' : Ledger) → (run fw ctx get_clock l ≡ ok l') ↔ Outcome fw ctx get_clock l l'
  run_iff l l' = (run-Outcome fw ctx get_clock l l', Outcome-run l l')
