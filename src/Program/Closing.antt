-- ===== src/Program/Closing.antt =====
-- What the closing instructions leave.
use iam_governance_plugin.Base.{◌+◌, ◌≡◌, ◌≢◌, sym, ap, ◌∙◌, [], true}
use iam_governance_plugin.Errors.{Result, ok}
use iam_governance_plugin.Solana.{Pubkey, Ledger, Clock}
use iam_governance_plugin.State.{Registrar, VoterWeightRecord}
use iam_governance_plugin.Anchor.Registrars.{IsRegistrar}
use iam_governance_plugin.Program.Reads.{ReadsVoter}
use iam_governance_plugin.Program.Effects.{voter_same}
use iam_governance_plugin.Framework.{Framework}
use iam_governance_plugin.Framework.Laws.{AccountLaws}
use iam_governance_plugin.Instructions.CloseRegistrar
use iam_governance_plugin.Instructions.CloseRegistrar.{CloseRegistrar}
use iam_governance_plugin.Instructions.UpdateVoterWeightRecord
use iam_governance_plugin.Instructions.UpdateVoterWeightRecord.{UpdateVoterWeightRecord}
use iam_governance_plugin.Instructions.CloseVoterWeightRecord
use iam_governance_plugin.Instructions.CloseVoterWeightRecord.{CloseVoterWeightRecord}
use iam_governance_plugin.Instructions.CloseRegistrar.Outcome as ClosedRegistrar
use iam_governance_plugin.Instructions.UpdateVoterWeightRecord.Outcome as UpdatedVoter
use iam_governance_plugin.Instructions.CloseVoterWeightRecord.Outcome as ClosedVoter

module _ (fw : Framework) (laws : AccountLaws fw) (l l' : Ledger) where
  -- Under the framework's laws: where a closing succeeds on an account that reads as `v`: `v` is
  -- owned by the signer and of the realm and mint of a registrar at its own address; the account
  -- then belongs to the system program, with no data and no lamports; the destination has these on
  -- top of its own; and no other account has changed in owner or data.
  pub close_voter_weight_record_effect :
      (ctx : CloseVoterWeightRecord) (v : VoterWeightRecord)
      → ReadsVoter fw l ctx.voter_weight_record.key v
      → CloseVoterWeightRecord.run fw ctx l ≡ ok l'
      → (v.governing_token_owner ≡ ctx.voter_authority.key)
        × (ctx.voter_authority.is_signer ≡ true)
        × ((r : Registrar) × IsRegistrar fw ctx.registrar l r
            × (v.realm ≡ r.realm)
            × (v.governing_token_mint ≡ r.governing_token_mint))
        × ((l' ctx.voter_weight_record.key).owner ≡ fw.system_program)
        × ((l' ctx.voter_weight_record.key).bytes ≡ [])
        × ((l' ctx.voter_weight_record.key).lamports ≡ 0)
        × ((l' ctx.sol_destination.key).lamports
            ≡ (l ctx.sol_destination.key).lamports + (l ctx.voter_weight_record.key).lamports)
        × ((k : Pubkey)
            → ctx.voter_weight_record.key ≢ k
            → ((l' k).owner ≡ (l k).owner) × ((l' k).bytes ≡ (l k).bytes))
  close_voter_weight_record_effect ctx v reads h =
      let o = ClosedVoter.run-Outcome fw ctx l l' h in
      let (owner, bytes, gone, paid) = laws.close_account _ _ l l' o.closed o.accepted.distinct in
      let same : o.before ≡ v =
        voter_same fw ctx.voter_weight_record o.accepted.voter_weight_record.read reads in
      (
        ap (λ (x : VoterWeightRecord). x.governing_token_owner) (sym same) ∙ o.mine,
        o.accepted.signed,
        (
          o.registrar,
          o.accepted.registrar,
          ap (λ (x : VoterWeightRecord). x.realm) (sym same) ∙ o.accepted.record_realm,
          ap (λ (x : VoterWeightRecord). x.governing_token_mint) (sym same)
              ∙ o.accepted.record_mint,
        ),
        owner,
        bytes,
        gone,
        paid,
        λ k ne. laws.close_others _ _ l l' k o.closed ne,
      )

  -- Under the framework's laws: after a registrar's closing no update of a voter weight record
  -- that passes it succeeds.
  pub closed_registrar_stops_updates :
      (ctx : CloseRegistrar) (voter : UpdateVoterWeightRecord) (get_clock : Result Clock)
      (l'' : Ledger)
      → CloseRegistrar.run fw ctx l ≡ ok l'
      → voter.registrar.key ≡ ctx.registrar.key
      → UpdateVoterWeightRecord.run fw voter get_clock l' ≢ ok l''
  closed_registrar_stops_updates ctx voter get_clock l'' h same run =
      let o = ClosedRegistrar.run-Outcome fw ctx l l' h in
      let u = UpdatedVoter.run-Outcome fw voter get_clock l' l'' run in
      laws.system_program_ne_id (
        sym (laws.close_account _ _ l l' o.closed o.accepted.distinct).0
        ∙ ap (λ k. (l' k).owner) (sym same)
        ∙ u.accepted.registrar.loaded.owned)

  -- Under the framework's laws: after a registrar's closing no closing of a voter weight record
  -- that passes it succeeds.
  pub closed_registrar_stops_closes :
      (ctx : CloseRegistrar) (voter : CloseVoterWeightRecord) (l'' : Ledger)
      → CloseRegistrar.run fw ctx l ≡ ok l'
      → voter.registrar.key ≡ ctx.registrar.key
      → CloseVoterWeightRecord.run fw voter l' ≢ ok l''
  closed_registrar_stops_closes ctx voter l'' h same run =
      let o = ClosedRegistrar.run-Outcome fw ctx l l' h in
      let u = ClosedVoter.run-Outcome fw voter l' l'' run in
      laws.system_program_ne_id (
        sym (laws.close_account _ _ l l' o.closed o.accepted.distinct).0
        ∙ ap (λ k. (l' k).owner) (sym same)
        ∙ u.accepted.registrar.loaded.owned)
