-- ===== src/Program/Effects.antt =====
-- What an instruction leaves in its account, read back as a client or spl-governance reads it, and
-- that it leaves the other accounts alone.
use iam_governance_plugin.Base.{ℕ, ◌≡◌, ap, ◌∙◌, none, some, take, subst}
use iam_governance_plugin.Base.Int.{ℤ, IsI64}
use iam_governance_plugin.Base.Bytes.{Bytes}
use iam_governance_plugin.Errors.{Result, ok, ok_or-eq-ok}
use iam_governance_plugin.Solana.{put, Pubkey, AccountInfo, Ledger, Clock}
use iam_governance_plugin.State.{id, IsU16, Registrar, VoterWeightRecord}
use iam_governance_plugin.Framework.{Framework}
use iam_governance_plugin.Framework.Laws.{AccountLaws, CodecLaws}
use iam_governance_plugin.Anchor.Writes.{IsWritten, written_bytes, written_owner, written_only}
use iam_governance_plugin.Identity.{saturating_add}
use iam_governance_plugin.Instructions.UpdateRegistrar
use iam_governance_plugin.Instructions.UpdateRegistrar.{UpdateRegistrar}
use iam_governance_plugin.Instructions.CreateVoterWeightRecord
use iam_governance_plugin.Instructions.CreateVoterWeightRecord.{CreateVoterWeightRecord}
use iam_governance_plugin.Instructions.UpdateVoterWeightRecord
use iam_governance_plugin.Instructions.UpdateVoterWeightRecord.{UpdateVoterWeightRecord}
use iam_governance_plugin.Instructions.UpdateRegistrar.Outcome as UpdatedRegistrar
use iam_governance_plugin.Instructions.CreateVoterWeightRecord.Outcome as CreatedVoter
use iam_governance_plugin.Instructions.UpdateVoterWeightRecord.Outcome as UpdatedVoter
use iam_governance_plugin.Governance.Voter
use iam_governance_plugin.Anchor.{registrar_try_deserialize}
use iam_governance_plugin.Anchor.Laws.{IsLoaded}
use iam_governance_plugin.Program.Genuine.{IsSound, IsGoodVoter}
use iam_governance_plugin.Program.Reads.{ReadsVoter, ReadsRegistrar, voter_tag}
use iam_governance_plugin.Program.Soundness.Registrars.{updated-IsGoodRegistrar}
use iam_governance_plugin.Program.Soundness.Voters.{updated-IsGoodVoter}

module _ (fw : Framework) {l : Ledger} (info : AccountInfo) where
  pub registrar_reads :
      {r : Registrar}
      → IsLoaded fw id (registrar_try_deserialize fw) info l r
      → ReadsRegistrar fw l info.key r
  unfolding registrar_try_deserialize
  registrar_reads h = record { owned = h.owned; read = ok_or-eq-ok _ _ h.read }

  loaded_same :
      {r s : Registrar}
      → registrar_try_deserialize fw (l info.key).bytes ≡ ok r
      → ReadsRegistrar fw l info.key s
      → r ≡ s
  unfolding registrar_try_deserialize
  loaded_same h reads = cc (ok_or-eq-ok _ _ h, reads.read)

  pub voter_same :
      {v w : VoterWeightRecord}
      → Voter.try_deserialize_unchecked fw (l info.key).bytes ≡ ok v
      → ReadsVoter fw l info.key w
      → v ≡ w
  unfolding Voter.try_deserialize_unchecked
  voter_same h reads = cc (ok_or-eq-ok _ _ h, reads.read)

module _ (fw : Framework) (laws : CodecLaws fw) {k : Pubkey} {l l' : Ledger} where
  -- A well-formed voter weight record that was written reads back.
  pub written-ReadsVoter :
      (v : VoterWeightRecord)
      → IsWritten (fw.voter_weight_record.serialize v) k l l'
      → (l k).owner ≡ id
      → IsGoodVoter fw k v
      → ReadsVoter fw l' k v
  written-ReadsVoter v w owned good = record {
    owned = written_owner w ∙ owned;
    tagged =
        ap (λ (b : Bytes). take 8 b) (written_bytes w)
        ∙ voter_tag fw laws v _ good.range
        ∙ good.tagged;
    read =
        ap fw.voter_weight_record.deserialize (written_bytes w)
        ∙ laws.voter_round_trip v _ good.range;
  }

module _ (fw : Framework) (account_laws : AccountLaws fw) (laws : CodecLaws fw) {l l' : Ledger}
    (sound : IsSound fw l) where
  -- Under the framework's laws: in a sound ledger, with arguments in range: after a successful
  -- update of a registrar that reads as `r`, it reads as `r` with the new floor and window, and no
  -- other account has changed.
  pub update_registrar_effect :
      (ctx : UpdateRegistrar) (floor : ℕ) (window : ℤ) (r : Registrar)
      → IsU16 floor
      → IsI64 window
      → ReadsRegistrar fw l ctx.registrar.key r
      → UpdateRegistrar.run fw ctx floor window l ≡ ok l'
      → ReadsRegistrar fw l' ctx.registrar.key
          (record r { min_trust_score = floor; max_verification_age = window })
        × (l' ≡ put ctx.registrar.key (l' ctx.registrar.key) l)
  update_registrar_effect ctx floor window r hf hw reads h =
      let o = UpdatedRegistrar.run-Outcome fw ctx floor window l l' h in
      let (good, _) = updated-IsGoodRegistrar fw account_laws laws sound ctx floor window hf hw o in
      let same : o.before ≡ r =
        loaded_same fw ctx.registrar o.accepted.registrar.loaded.read reads in
      (
        record {
          owned = written_owner o.written ∙ reads.owned;
          read =
              ap fw.registrar.deserialize (written_bytes o.written)
              ∙ laws.registrar_round_trip _ _ good.range
              ∙ ap (λ (x : Registrar). some (UpdatedRegistrar.changed fw ctx floor window x)) same;
        },
        written_only o.written,
      )

  -- Under the framework's laws: in a sound ledger: an updated record reads back with weight 1
  -- until a hundred slots after the clock's, for every action; its realm, mint and owner are what
  -- they were, and no other account changes.
  pub update_voter_weight_record_effect :
      (ctx : UpdateVoterWeightRecord) (get_clock : Result Clock) (v : VoterWeightRecord)
      → ReadsVoter fw l ctx.voter_weight_record.key v
      → UpdateVoterWeightRecord.run fw ctx get_clock l ≡ ok l'
      → (clock : Clock) × (get_clock ≡ ok clock)
        × ReadsVoter fw l' ctx.voter_weight_record.key (record v {
          voter_weight = 1;
          voter_weight_expiry = some (saturating_add clock.slot 100);
          weight_action = none;
          weight_action_target = none;
        })
        × (l' ≡ put ctx.voter_weight_record.key (l' ctx.voter_weight_record.key) l)
  update_voter_weight_record_effect ctx get_clock v reads h =
      let o = UpdatedVoter.run-Outcome fw ctx get_clock l l' h in
      let (good, _) = updated-IsGoodVoter fw account_laws laws sound ctx get_clock reads.tagged o in
      let same : o.before ≡ v =
        voter_same fw ctx.voter_weight_record o.accepted.voter_weight_record.read reads in
      (
        o.clock,
        o.handled.clock_read,
        subst (λ x. ReadsVoter fw l' ctx.voter_weight_record.key (UpdatedVoter.changed o.clock x))
            same (written-ReadsVoter fw laws _ o.written reads.owned good),
        written_only o.written,
      )
