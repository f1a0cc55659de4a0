-- ===== src/Tests/ProgramWitnesses.antt =====
-- The theorems on the whole program at the sample history.
use iam_governance_plugin.Base.{◌⊎◌, true, ◌≡◌, ◌≢◌, ◌≤◌, ◌↔◌, refl, none, some, [], arith, ◌+◌}
use iam_governance_plugin.Base.Int.{pos, ◌<ℤ◌}
use iam_governance_plugin.Errors.{ok}
use iam_governance_plugin.Solana.{Pubkey, Clock, Ledger, put}
use iam_governance_plugin.State.{Registrar}
use iam_governance_plugin.Seeds.{derived, registrar_seeds, voter_weight_record_seeds}
use iam_governance_plugin.Tests.World.{fw, account_laws, codec_laws}
use iam_governance_plugin.Tests.VoterCodec
use iam_governance_plugin.Tests.Sample.{realm, mint, payer, voter, registrar_key, record_key}
use iam_governance_plugin.Tests.History.{
  update_ctx, now, close_record_ctx, close_registrar_ctx, update_registrar_ctx, with_registrar,
  with_record, with_weight, without_record, without_registrar, with_floor, weight_given,
  record_closed, registrar_closed, floor_raised,
}
use iam_governance_plugin.Tests.Facts.{
  sample_registrar, idle_record, voting_record, registrar_reads_back, idle_record_reads_back,
  voting_record_reads_back, weight_executed, registrar_reached, record_reached, weight_reached,
  registrar_tagged, record_tagged, weight_tagged, registrar-IsSound, record-IsSound, sample-IsReady,
}
use iam_governance_plugin.Instructions.UpdateVoterWeightRecord
use iam_governance_plugin.Instructions.CloseVoterWeightRecord
use iam_governance_plugin.Instructions.UpdateVoterWeightRecord.Outcome.{Outcome}
use iam_governance_plugin.Instructions.UpdateVoterWeightRecord.Complete.{run_iff}
use iam_governance_plugin.Identity.{saturating_add}
use iam_governance_plugin.Program.{update_voter_weight_record}
use iam_governance_plugin.Program.Genuine.{IsSound}
use iam_governance_plugin.Anchor.Registrars.{IsRegistrar}
use iam_governance_plugin.Program.Reads.{ReadsVoter, ReadsRegistrar}
use iam_governance_plugin.Program.Soundness.{execute-IsSound}
use iam_governance_plugin.Program.Reach.{Reach-IsSound}
use iam_governance_plugin.Program.Ballots.{one_record_per_voter, ballots, registrars}
use iam_governance_plugin.Program.Authorship.{IsAccountedFor, weight_needs_update}
use iam_governance_plugin.Program.Earned.{IsEarned, weight-IsEarned}
use iam_governance_plugin.Program.Liveness.{eligible_voter_succeeds}
use iam_governance_plugin.Program.Effects.{
  update_registrar_effect, update_voter_weight_record_effect,
}
use iam_governance_plugin.Program.Closing.{
  close_voter_weight_record_effect, closed_registrar_stops_updates, closed_registrar_stops_closes,
}

weight_needs_update_example :
    IsAccountedFor fw
      (ok now)
      with_record
      with_weight
      record_key
      voting_record
      (update_voter_weight_record update_ctx)
weight_needs_update_example =
    weight_needs_update fw account_laws codec_laws (ok now) record-IsSound voting_record_reads_back
      refl (update_voter_weight_record update_ctx) tt idle_record_reads_back.tagged weight_executed

weight-IsEarned_example : IsEarned fw record_key voting_record weight_reached
weight-IsEarned_example =
    weight-IsEarned fw account_laws codec_laws weight_reached weight_tagged voting_record_reads_back
      refl

eligible_voter_succeeds_example :
    (l' : Ledger) × (UpdateVoterWeightRecord.run fw update_ctx (ok now) with_record ≡ ok l')
eligible_voter_succeeds_example =
    eligible_voter_succeeds fw account_laws codec_laws update_ctx (ok now) sample_registrar
      idle_record now record_reached record_tagged sample-IsReady

run_iff_example :
    (UpdateVoterWeightRecord.run fw update_ctx (ok now) with_record ≡ ok with_weight)
    ↔ Outcome fw update_ctx (ok now) with_record with_weight
run_iff_example = run_iff fw update_ctx (ok now) with_record with_weight

Reach-IsSound_example : IsSound fw with_weight
Reach-IsSound_example = Reach-IsSound fw account_laws codec_laws weight_reached weight_tagged

execute-IsSound_example : IsSound fw with_weight
execute-IsSound_example =
    execute-IsSound fw account_laws codec_laws (ok now) (update_voter_weight_record update_ctx)
      with_record with_weight record-IsSound tt idle_record_reads_back.tagged weight_executed

one_record_per_voter_example : record_key ≡ record_key
one_record_per_voter_example =
    one_record_per_voter fw account_laws codec_laws weight_reached weight_tagged
      voting_record_reads_back voting_record_reads_back refl refl refl

ballots_example :
    (voting_record.voter_weight ≤ 1)
    × (((voting_record.voter_weight ≡ 0) × (voting_record.voter_weight_expiry ≡ some 0))
        ⊎ ((voting_record.voter_weight ≡ 1) × IsEarned fw record_key voting_record weight_reached))
    × (voting_record.weight_action ≡ none)
    × (voting_record.weight_action_target ≡ none)
    × (record_key ≡ derived fw (voter_weight_record_seeds realm mint voter))
ballots_example =
    ballots fw account_laws codec_laws weight_reached weight_tagged voting_record_reads_back

registrars_example :
    (pos 0 <ℤ pos 86400) × (registrar_key ≡ derived fw (registrar_seeds realm mint))
registrars_example =
    registrars fw account_laws codec_laws registrar_reached registrar_tagged registrar_reads_back

update_registrar_effect_example :
    ReadsRegistrar fw with_floor registrar_key
      (record sample_registrar { min_trust_score = 80; max_verification_age = pos 86400 })
    × (with_floor ≡ put registrar_key (with_floor registrar_key) with_registrar)
update_registrar_effect_example =
    update_registrar_effect fw account_laws codec_laws registrar-IsSound update_registrar_ctx 80
      (pos 86400) sample_registrar (omega arith) (ground arith) registrar_reads_back floor_raised

update_voter_weight_record_effect_example :
    (clock : Clock) × (ok now ≡ ok clock)
    × ReadsVoter fw with_weight record_key (record idle_record {
      voter_weight = 1;
      voter_weight_expiry = some (saturating_add clock.slot 100);
      weight_action = none;
      weight_action_target = none;
    })
    × (with_weight ≡ put record_key (with_weight record_key) with_record)
update_voter_weight_record_effect_example =
    update_voter_weight_record_effect fw account_laws codec_laws record-IsSound update_ctx (ok now)
      idle_record idle_record_reads_back weight_given

close_voter_weight_record_effect_example :
    (voting_record.governing_token_owner ≡ voter)
    × (true ≡ true)
    × ((r : Registrar) × IsRegistrar fw close_record_ctx.registrar with_weight r
        × (voting_record.realm ≡ r.realm)
        × (voting_record.governing_token_mint ≡ r.governing_token_mint))
    × ((without_record record_key).owner ≡ fw.system_program)
    × ((without_record record_key).bytes ≡ [])
    × ((without_record record_key).lamports ≡ 0)
    × ((without_record payer).lamports
        ≡ (with_weight payer).lamports + (with_weight record_key).lamports)
    × ((k : Pubkey)
        → record_key ≢ k
        → ((without_record k).owner ≡ (with_weight k).owner)
          × ((without_record k).bytes ≡ (with_weight k).bytes))
close_voter_weight_record_effect_example =
    close_voter_weight_record_effect fw account_laws with_weight without_record close_record_ctx
      voting_record voting_record_reads_back record_closed

closed_registrar_stops_updates_example :
    UpdateVoterWeightRecord.run fw update_ctx (ok now) without_registrar ≢ ok with_weight
closed_registrar_stops_updates_example =
    closed_registrar_stops_updates fw account_laws with_weight without_registrar close_registrar_ctx
      update_ctx (ok now) with_weight registrar_closed refl

closed_registrar_stops_closes_example :
    CloseVoterWeightRecord.run fw close_record_ctx without_registrar ≢ ok without_record
closed_registrar_stops_closes_example =
    closed_registrar_stops_closes fw account_laws with_weight without_registrar close_registrar_ctx
      close_record_ctx without_record registrar_closed refl
