-- ===== src/Tests/Confusion.antt =====
-- What the missing check of the discriminator allows: an update of the maximum, given a voter weight
-- record of the same realm and mint, is accepted and writes over the record's owner.
use iam_governance_plugin.Base.{true, ap, arith, ◌≡◌, refl, ◌∷◌, ◌++◌, replicate}
use iam_governance_plugin.Errors.{ok}
use iam_governance_plugin.Solana.{Pubkey, Ledger}
use iam_governance_plugin.Framework.Laws.{zero_key}
use iam_governance_plugin.Seeds.{derived, voter_weight_record_seeds}
use iam_governance_plugin.Instructions.CreateVoterWeightRecord
use iam_governance_plugin.Instructions.CreateVoterWeightRecord.{CreateVoterWeightRecord}
use iam_governance_plugin.Instructions.UpdateMaxVoterWeightRecord
use iam_governance_plugin.Instructions.UpdateMaxVoterWeightRecord.{UpdateMaxVoterWeightRecord}
use iam_governance_plugin.Tests.World.{fw, codec_laws}
use iam_governance_plugin.Tests.MaxCodec
use iam_governance_plugin.Tests.Sample.{
  realm, authority, mint, payer, info, signing, writing, registrar_key,
}
use iam_governance_plugin.Tests.History.{now, with_registrar, value_of, succeeds, succeeds-ok}
use iam_governance_plugin.Tests.Facts.{idle_record, registrar_reached}
use iam_governance_plugin.Program.{
  create_voter_weight_record, update_max_voter_weight_record, execute,
}
use iam_governance_plugin.Program.Genuine.{IsSound}
use iam_governance_plugin.Program.Reads.{ReadsVoter, reads_voter}
use iam_governance_plugin.Program.Reach.{Reach, next, instruction}

-- An address whose byte 8 reads as the tag of an absent option.
abbrev victim : Pubkey
victim = record { bytes = replicate 8 20 ++ (0 ∷ replicate 23 20) }

abbrev usurper : Pubkey
usurper = record { bytes = 7 ∷ (replicate 8 0 ++ replicate 23 20) }

abbrev victim_key : Pubkey
victim_key = derived fw (voter_weight_record_seeds realm mint victim)

abbrev create_victim_ctx : CreateVoterWeightRecord
create_victim_ctx = record {
  registrar = info registrar_key;
  voter_weight_record = writing victim_key;
  governing_token_owner_signer = signing victim;
  payer = signing payer;
  system_program = info zero_key;
}

abbrev confusing_ctx : UpdateMaxVoterWeightRecord
confusing_ctx = record {
  registrar = info registrar_key;
  max_voter_weight_record = writing victim_key;
  realm = info realm;
  realm_authority = signing authority;
}

unfoldable with_victim : Ledger
unfolding with_registrar CreateVoterWeightRecord.run
with_victim =
    value_of (CreateVoterWeightRecord.run fw create_victim_ctx victim with_registrar) with_registrar

creation_accepted :
    succeeds (CreateVoterWeightRecord.run fw create_victim_ctx victim with_registrar) ≡ true
unfolding with_victim
creation_accepted = refl

victim_executed :
    execute fw (ok now) (create_voter_weight_record create_victim_ctx victim) with_registrar
    ≡ ok with_victim
unfolding execute with_victim
victim_executed = succeeds-ok _ with_registrar creation_accepted

unfoldable confused : Ledger
unfolding with_victim UpdateMaxVoterWeightRecord.run MaxCodec.deserialize MaxCodec.serialize
confused = value_of (UpdateMaxVoterWeightRecord.run fw confusing_ctx 7 with_victim) with_victim

confusion_accepted : succeeds (UpdateMaxVoterWeightRecord.run fw confusing_ctx 7 with_victim) ≡ true
unfolding confused
confusion_accepted = refl

confused_executed :
    execute fw (ok now) (update_max_voter_weight_record confusing_ctx 7) with_victim ≡ ok confused
unfolding execute confused
confused_executed = succeeds-ok _ with_victim confusion_accepted

-- The program's own instructions lead there.
confused_reached : Reach fw confused
confused_reached =
    next
      (next registrar_reached (
        instruction (ok now) (create_voter_weight_record create_victim_ctx victim) refl
          victim_executed))
      (instruction (ok now) (update_max_voter_weight_record confusing_ctx 7) (omega arith)
        confused_executed)

victim_reads_back :
    ReadsVoter fw with_victim victim_key (record idle_record { governing_token_owner = victim })
unfolding with_victim
victim_reads_back = record { owned = refl; tagged = refl; read = refl }

usurper_reads_back :
    ReadsVoter fw confused victim_key (record idle_record { governing_token_owner = usurper })
unfolding confused
usurper_reads_back = record { owned = refl; tagged = refl; read = refl }

-- The record no longer stands at the address of its own fields.
confused-not-IsSound : ¬ IsSound fw confused
unfolding voter_weight_record_seeds
confused-not-IsSound sound =
    let good = reads_voter fw codec_laws sound usurper_reads_back in
    absurd (ground (arith, ap (λ (k : Pubkey). k.bytes) good.address))
