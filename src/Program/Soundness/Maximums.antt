-- ===== src/Program/Soundness/Maximums.antt =====
-- The two instructions on max voter weight records keep the ledger sound.
use iam_governance_plugin.Base.{◌≤◌, ℕ, ◌≡◌, refl, sym, ap, inl, inr, take, length, arith}
use iam_governance_plugin.Errors.{ok}
use iam_governance_plugin.Solana.{Ledger}
use iam_governance_plugin.State.{max_voter_weight_record_space, IsU64}
use iam_governance_plugin.Framework.{Framework}
use iam_governance_plugin.Framework.Laws.{AccountLaws, CodecLaws}
use iam_governance_plugin.Instructions.CreateMaxVoterWeightRecord
use iam_governance_plugin.Instructions.CreateMaxVoterWeightRecord.{CreateMaxVoterWeightRecord}
use iam_governance_plugin.Instructions.UpdateMaxVoterWeightRecord
use iam_governance_plugin.Instructions.UpdateMaxVoterWeightRecord.{UpdateMaxVoterWeightRecord}
use iam_governance_plugin.Instructions.CreateMaxVoterWeightRecord.Outcome as CreatedMax
use iam_governance_plugin.Instructions.UpdateMaxVoterWeightRecord.Outcome as UpdatedMax
use iam_governance_plugin.Program.Genuine.{IsGoodMax, maximum, IsSound}
use iam_governance_plugin.Program.Reads.{loaded_registrar, loaded_max}
use iam_governance_plugin.Program.Fresh.{fresh_max}
use iam_governance_plugin.Program.Preserve.{IsSound-IsWritten, IsSound-create}

module _ (fw : Framework) (account_laws : AccountLaws fw) (laws : CodecLaws fw) {l l' : Ledger}
    (sound : IsSound fw l) where
  pub created-IsGoodMax :
      (ctx : CreateMaxVoterWeightRecord)
      → (o : CreatedMax.Outcome fw ctx l l')
      → IsGoodMax fw ctx.max_voter_weight_record.key (CreatedMax.changed fw ctx o.registrar o.fresh)
  created-IsGoodMax ctx o =
      let made = o.accepted.created in
      let zeros =
        fresh_max fw account_laws laws _ ctx.payer ctx.max_voter_weight_record l o.created o.fresh
          made in
      let (good, _) =
        loaded_registrar fw laws l sound ctx.registrar o.registrar o.accepted.registrar.loaded in
      record {
        range = record {
          account_discriminator = laws.max_discriminator_size;
          realm = good.range.realm;
          governing_token_mint = good.range.governing_token_mint;
          max_voter_weight = omega arith;
          max_voter_weight_expiry = omega arith;
          reserved = sym (ap (λ m. length m.reserved) zeros);
        };
        tagged = refl;
        address = made.address;
        maximum = inl (refl, refl);
      }

  pub create_max_voter_weight_record-IsSound :
      (ctx : CreateMaxVoterWeightRecord)
      → CreateMaxVoterWeightRecord.run fw ctx l ≡ ok l'
      → IsSound fw l'
  create_max_voter_weight_record-IsSound ctx h =
      let o = CreatedMax.run-Outcome fw ctx l l' h in
      IsSound-create fw account_laws ctx.payer.key _ sound o.accepted.created.created o.written
        (λ rest size. maximum _ rest (omega arith) refl (created-IsGoodMax ctx o))

  pub updated-IsGoodMax :
      (ctx : UpdateMaxVoterWeightRecord) (weight : ℕ)
      → IsU64 weight
      → take 8 (l ctx.max_voter_weight_record.key).bytes ≡ fw.max_voter_weight_record_discriminator
      → (o : UpdatedMax.Outcome fw ctx weight l l')
      → IsGoodMax fw ctx.max_voter_weight_record.key (UpdatedMax.changed fw ctx weight o.before)
        × (max_voter_weight_record_space ≤ length (l ctx.max_voter_weight_record.key).bytes)
  updated-IsGoodMax ctx weight hw tag o =
      let (good, room) =
        loaded_max fw laws l sound ctx.max_voter_weight_record o.before tag
          o.accepted.max_voter_weight_record in
      (
        record {
          range = record {
            account_discriminator = good.range.account_discriminator;
            realm = good.range.realm;
            governing_token_mint = good.range.governing_token_mint;
            max_voter_weight = hw;
            max_voter_weight_expiry = tt;
            reserved = good.range.reserved;
          };
          tagged = good.tagged;
          address = good.address;
          maximum = inr (o.handled.positive, refl);
        },
        room,
      )

  pub update_max_voter_weight_record-IsSound :
      (ctx : UpdateMaxVoterWeightRecord) (weight : ℕ)
      → IsU64 weight
      → take 8 (l ctx.max_voter_weight_record.key).bytes ≡ fw.max_voter_weight_record_discriminator
      → UpdateMaxVoterWeightRecord.run fw ctx weight l ≡ ok l'
      → IsSound fw l'
  update_max_voter_weight_record-IsSound ctx weight hw tag h =
      let o = UpdatedMax.run-Outcome fw ctx weight l l' h in
      let (good, room) = updated-IsGoodMax ctx weight hw tag o in
      IsSound-IsWritten fw sound o.written (λ rest size. maximum _ rest (omega arith) refl good)
