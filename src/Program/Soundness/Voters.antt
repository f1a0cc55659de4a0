-- ===== src/Program/Soundness/Voters.antt =====
-- The three instructions on voter weight records keep the ledger sound.
use iam_governance_plugin.Base.{◌≤◌, ℕ, ◌≡◌, refl, sym, ap, inl, inr, take, length, arith}
use iam_governance_plugin.Errors.{Result, ok}
use iam_governance_plugin.Solana.{Pubkey, IsKey, Ledger, Clock}
use iam_governance_plugin.State.{voter_weight_record_space, IsU64}
use iam_governance_plugin.Framework.{Framework}
use iam_governance_plugin.Framework.Laws.{AccountLaws, CodecLaws}
use iam_governance_plugin.Identity.{saturating_add}
use iam_governance_plugin.Instructions.CreateVoterWeightRecord
use iam_governance_plugin.Instructions.CreateVoterWeightRecord.{CreateVoterWeightRecord}
use iam_governance_plugin.Instructions.UpdateVoterWeightRecord
use iam_governance_plugin.Instructions.UpdateVoterWeightRecord.{UpdateVoterWeightRecord}
use iam_governance_plugin.Instructions.CloseVoterWeightRecord
use iam_governance_plugin.Instructions.CloseVoterWeightRecord.{CloseVoterWeightRecord}
use iam_governance_plugin.Instructions.CreateVoterWeightRecord.Outcome as CreatedVoter
use iam_governance_plugin.Instructions.UpdateVoterWeightRecord.Outcome as UpdatedVoter
use iam_governance_plugin.Instructions.CloseVoterWeightRecord.Outcome as ClosedVoter
use iam_governance_plugin.Program.Genuine.{IsGoodVoter, voter, IsSound}
use iam_governance_plugin.Program.Reads.{loaded_registrar, loaded_voter}
use iam_governance_plugin.Program.Fresh.{fresh_voter}
use iam_governance_plugin.Program.Preserve.{IsSound-IsWritten, IsSound-create, IsSound-close}

le-saturating_add : (slot : ℕ) → 100 ≤ saturating_add slot 100
unfolding saturating_add
le-saturating_add slot = ground arith

pub saturating_add-lt : (a b : ℕ) → IsU64 (saturating_add a b)
unfolding saturating_add
saturating_add-lt a b = omega arith

module _ (fw : Framework) (account_laws : AccountLaws fw) (laws : CodecLaws fw) {l l' : Ledger}
    (sound : IsSound fw l) where
  pub created-IsGoodVoter :
      (ctx : CreateVoterWeightRecord) (token_owner : Pubkey)
      → IsKey token_owner
      → (o : CreatedVoter.Outcome fw ctx token_owner l l')
      → IsGoodVoter fw ctx.voter_weight_record.key
          (CreatedVoter.changed fw ctx token_owner o.registrar o.fresh)
  created-IsGoodVoter ctx token_owner key_o o =
      let made = o.accepted.created in
      let zeros =
        fresh_voter fw account_laws laws _ ctx.payer ctx.voter_weight_record l o.created o.fresh
          made in
      let (good, _) =
        loaded_registrar fw laws l sound ctx.registrar o.registrar o.accepted.registrar.loaded in
      record {
        range = record {
          account_discriminator = laws.voter_discriminator_size;
          realm = good.range.realm;
          governing_token_mint = good.range.governing_token_mint;
          governing_token_owner = key_o;
          voter_weight = omega arith;
          voter_weight_expiry = omega arith;
          weight_action = tt;
          weight_action_target = tt;
          reserved = sym (ap (λ v. length v.reserved) zeros);
        };
        tagged = refl;
        address = made.address;
        ballot = inl (refl, refl);
        any_action = refl;
        any_target = refl;
      }

  pub create_voter_weight_record-IsSound :
      (ctx : CreateVoterWeightRecord) (token_owner : Pubkey)
      → IsKey token_owner
      → CreateVoterWeightRecord.run fw ctx token_owner l ≡ ok l'
      → IsSound fw l'
  create_voter_weight_record-IsSound ctx token_owner key_o h =
      let o = CreatedVoter.run-Outcome fw ctx token_owner l l' h in
      IsSound-create fw account_laws ctx.payer.key _ sound o.accepted.created.created o.written
        (λ rest size. voter _ rest (omega arith) refl (created-IsGoodVoter ctx token_owner key_o o))

  pub updated-IsGoodVoter :
      (ctx : UpdateVoterWeightRecord) (get_clock : Result Clock)
      → take 8 (l ctx.voter_weight_record.key).bytes ≡ fw.voter_weight_record_discriminator
      → (o : UpdatedVoter.Outcome fw ctx get_clock l l')
      → IsGoodVoter fw ctx.voter_weight_record.key (UpdatedVoter.changed o.clock o.before)
        × (voter_weight_record_space ≤ length (l ctx.voter_weight_record.key).bytes)
  updated-IsGoodVoter ctx get_clock tag o =
      let (good, room) =
        loaded_voter fw laws l sound ctx.voter_weight_record o.before tag
          o.accepted.voter_weight_record in
      (
        record {
          range = record {
            account_discriminator = good.range.account_discriminator;
            realm = good.range.realm;
            governing_token_mint = good.range.governing_token_mint;
            governing_token_owner = good.range.governing_token_owner;
            voter_weight = omega arith;
            voter_weight_expiry = saturating_add-lt o.clock.slot 100;
            weight_action = tt;
            weight_action_target = tt;
            reserved = good.range.reserved;
          };
          tagged = good.tagged;
          address = good.address;
          ballot =
              inr (refl, (saturating_add o.clock.slot 100, refl, le-saturating_add o.clock.slot));
          any_action = refl;
          any_target = refl;
        },
        room,
      )

  pub update_voter_weight_record-IsSound :
      (ctx : UpdateVoterWeightRecord) (get_clock : Result Clock)
      → take 8 (l ctx.voter_weight_record.key).bytes ≡ fw.voter_weight_record_discriminator
      → UpdateVoterWeightRecord.run fw ctx get_clock l ≡ ok l'
      → IsSound fw l'
  update_voter_weight_record-IsSound ctx get_clock tag h =
      let o = UpdatedVoter.run-Outcome fw ctx get_clock l l' h in
      let (good, room) = updated-IsGoodVoter ctx get_clock tag o in
      IsSound-IsWritten fw sound o.written (λ rest size. voter _ rest (omega arith) refl good)

  pub close_voter_weight_record-IsSound :
      (ctx : CloseVoterWeightRecord) → CloseVoterWeightRecord.run fw ctx l ≡ ok l' → IsSound fw l'
  close_voter_weight_record-IsSound ctx h =
      let o = ClosedVoter.run-Outcome fw ctx l l' h in
      IsSound-close fw account_laws _ _ sound o.closed o.accepted.distinct
