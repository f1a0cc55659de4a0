-- ===== src/Program/Liveness.antt =====
-- The update of a record for an eligible voter.
use iam_governance_plugin.Base.{◌≤◌, ◌≡◌, refl, sym, ap, ◌∙◌, true, length, arith}
use iam_governance_plugin.Errors.{Result, ok, anchor, account_did_not_deserialize, ok_or}
use iam_governance_plugin.Solana.{Pubkey, key_eq_ne, put, Ledger, AccountInfo, Clock}
use iam_governance_plugin.State.{voter_weight_record_space, Registrar, VoterWeightRecord}
use iam_governance_plugin.Framework.{Framework}
use iam_governance_plugin.Framework.Laws.{AccountLaws, CodecLaws}
use iam_governance_plugin.Governance.Voter
use iam_governance_plugin.Anchor.Laws.{IsLoaded}
use iam_governance_plugin.Anchor.Writes.{overwritten}
use iam_governance_plugin.Anchor.Registrars.{IsRegistrar}
use iam_governance_plugin.Instructions.UpdateVoterWeightRecord
use iam_governance_plugin.Instructions.UpdateVoterWeightRecord.{UpdateVoterWeightRecord}
use iam_governance_plugin.Instructions.UpdateVoterWeightRecord.Outcome as UpdatedVoter
use iam_governance_plugin.Instructions.UpdateVoterWeightRecord.Complete.{run_iff}
use iam_governance_plugin.Program.Genuine.{IsGoodVoter}
use iam_governance_plugin.Program.Reads.{ReadsVoter, reads_voter, voter_room}
use iam_governance_plugin.Program.Reach.{AreTagged, Reach, Reach-IsSound}
use iam_governance_plugin.Program.Soundness.Voters.{saturating_add-lt}

-- What the transaction of an eligible voter brings.
pub record IsReady (fw : Framework) (ctx : UpdateVoterWeightRecord) (get_clock : Result Clock)
    (l : Ledger) (r : Registrar) (v : VoterWeightRecord) (clock : Clock) : Type 0 where
  pub registrar : IsRegistrar fw ctx.registrar l r
  pub voter_weight_record : ReadsVoter fw l ctx.voter_weight_record.key v
  pub signed : ctx.voter_authority.is_signer ≡ true
  pub writable : ctx.voter_weight_record.is_writable ≡ true
  pub record_realm : v.realm ≡ r.realm
  pub record_mint : v.governing_token_mint ≡ r.governing_token_mint
  pub handled : UpdatedVoter.IsHandled fw ctx get_clock r v l clock

-- The record that an update leaves is never larger than the space of its account.
changed_fits :
    (fw : Framework) (laws : CodecLaws fw) (k : Pubkey) (v : VoterWeightRecord) (clock : Clock)
    → IsGoodVoter fw k v
    → length (fw.voter_weight_record.serialize (UpdatedVoter.changed clock v))
      ≤ voter_weight_record_space
changed_fits fw laws k v clock good = omega (
  arith,
  laws.voter_size (UpdatedVoter.changed clock v) (record {
    account_discriminator = good.range.account_discriminator;
    realm = good.range.realm;
    governing_token_mint = good.range.governing_token_mint;
    governing_token_owner = good.range.governing_token_owner;
    voter_weight = omega arith;
    voter_weight_expiry = saturating_add-lt clock.slot 100;
    weight_action = tt;
    weight_action_target = tt;
    reserved = good.range.reserved;
  }),
)

reads-IsLoaded :
    (fw : Framework) (laws : AccountLaws fw) (info : AccountInfo) (l : Ledger)
    (v : VoterWeightRecord)
    → ReadsVoter fw l info.key v
    → IsLoaded fw Voter.owner (Voter.try_deserialize_unchecked fw) info l v
unfolding Voter.try_deserialize_unchecked
reads-IsLoaded fw laws info l v h = record {
  live = rw (
      key_eq_ne (l info.key).owner fw.system_program
        (λ e. laws.system_program_ne_id (sym e ∙ h.owned)));
  owned = h.owned;
  read = ap (λ o. ok_or o (anchor account_did_not_deserialize)) h.read;
}

module _ (fw : Framework) (account_laws : AccountLaws fw) (laws : CodecLaws fw) where
  -- Under the framework's laws: in a reachable ledger, where every record passed to an update in
  -- its history bore the discriminator of its type, the update succeeds for the registrar's own
  -- voter: who signs, owns the record of the registrar's realm and mint, and brings an identity
  -- account that meets the floor and window.
  pub eligible_voter_succeeds :
      {l : Ledger} (ctx : UpdateVoterWeightRecord) (get_clock : Result Clock) (r : Registrar)
      (v : VoterWeightRecord) (clock : Clock) (reach : Reach fw l)
      → AreTagged fw reach
      → IsReady fw ctx get_clock l r v clock
      → (l' : Ledger) × (UpdateVoterWeightRecord.run fw ctx get_clock l ≡ ok l')
  eligible_voter_succeeds {l} ctx get_clock r v clock reach tagged h =
      let k = ctx.voter_weight_record.key in
      let sound = Reach-IsSound fw account_laws laws reach tagged in
      let good = reads_voter fw laws sound h.voter_weight_record in
      let room = voter_room fw laws sound h.voter_weight_record in
      let small = changed_fits fw laws k v clock good in
      let out = fw.voter_weight_record.serialize (UpdatedVoter.changed clock v) in
      let l' : Ledger = put k (overwritten out (l k)) l in
      (
        l',
        (run_iff fw ctx get_clock l l').1 (record {
          registrar = r;
          before = v;
          clock = clock;
          accepted = record {
            registrar = h.registrar;
            voter_weight_record =
                reads-IsLoaded fw account_laws ctx.voter_weight_record l v h.voter_weight_record;
            signed = h.signed;
            writable = h.writable;
            record_realm = h.record_realm;
            record_mint = h.record_mint;
          };
          handled = h.handled;
          written = record { fits = omega arith; result = refl };
        }),
      )
