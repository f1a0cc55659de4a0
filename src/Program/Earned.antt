-- ===== src/Program/Earned.antt =====
-- Where the weight of a record in a reachable ledger was given.
use iam_governance_plugin.Base.{◌⊎◌, ◌≡◌, refl, sym, ap, ◌∙◌, some, true, inl, inr, subst, take}
use iam_governance_plugin.Base.Bytes.{Bytes}
use iam_governance_plugin.Errors.{Result, ok}
use iam_governance_plugin.Solana.{Pubkey, Ledger, Clock}
use iam_governance_plugin.State.{Registrar, VoterWeightRecord}
use iam_governance_plugin.Framework.{Framework}
use iam_governance_plugin.Framework.Laws.{AccountLaws, CodecLaws}
use iam_governance_plugin.Anchor.Registrars.{IsRegistrar}
use iam_governance_plugin.Identity.{IdentityFields, saturating_add}
use iam_governance_plugin.Identity.Reading.{IsIdentity}
use iam_governance_plugin.Identity.Recency.{IsEligible}
use iam_governance_plugin.Instructions.UpdateVoterWeightRecord.{UpdateVoterWeightRecord}
use iam_governance_plugin.Instructions.UpdateVoterWeightRecord.Outcome as UpdatedVoter
use iam_governance_plugin.Program.{update_voter_weight_record}
use iam_governance_plugin.Program.Genuine.{IsSound}
use iam_governance_plugin.Program.Reads.{ReadsVoter, zeros_of_take}
use iam_governance_plugin.Program.Soundness.{IsTagged}
use iam_governance_plugin.Program.Soundness.Voters.{updated-IsGoodVoter}
use iam_governance_plugin.Program.Effects.{written-ReadsVoter}
use iam_governance_plugin.Program.Authorship.{some_injective, weight_needs_update}
use iam_governance_plugin.Program.Reach.{
  IsOutside, Step, AreTagged, Reach, start, next, instruction, outside, Reach-IsSound,
}

-- The update of these accounts gives the weight to `v`: under the registrar of the record's realm and
-- mint, the record's owner signs and brings their own identity account, which meets the floor and
-- the window at the clock, and the expiry counts from that clock.
pub record IsGiven (fw : Framework) (ctx : UpdateVoterWeightRecord) (get_clock : Result Clock)
    (l : Ledger) (v : VoterWeightRecord) : Type 0 where
  pub registrar : Registrar
  pub is_registrar : IsRegistrar fw ctx.registrar l registrar
  pub realm : v.realm ≡ registrar.realm
  pub mint : v.governing_token_mint ≡ registrar.governing_token_mint
  pub signed : ctx.voter_authority.is_signer ≡ true
  pub mine : v.governing_token_owner ≡ ctx.voter_authority.key
  pub identity : IdentityFields
  pub is_identity : IsIdentity fw v.governing_token_owner ctx.remaining_accounts l identity
  pub clock : Clock
  pub clock_read : get_clock ≡ ok clock
  pub eligible : IsEligible identity registrar.min_trust_score registrar.max_verification_age clock
  pub expiry : v.voter_weight_expiry ≡ some (saturating_add clock.slot 100)

-- The step is an update of this account that gives the weight.
abbrev pub IsGivenBy :
    (fw : Framework) → Pubkey → VoterWeightRecord → {l l' : Ledger} → Step fw l l' → Type 0
IsGivenBy fw k v {l} (instruction clock i range h) =
    (ctx : UpdateVoterWeightRecord) × (i ≡ update_voter_weight_record ctx)
    × (ctx.voter_weight_record.key ≡ k)
    × IsGiven fw ctx clock l v
IsGivenBy fw k v (outside o) = ⊥

-- Some step of this history gave the weight, and after it and every later one the account reads as `v`.
abbrev pub IsEarned :
    (fw : Framework) → Pubkey → VoterWeightRecord → {l : Ledger} → Reach fw l → Type 0
IsEarned fw k v (start none_owned) = ⊥
IsEarned fw k v (next {l} {l'} before step) =
    ReadsVoter fw l' k v × (IsGivenBy fw k v step ⊎ IsEarned fw k v before)

module _ (fw : Framework) (account_laws : AccountLaws fw) (laws : CodecLaws fw) where
  -- An accepted update gives the weight to what its record then reads as.
  Outcome-IsGiven :
      {l l' : Ledger} {v : VoterWeightRecord} (ctx : UpdateVoterWeightRecord)
      (get_clock : Result Clock)
      → IsSound fw l
      → IsTagged fw l (update_voter_weight_record ctx)
      → UpdatedVoter.Outcome fw ctx get_clock l l'
      → ReadsVoter fw l' ctx.voter_weight_record.key v
      → IsGiven fw ctx get_clock l v
  Outcome-IsGiven {l} {l'} {v} ctx get_clock sound tagged o reads =
      let (good, _) = updated-IsGoodVoter fw account_laws laws sound ctx get_clock tagged o in
      let back = written-ReadsVoter fw laws _ o.written o.accepted.voter_weight_record.owned good in
      let same : UpdatedVoter.changed o.clock o.before ≡ v =
        some_injective (sym back.read ∙ reads.read) in
      subst (λ x. IsGiven fw ctx get_clock l x) same
        (record {
          registrar = o.registrar;
          is_registrar = o.accepted.registrar;
          realm = o.accepted.record_realm;
          mint = o.accepted.record_mint;
          signed = o.accepted.signed;
          mine = o.handled.mine;
          identity = o.handled.identity;
          is_identity =
              subst (λ x. IsIdentity fw x ctx.remaining_accounts l o.handled.identity)
                (sym o.handled.mine) o.handled.is_identity;
          clock = o.clock;
          clock_read = o.handled.clock_read;
          eligible = o.handled.eligible;
          expiry = refl;
        })

  -- What another program leaves reads as a record only if it read so before.
  outside-ReadsVoter :
      {l l' : Ledger} {k : Pubkey} {v : VoterWeightRecord}
      → IsOutside l l'
      → ReadsVoter fw l' k v
      → ReadsVoter fw l k v
  outside-ReadsVoter {l} {l'} {k} o reads = elim (o.assigned k reads.owned) [
    | inl owned ↦
        let same : (l' k).bytes ≡ (l k).bytes = (o.kept k owned).1 in
        record {
          owned = owned;
          tagged = ap (λ (b : Bytes). take 8 b) (sym same) ∙ reads.tagged;
          read = ap fw.voter_weight_record.deserialize (sym same) ∙ reads.read;
        }
    | inr (n, zeros) ↦ absurd (
        laws.voter_ne_zero (
          zeros_of_take 8 n _ laws.voter_discriminator_size
            (sym (ap (λ (b : Bytes). take 8 b) zeros) ∙ reads.tagged)))
  ]

  -- Under the framework's laws: in a reachable ledger, where every record passed to an update in
  -- its history bore the discriminator of its type, a voter weight record of weight 1 was earned
  -- in that history: an update instruction on its account succeeded, under the registrar of the
  -- record's realm and mint, at which the record's owner signed and brought their own identity
  -- account, which met the floor and the window at the clock that the expiry counts from; and
  -- after that step and every later one the account reads as this record.
  pub weight-IsEarned :
      {l : Ledger} {k : Pubkey} {v : VoterWeightRecord} (r : Reach fw l)
      → AreTagged fw r
      → ReadsVoter fw l k v
      → v.voter_weight ≡ 1
      → IsEarned fw k v r
  weight-IsEarned {k} (start none_owned) tagged reads one = absurd (none_owned k reads.owned)
  weight-IsEarned (next {l} {l'} before (outside o)) tagged reads one =
      (reads, inr (weight-IsEarned before tagged (outside-ReadsVoter o reads) one))
  weight-IsEarned {v} (next {l} {l'} before (instruction clock i range h)) tagged reads one =
      let sound = Reach-IsSound fw account_laws laws before tagged.0 in
      elim (weight_needs_update fw account_laws laws clock sound reads one i range tagged.1 h) [
        | inl earlier ↦ (reads, inr (weight-IsEarned before tagged.0 earlier one))
        | inr (ctx, is_update, at, o) ↦
            let given =
              Outcome-IsGiven ctx clock sound (subst (λ x. IsTagged fw l x) is_update tagged.1) o
                (subst (λ x. ReadsVoter fw l' x v) (sym at) reads) in
            (reads, inl (ctx, is_update, at, given))
      ]
