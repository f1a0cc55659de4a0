-- ===== src/Program/Authorship.antt =====
-- Where voting weight comes from.
use iam_governance_plugin.Base.{
  ℕ, ◌≡◌, ◌≢◌, refl, sym, ap, ◌∙◌, some, inl, inr, ◌⊎◌, ◌++◌, take, arith, Bool-cases,
}
use iam_governance_plugin.Base.Bytes.{Bytes}
use iam_governance_plugin.Errors.{Result, ok}
use iam_governance_plugin.Solana.{Pubkey, key_eq, key_eq→eq, key_ne, Ledger, Clock}
use iam_governance_plugin.State.{id, Registrar, VoterWeightRecord, MaxVoterWeightRecord, MaxInRange}
use iam_governance_plugin.Framework.{Framework}
use iam_governance_plugin.Framework.Laws.{AccountLaws, CodecLaws}
use iam_governance_plugin.Anchor.Writes.{IsWritten, written_bytes, written_others}
use iam_governance_plugin.Program.{
  Instruction, create_registrar, update_registrar, create_voter_weight_record,
  update_voter_weight_record, close_registrar, close_voter_weight_record,
  create_max_voter_weight_record, update_max_voter_weight_record, execute,
}
use iam_governance_plugin.Instructions.UpdateVoterWeightRecord.{UpdateVoterWeightRecord}
use iam_governance_plugin.Instructions.CreateRegistrar.Outcome as CreatedRegistrar
use iam_governance_plugin.Instructions.UpdateRegistrar.Outcome as UpdatedRegistrar
use iam_governance_plugin.Instructions.CloseRegistrar.Outcome as ClosedRegistrar
use iam_governance_plugin.Instructions.CreateVoterWeightRecord.Outcome as CreatedVoter
use iam_governance_plugin.Instructions.UpdateVoterWeightRecord.Outcome as UpdatedVoter
use iam_governance_plugin.Instructions.CloseVoterWeightRecord.Outcome as ClosedVoter
use iam_governance_plugin.Instructions.CreateMaxVoterWeightRecord.Outcome as CreatedMax
use iam_governance_plugin.Instructions.UpdateMaxVoterWeightRecord.Outcome as UpdatedMax
use iam_governance_plugin.Program.Soundness.Voters.{created-IsGoodVoter}
use iam_governance_plugin.Program.Soundness.Maximums.{created-IsGoodMax, updated-IsGoodMax}
use iam_governance_plugin.Program.Genuine.{IsSound}
use iam_governance_plugin.Program.Reads.{ReadsVoter, registrar_tag, max_tag}
use iam_governance_plugin.Program.Soundness.{InRange, IsTagged}

-- The account holds the record in both ledgers if it keeps owner and data.
reads_before :
    (fw : Framework) {l l' : Ledger} {k : Pubkey} {v : VoterWeightRecord}
    → ((l' k).owner ≡ (l k).owner) × ((l' k).bytes ≡ (l k).bytes)
    → ReadsVoter fw l' k v
    → ReadsVoter fw l k v
reads_before fw (o, b) h = record {
  owned = sym o ∙ h.owned;
  tagged = ap (λ (x : Bytes). take 8 x) (sym b) ∙ h.tagged;
  read = ap fw.voter_weight_record.deserialize (sym b) ∙ h.read;
}

pub some_injective : {u v : VoterWeightRecord} → some u ≡ some v → u ≡ v
some_injective h = cc h

-- A record of weight 0 is none of weight 1.
no_weight : {u v : VoterWeightRecord} → u ≡ v → u.voter_weight ≡ 0 → v.voter_weight ≡ 1 → ⊥
no_weight {u} {v} e z o = absurd (omega (arith, ap (λ x. x.voter_weight) e))

-- What was written does not read as `v`, so `v` stands elsewhere.
elsewhere :
    (fw : Framework) {out : Bytes} {a k : Pubkey} {l l' : Ledger} {v : VoterWeightRecord}
    → IsWritten out a l l'
    → ReadsVoter fw l' k v
    → ((rest : Bytes)
        → take 8 (out ++ rest) ≡ fw.voter_weight_record_discriminator
        → fw.voter_weight_record.deserialize (out ++ rest) ≡ some v
        → ⊥)
    → a ≢ k
elsewhere fw {l'} w h refuted e =
    let b = sym (written_bytes w) ∙ ap (λ x. (l' x).bytes) e in
    refuted _ (ap (λ (x : Bytes). take 8 x) b ∙ h.tagged)
      (ap fw.voter_weight_record.deserialize b ∙ h.read)

untouched_by_write :
    {out : Bytes} {a k : Pubkey} {l l' : Ledger}
    → IsWritten out a l l'
    → a ≢ k
    → ((l' k).owner ≡ (l k).owner) × ((l' k).bytes ≡ (l k).bytes)
untouched_by_write {k} w ne =
    let e = written_others w k ne in (ap (λ a. a.owner) e, ap (λ a. a.bytes) e)

untouched_by_create :
    (fw : Framework) (laws : AccountLaws fw) (payer : Pubkey) (space : ℕ) {out : Bytes}
    {a k : Pubkey} {l l₁ l' : Ledger}
    → fw.create_account payer a space id l ≡ ok l₁
    → IsWritten out a l₁ l'
    → a ≢ k
    → ((l' k).owner ≡ (l k).owner) × ((l' k).bytes ≡ (l k).bytes)
untouched_by_create fw laws payer space {a} {k} {l} {l₁} made w ne =
    let (o, b) = untouched_by_write w ne in
    let (o', b') = laws.create_account_others payer a space id l l₁ k made ne in (o ∙ o', b ∙ b')

closed_elsewhere :
    (fw : Framework) (laws : AccountLaws fw) (a destination : Pubkey) {k : Pubkey} {l l' : Ledger}
    {v : VoterWeightRecord}
    → fw.close a destination l ≡ ok l'
    → a ≢ destination
    → ReadsVoter fw l' k v
    → ReadsVoter fw l k v
closed_elsewhere fw laws a destination {k} {l} {l'} closed ne h =
    let gone : a ≢ k = λ e. laws.system_program_ne_id (
      sym (laws.close_account a destination l l' closed ne).0
      ∙ ap (λ x. (l' x).owner) e
      ∙ h.owned) in
    reads_before fw (laws.close_others a destination l l' k closed gone) h

-- The record was there before, or the instruction is an update of its account that was accepted.
abbrev pub IsAccountedFor :
    Framework → Result Clock → Ledger → Ledger → Pubkey → VoterWeightRecord → Instruction → Type 0
IsAccountedFor fw clock l l' k v i =
    ReadsVoter fw l k v
    ⊎ ((ctx : UpdateVoterWeightRecord) × (i ≡ update_voter_weight_record ctx)
        × (ctx.voter_weight_record.key ≡ k)
        × UpdatedVoter.Outcome fw ctx clock l l')

module _ (fw : Framework) (account_laws : AccountLaws fw) (laws : CodecLaws fw)
    (clock : Result Clock) {l l' : Ledger} (sound : IsSound fw l) {k : Pubkey}
    {v : VoterWeightRecord} (reads : ReadsVoter fw l' k v) (weight : v.voter_weight ≡ 1) where
  not_a_registrar :
      (r : Registrar) (rest : Bytes)
      → take 8 (fw.registrar.serialize r ++ rest) ≡ fw.voter_weight_record_discriminator
      → ⊥
  not_a_registrar r rest t = laws.registrar_ne_voter (sym (registrar_tag fw laws r rest) ∙ t)

  not_a_maximum :
      (m : MaxVoterWeightRecord) (rest : Bytes)
      → MaxInRange m
      → m.account_discriminator ≡ fw.max_voter_weight_record_discriminator
      → take 8 (fw.max_voter_weight_record.serialize m ++ rest)
        ≡ fw.voter_weight_record_discriminator
      → ⊥
  not_a_maximum m rest range tagged t =
      laws.voter_ne_max (sym t ∙ max_tag fw laws m rest range ∙ tagged)

  -- Under the framework's laws: in a sound ledger, with arguments in range and records tagged as
  -- their types: an instruction after which an account reads as a voter weight record of weight 1
  -- found that record there, or is an update of that account that passed every check.
  pub weight_needs_update :
      (i : Instruction)
      → InRange i
      → IsTagged fw l i
      → execute fw clock i l ≡ ok l'
      → IsAccountedFor fw clock l l' k v i
  unfolding execute
  weight_needs_update (create_registrar ctx floor window) r t h =
      let o = CreatedRegistrar.run-Outcome fw ctx floor window l l' h in
      let ne = elsewhere fw o.written reads (λ rest t' _. not_a_registrar _ rest t') in
      inl (
        reads_before fw
          (untouched_by_create fw account_laws ctx.payer.key _ o.accepted.created.created o.written
            ne)
          reads)
  weight_needs_update (update_registrar ctx floor window) r t h =
      let o = UpdatedRegistrar.run-Outcome fw ctx floor window l l' h in
      let ne = elsewhere fw o.written reads (λ rest t' _. not_a_registrar _ rest t') in
      inl (reads_before fw (untouched_by_write o.written ne) reads)
  weight_needs_update (create_voter_weight_record ctx token_owner) r t h =
      let o = CreatedVoter.run-Outcome fw ctx token_owner l l' h in
      let good = created-IsGoodVoter fw account_laws laws sound ctx token_owner r o in
      let ne = elsewhere fw o.written reads (λ rest _ read.
        no_weight (some_injective (sym (laws.voter_round_trip _ rest good.range) ∙ read)) refl
          weight) in
      inl (
        reads_before fw
          (untouched_by_create fw account_laws ctx.payer.key _ o.accepted.created.created o.written
            ne)
          reads)
  weight_needs_update (update_voter_weight_record ctx) r t h =
      let o = UpdatedVoter.run-Outcome fw ctx clock l l' h in
      elim (Bool-cases (key_eq ctx.voter_weight_record.key k)) [
        | inl same ↦ inr (ctx, refl, key_eq→eq _ _ same, o)
        | inr other ↦
            inl (reads_before fw (untouched_by_write o.written (key_ne _ _ (rw other refl))) reads)
      ]
  weight_needs_update (close_registrar ctx) r t h =
      let o = ClosedRegistrar.run-Outcome fw ctx l l' h in
      inl (closed_elsewhere fw account_laws _ _ o.closed o.accepted.distinct reads)
  weight_needs_update (close_voter_weight_record ctx) r t h =
      let o = ClosedVoter.run-Outcome fw ctx l l' h in
      inl (closed_elsewhere fw account_laws _ _ o.closed o.accepted.distinct reads)
  weight_needs_update (create_max_voter_weight_record ctx) r t h =
      let o = CreatedMax.run-Outcome fw ctx l l' h in
      let good = created-IsGoodMax fw account_laws laws sound ctx o in
      let ne =
        elsewhere fw o.written reads
          (λ rest t' _. not_a_maximum _ rest good.range good.tagged t') in
      inl (
        reads_before fw
          (untouched_by_create fw account_laws ctx.payer.key _ o.accepted.created.created o.written
            ne)
          reads)
  weight_needs_update (update_max_voter_weight_record ctx weight) r t h =
      let o = UpdatedMax.run-Outcome fw ctx weight l l' h in
      let (good, _) = updated-IsGoodMax fw account_laws laws sound ctx weight r t o in
      let ne =
        elsewhere fw o.written reads
          (λ rest t' _. not_a_maximum _ rest good.range good.tagged t') in
      inl (reads_before fw (untouched_by_write o.written ne) reads)
