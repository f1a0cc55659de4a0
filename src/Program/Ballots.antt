-- ===== src/Program/Ballots.antt =====
-- What a reader of the program's accounts may rely on.
use iam_governance_plugin.Base.{some, ◌⊎◌, ◌≤◌, ◌≡◌, none, arith, inl, inr}
use iam_governance_plugin.Base.Int.{pos, ◌<ℤ◌}
use iam_governance_plugin.Solana.{Pubkey, Ledger}
use iam_governance_plugin.State.{Registrar, VoterWeightRecord}
use iam_governance_plugin.Framework.{Framework}
use iam_governance_plugin.Framework.Laws.{AccountLaws, CodecLaws}
use iam_governance_plugin.Seeds.{derived, registrar_seeds, voter_weight_record_seeds}
use iam_governance_plugin.Program.Genuine.{IsBallot}
use iam_governance_plugin.Program.Reads.{ReadsVoter, ReadsRegistrar, reads_voter, reads_registrar}
use iam_governance_plugin.Program.Earned.{IsEarned, weight-IsEarned}
use iam_governance_plugin.Program.Reach.{AreTagged, Reach, Reach-IsSound}

at_most_one : (v : VoterWeightRecord) → IsBallot v → v.voter_weight ≤ 1
at_most_one v (inl idle) = omega (arith, idle.0)
at_most_one v (inr voting) = omega (arith, voting.0)

module _ (fw : Framework) (account_laws : AccountLaws fw) (laws : CodecLaws fw) where
  -- Under the framework's laws: in a reachable ledger, where every record passed to an update in
  -- its history bore the discriminator of its type, two accounts that read as voter weight records
  -- of one realm, mint and owner are one account.
  pub one_record_per_voter :
      {l : Ledger} {k j : Pubkey} {v w : VoterWeightRecord} (r : Reach fw l)
      → AreTagged fw r
      → ReadsVoter fw l k v
      → ReadsVoter fw l j w
      → v.realm ≡ w.realm
      → v.governing_token_mint ≡ w.governing_token_mint
      → v.governing_token_owner ≡ w.governing_token_owner
      → k ≡ j
  one_record_per_voter {v} {w} reach tagged hv hw realm mint owner =
      let sound = Reach-IsSound fw account_laws laws reach tagged in
      let gv = reads_voter fw laws sound hv in
      let gw = reads_voter fw laws sound hw in cc (gv.address, gw.address, realm, mint, owner)

  -- Under the framework's laws: in a reachable ledger, where every record passed to an update in
  -- its history bore the discriminator of its type, a voter weight record has weight 0 or 1: 0
  -- with expiry 0, or 1 earned in that history, with an expiry a hundred slots after the clock of
  -- the update that gave it. It is for every action, and stands at the address of its own fields.
  pub ballots :
      {l : Ledger} {k : Pubkey} {v : VoterWeightRecord} (r : Reach fw l)
      → AreTagged fw r
      → ReadsVoter fw l k v
      → (v.voter_weight ≤ 1)
        × (((v.voter_weight ≡ 0) × (v.voter_weight_expiry ≡ some 0))
            ⊎ ((v.voter_weight ≡ 1) × IsEarned fw k v r))
        × (v.weight_action ≡ none)
        × (v.weight_action_target ≡ none)
        × (k
            ≡ derived fw
                (voter_weight_record_seeds v.realm v.governing_token_mint v.governing_token_owner))
  ballots {v} r tagged h =
      let g = reads_voter fw laws (Reach-IsSound fw account_laws laws r tagged) h in
      (
        at_most_one v g.ballot,
        elim g.ballot [
          | inl idle ↦ inl idle
          | inr voting ↦ inr (voting.0, weight-IsEarned fw account_laws laws r tagged h voting.0)
        ],
        g.any_action,
        g.any_target,
        g.address,
      )

  -- Under the framework's laws: in a reachable ledger, where every record passed to an update in
  -- its history bore the discriminator of its type, a registrar has a positive window and stands
  -- at the address of its own realm and mint.
  pub registrars :
      {l : Ledger} {k : Pubkey} {registrar : Registrar} (r : Reach fw l)
      → AreTagged fw r
      → ReadsRegistrar fw l k registrar
      → (pos 0 <ℤ registrar.max_verification_age)
        × (k ≡ derived fw (registrar_seeds registrar.realm registrar.governing_token_mint))
  registrars r tagged h =
      let g = reads_registrar fw laws (Reach-IsSound fw account_laws laws r tagged) h in
      (g.positive, g.address)
