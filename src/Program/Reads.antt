-- ===== src/Program/Reads.antt =====
-- In a sound ledger an account that reads as one of the program's types holds a well-formed record
-- of it. The registrar's read checks the discriminator; for the two others it is a hypothesis.
use iam_governance_plugin.Base.{
  ℕ, zero, suc, ◌≤◌, ◌≡◌, subst, refl, sym, ap, ◌∙◌, some, [], ◌∷◌, ◌++◌, length, take,
  take-append_le, length-take, replicate, arith,
}
use iam_governance_plugin.Base.Bytes.{Bytes}
use iam_governance_plugin.Errors.{ok_or-eq-ok}
use iam_governance_plugin.Solana.{Pubkey, Ledger, AccountInfo}
use iam_governance_plugin.State.{
  id, registrar_len, max_voter_weight_record_space, voter_weight_record_space, Registrar,
  VoterWeightRecord, VoterInRange, MaxVoterWeightRecord, MaxInRange,
}
use iam_governance_plugin.Framework.{Framework}
use iam_governance_plugin.Framework.Laws.{CodecLaws}
use iam_governance_plugin.Governance.Voter
use iam_governance_plugin.Governance.Max
use iam_governance_plugin.Anchor.{registrar_try_deserialize}
use iam_governance_plugin.Anchor.Laws.{IsLoaded}
use iam_governance_plugin.Program.Genuine.{
  IsGoodRegistrar, IsGoodVoter, IsGoodMax, IsGenuine, blank, registrar, voter, maximum, IsSound,
}

module _ (fw : Framework) (laws : CodecLaws fw) where
  registrar_front : (r : Registrar) → 8 ≤ length (fw.registrar.serialize r)
  registrar_front r = omega (
    arith,
    length-take 8 (fw.registrar.serialize r),
    ap length (laws.registrar_tag r),
    laws.registrar_discriminator_size,
  )

  pub registrar_tag :
      (r : Registrar) (rest : Bytes)
      → take 8 (fw.registrar.serialize r ++ rest) ≡ fw.registrar_discriminator
  registrar_tag r rest =
      take-append_le 8 (fw.registrar.serialize r) rest (registrar_front r) ∙ laws.registrar_tag r

  pub voter_tag :
      (v : VoterWeightRecord) (rest : Bytes)
      → VoterInRange v
      → take 8 (fw.voter_weight_record.serialize v ++ rest) ≡ v.account_discriminator
  voter_tag v rest h =
      take-append_le 8 (fw.voter_weight_record.serialize v) rest
        (omega (arith, laws.voter_size v h))
      ∙ laws.voter_tag v h

  pub max_tag :
      (m : MaxVoterWeightRecord) (rest : Bytes)
      → MaxInRange m
      → take 8 (fw.max_voter_weight_record.serialize m ++ rest) ≡ m.account_discriminator
  max_tag m rest h =
      take-append_le 8 (fw.max_voter_weight_record.serialize m) rest
        (omega (arith, laws.max_size m h))
      ∙ laws.max_tag m h

-- A part of zeros that is as long as asked for is zeros.
pub zeros_of_take :
    (k n : ℕ) (d : Bytes) → length d ≡ k → take k (replicate n 0) ≡ d → d ≡ replicate k 0
zeros_of_take zero n [] h e = refl
zeros_of_take zero n (x ∷ d) h e = absurd (omega arith)
zeros_of_take (suc k) n [] h e = absurd (omega arith)
zeros_of_take (suc k) zero (x ∷ d) h e = cc
zeros_of_take (suc k) (suc n) (x ∷ d) h e =
    let first : 0 ≡ x = cc e in
    let later : take k (replicate n 0) ≡ d = cc e in
    rw (← first) (ap (λ (t : Bytes). 0 ∷ t) (zeros_of_take k n d (omega arith) later))

module _ (fw : Framework) (laws : CodecLaws fw) {k : Pubkey} {bytes : Bytes}
    (g : IsGenuine fw k bytes) where
  -- What genuine data reads as, by its discriminator.
  genuine_registrar :
      (r : Registrar)
      → fw.registrar.deserialize bytes ≡ some r
      → IsGoodRegistrar fw k r × (registrar_len ≤ length bytes)
  genuine_registrar r read =
      let tag : take 8 bytes ≡ fw.registrar_discriminator = laws.registrar_checked bytes r read in
      elim g [
        | blank n e ↦ absurd (
            laws.registrar_ne_zero (
              zeros_of_take 8 n _ laws.registrar_discriminator_size
                (sym (ap (λ (b : Bytes). take 8 b) e) ∙ tag)))
        | registrar r' rest room e good ↦
            let same : r' ≡ r =
              cc (
                laws.registrar_round_trip r' rest good.range,
                ap fw.registrar.deserialize e,
                read,
              ) in
            (subst (λ x. IsGoodRegistrar fw k x) same good, room)
        | voter v rest room e good ↦ absurd (
            laws.registrar_ne_voter (
              sym tag
              ∙ ap (λ (b : Bytes). take 8 b) e
              ∙ voter_tag fw laws v rest good.range
              ∙ good.tagged))
        | maximum m rest room e good ↦ absurd (
            laws.registrar_ne_max (
              sym tag
              ∙ ap (λ (b : Bytes). take 8 b) e
              ∙ max_tag fw laws m rest good.range
              ∙ good.tagged))
      ]

  genuine_voter :
      (v : VoterWeightRecord)
      → take 8 bytes ≡ fw.voter_weight_record_discriminator
      → fw.voter_weight_record.deserialize bytes ≡ some v
      → IsGoodVoter fw k v × (voter_weight_record_space ≤ length bytes)
  genuine_voter v tag read = elim g [
    | blank n e ↦ absurd (
        laws.voter_ne_zero (
          zeros_of_take 8 n _ laws.voter_discriminator_size
            (sym (ap (λ (b : Bytes). take 8 b) e) ∙ tag)))
    | registrar r rest room e good ↦ absurd (
        laws.registrar_ne_voter
          (sym (registrar_tag fw laws r rest) ∙ sym (ap (λ (b : Bytes). take 8 b) e) ∙ tag))
    | voter v' rest room e good ↦
        let same : v' ≡ v = cc (
          laws.voter_round_trip v' rest good.range,
          ap fw.voter_weight_record.deserialize e,
          read,
        ) in
        (subst (λ x. IsGoodVoter fw k x) same good, room)
    | maximum m rest room e good ↦ absurd (
        laws.voter_ne_max (
          sym tag
          ∙ ap (λ (b : Bytes). take 8 b) e
          ∙ max_tag fw laws m rest good.range
          ∙ good.tagged))
  ]

  genuine_max :
      (m : MaxVoterWeightRecord)
      → take 8 bytes ≡ fw.max_voter_weight_record_discriminator
      → fw.max_voter_weight_record.deserialize bytes ≡ some m
      → IsGoodMax fw k m × (max_voter_weight_record_space ≤ length bytes)
  genuine_max m tag read = elim g [
    | blank n e ↦ absurd (
        laws.max_ne_zero (
          zeros_of_take 8 n _ laws.max_discriminator_size
            (sym (ap (λ (b : Bytes). take 8 b) e) ∙ tag)))
    | registrar r rest room e good ↦ absurd (
        laws.registrar_ne_max
          (sym (registrar_tag fw laws r rest) ∙ sym (ap (λ (b : Bytes). take 8 b) e) ∙ tag))
    | voter v rest room e good ↦ absurd (
        laws.voter_ne_max (
          sym good.tagged
          ∙ sym (voter_tag fw laws v rest good.range)
          ∙ sym (ap (λ (b : Bytes). take 8 b) e)
          ∙ tag))
    | maximum m' rest room e good ↦
        let same : m' ≡ m = cc (
          laws.max_round_trip m' rest good.range,
          ap fw.max_voter_weight_record.deserialize e,
          read,
        ) in
        (subst (λ x. IsGoodMax fw k x) same good, room)
  ]

module _ (fw : Framework) (laws : CodecLaws fw) (l : Ledger) (sound : IsSound fw l)
    (info : AccountInfo) where
  pub loaded_registrar :
      (r : Registrar)
      → IsLoaded fw id (registrar_try_deserialize fw) info l r
      → IsGoodRegistrar fw info.key r × (registrar_len ≤ length (l info.key).bytes)
  unfolding registrar_try_deserialize
  loaded_registrar r h =
      genuine_registrar fw laws (sound.genuine info.key h.owned) r (ok_or-eq-ok _ _ h.read)

  pub loaded_voter :
      (v : VoterWeightRecord)
      → take 8 (l info.key).bytes ≡ fw.voter_weight_record_discriminator
      → IsLoaded fw Voter.owner (Voter.try_deserialize_unchecked fw) info l v
      → IsGoodVoter fw info.key v × (voter_weight_record_space ≤ length (l info.key).bytes)
  unfolding Voter.try_deserialize_unchecked
  loaded_voter v tag h =
      genuine_voter fw laws (sound.genuine info.key h.owned) v tag (ok_or-eq-ok _ _ h.read)

  pub loaded_max :
      (m : MaxVoterWeightRecord)
      → take 8 (l info.key).bytes ≡ fw.max_voter_weight_record_discriminator
      → IsLoaded fw Max.owner (Max.try_deserialize_unchecked fw) info l m
      → IsGoodMax fw info.key m × (max_voter_weight_record_space ≤ length (l info.key).bytes)
  unfolding Max.try_deserialize_unchecked
  loaded_max m tag h =
      genuine_max fw laws (sound.genuine info.key h.owned) m tag (ok_or-eq-ok _ _ h.read)

-- A record account that a program's instruction could have written: owned by the program, with the
-- discriminator of a voter weight record, reading as `v`.
pub record ReadsVoter (fw : Framework) (l : Ledger) (k : Pubkey) (v : VoterWeightRecord)
    : Type 0 where
  pub owned : (l k).owner ≡ id
  pub tagged : take 8 (l k).bytes ≡ fw.voter_weight_record_discriminator
  pub read : fw.voter_weight_record.deserialize (l k).bytes ≡ some v

-- The same for a registrar.
pub record ReadsRegistrar (fw : Framework) (l : Ledger) (k : Pubkey) (r : Registrar) : Type 0 where
  pub owned : (l k).owner ≡ id
  pub read : fw.registrar.deserialize (l k).bytes ≡ some r

module _ (fw : Framework) (laws : CodecLaws fw) {l : Ledger} (sound : IsSound fw l)
    {k : Pubkey} where
  pub reads_voter : {v : VoterWeightRecord} → ReadsVoter fw l k v → IsGoodVoter fw k v
  reads_voter {v} h = (genuine_voter fw laws (sound.genuine k h.owned) v h.tagged h.read).0

  pub reads_registrar : {r : Registrar} → ReadsRegistrar fw l k r → IsGoodRegistrar fw k r
  reads_registrar {r} h = (genuine_registrar fw laws (sound.genuine k h.owned) r h.read).0

  pub voter_room :
      {v : VoterWeightRecord} → ReadsVoter fw l k v → voter_weight_record_space ≤ length (l k).bytes
  voter_room {v} h = (genuine_voter fw laws (sound.genuine k h.owned) v h.tagged h.read).1
