-- ===== src/Tests/PartWitnesses.antt =====
-- The theorems on the parts of the program at concrete inputs.
use iam_governance_plugin.Base.{
  ap, ◌≡◌, ◌≢◌, ◌≤◌, ◌↔◌, refl, none, some, [], ◌∷◌, length, replicate, arith,
}
use iam_governance_plugin.Base.Int.{pos, negsuc, ◌<ℤ◌, ◌≤ℤ◌, ◌-ℤ◌}
use iam_governance_plugin.Errors.{ok, err, entros, invalid_identity_owner}
use iam_governance_plugin.State.{
  VoterWeightRecord, MaxVoterWeightRecord, VoterInRange, voter_weight_record_space,
  max_voter_weight_record_space,
}
use iam_governance_plugin.Seeds.{
  derived, registrar_seeds, voter_weight_record_seeds, max_voter_weight_record_seeds,
}
use iam_governance_plugin.Tests.World.{fw, codec_laws}
use iam_governance_plugin.Tests.MaxCodec
use iam_governance_plugin.Tests.Sample.{
  payer, governance, realm, authority, mint, voter, info, signing, layout, genesis,
}
use iam_governance_plugin.Tests.History.{now, with_record}
use iam_governance_plugin.Tests.Facts.{voting_record, identity_fields}
use iam_governance_plugin.Framework.Space.{
  voter_weight_record_fits, max_voter_weight_record_fits, voter_weight_record_fills,
}
use iam_governance_plugin.Seeds.Distinct.{
  IsCollisionFree, registrar_address_injective, voter_address_injective, kinds_apart,
}
use iam_governance_plugin.Authority.{require_realm_authority}
use iam_governance_plugin.Authority.Laws.{HasAuthority, require_realm_authority_iff}
use iam_governance_plugin.Identity.{
  parse_identity, read_identity, verification_age, check_eligibility, identity_pda,
}
use iam_governance_plugin.Identity.Layout.{encode, parse_identity-encode}
use iam_governance_plugin.Identity.Reading.{IsIdentity, read_identity_iff}
use iam_governance_plugin.Identity.Refusal.{IsRefused, read_identity-IsRefused_iff}
use iam_governance_plugin.Identity.Recency.{
  verification_age_lt_iff, verification_age_future, IsEligible, check_eligibility_iff,
}

require_realm_authority_iff_example :
    (require_realm_authority fw governance (info realm) mint (signing authority) genesis ≡ ok tt)
    ↔ HasAuthority fw governance (info realm) mint authority genesis
require_realm_authority_iff_example =
    require_realm_authority_iff fw governance (info realm) mint (signing authority) genesis

read_identity_iff_example :
    (read_identity fw voter (info (identity_pda fw voter) ∷ []) with_record ≡ ok identity_fields)
    ↔ IsIdentity fw voter (info (identity_pda fw voter) ∷ []) with_record identity_fields
read_identity_iff_example =
    read_identity_iff fw voter (info (identity_pda fw voter) ∷ []) with_record identity_fields

-- The first remaining account is the payer's.
read_identity-IsRefused_iff_example :
    (read_identity fw voter (info payer ∷ []) genesis ≡ err (entros invalid_identity_owner))
    ↔ IsRefused fw voter (info payer ∷ []) genesis (entros invalid_identity_owner)
read_identity-IsRefused_iff_example =
    read_identity-IsRefused_iff fw voter (info payer ∷ []) genesis (entros invalid_identity_owner)

parse_identity-encode_example : parse_identity (encode layout) ≡ ok identity_fields
parse_identity-encode_example = parse_identity-encode layout (record {
  before = refl;
  last_verification_timestamp = ground arith;
  between = refl;
  trust_score = omega arith;
})

check_eligibility_iff_example :
    (check_eligibility identity_fields 50 (pos 86400) (ok now) ≡ ok now)
    ↔ ((ok now ≡ ok now) × IsEligible identity_fields 50 (pos 86400) now)
check_eligibility_iff_example = check_eligibility_iff identity_fields 50 (pos 86400) (ok now) now

-- The age of the earliest timestamp saturates.
verification_age_lt_iff_example :
    (verification_age (pos 2000) (negsuc 9223372036854775807) <ℤ pos 86400)
    ↔ (pos 2000 -ℤ negsuc 9223372036854775807 <ℤ pos 86400)
verification_age_lt_iff_example =
    verification_age_lt_iff (pos 2000) (negsuc 9223372036854775807) (pos 86400) (ground arith)
      (ground arith) (ground arith) (ground arith)

verification_age_future_example :
    (verification_age (pos 2000) (pos 5000) ≡ pos 2000 -ℤ pos 5000)
    × (verification_age (pos 2000) (pos 5000) ≤ℤ pos 0)
    × (verification_age (pos 2000) (pos 5000) <ℤ pos 60)
verification_age_future_example =
    verification_age_future (pos 2000) (pos 5000) (pos 60) (ground arith) (ground arith)
      (ground arith) (ground arith) (ground arith)

free : IsCollisionFree fw
free = record { apart = λ s t hs ht e. ap (λ k. k.bytes) e }

registrar_address_injective_example : (realm ≡ realm) × (mint ≡ mint)
registrar_address_injective_example =
    registrar_address_injective fw free realm mint realm mint refl refl refl refl refl

voter_address_injective_example : (realm ≡ realm) × (mint ≡ mint) × (voter ≡ voter)
voter_address_injective_example =
    voter_address_injective fw free realm mint voter realm mint voter refl refl refl refl refl refl
      refl

kinds_apart_example :
    (derived fw (registrar_seeds realm mint)
      ≢ derived fw (voter_weight_record_seeds realm mint voter))
    × (derived fw (registrar_seeds realm mint)
        ≢ derived fw (max_voter_weight_record_seeds realm mint))
    × (derived fw (voter_weight_record_seeds realm mint voter)
        ≢ derived fw (max_voter_weight_record_seeds realm mint))
kinds_apart_example =
    kinds_apart fw free realm mint realm mint voter realm mint refl refl refl refl refl refl refl

abbrev full_record : VoterWeightRecord
full_record = record voting_record { weight_action = some 3; weight_action_target = some realm }

full_record-InRange : VoterInRange full_record
full_record-InRange = record {
  account_discriminator = refl;
  realm = refl;
  governing_token_mint = refl;
  governing_token_owner = refl;
  voter_weight = omega arith;
  voter_weight_expiry = omega arith;
  weight_action = omega arith;
  weight_action_target = refl;
  reserved = refl;
}

abbrev sample_max : MaxVoterWeightRecord
sample_max = record {
  account_discriminator = MaxCodec.tag;
  realm = realm;
  governing_token_mint = mint;
  max_voter_weight = 9;
  max_voter_weight_expiry = none;
  reserved = replicate 8 0;
}

voter_weight_record_fits_example :
    length (fw.voter_weight_record.serialize full_record) ≤ voter_weight_record_space
voter_weight_record_fits_example =
    voter_weight_record_fits fw codec_laws full_record full_record-InRange

max_voter_weight_record_fits_example :
    length (fw.max_voter_weight_record.serialize sample_max) ≤ max_voter_weight_record_space
max_voter_weight_record_fits_example =
    max_voter_weight_record_fits fw codec_laws sample_max (record {
      account_discriminator = refl;
      realm = refl;
      governing_token_mint = refl;
      max_voter_weight = omega arith;
      max_voter_weight_expiry = tt;
      reserved = refl;
    })

voter_weight_record_fills_example :
    length (fw.voter_weight_record.serialize full_record) ≡ voter_weight_record_space
voter_weight_record_fills_example =
    voter_weight_record_fills fw codec_laws full_record full_record-InRange tt tt tt
