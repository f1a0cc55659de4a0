-- ===== src/Tests/MaxCodec.antt =====
-- A codec for the max voter weight record, and its laws.
use iam_governance_plugin.Base.{
  ℕ, ◌^◌, ◌<◌, ◌≡◌, refl, ap, ◌∙◌, Option, none, some, [], ◌∷◌, ◌++◌, length, take, append_assoc,
  length-append, take-append_of_length, arith, replicate,
}
use iam_governance_plugin.Base.Bytes.{Bytes, to_le_bytes, length-to_le_bytes, from_le_bytes}
use iam_governance_plugin.State.{
  MaxVoterWeightRecord, MaxInRange, max_voter_weight_record_space, Each,
}
use iam_governance_plugin.Framework.Laws.{zero_max_voter_weight_record, max_size}
use iam_governance_plugin.Tests.Borsh.{
  ◌>>=◌, raw, raw-append, number, number-append, key, key-append, option, write_option,
  option-append, length-write_option,
}

-- sha256("account:MaxVoterWeightRecord")[0..8]
abbrev pub tag : Bytes
tag = 157 ∷ 95 ∷ 242 ∷ 151 ∷ 16 ∷ 98 ∷ 26 ∷ 118 ∷ []

-- The fields, in front of `rest`.
write : MaxVoterWeightRecord → Bytes → Bytes
write v rest =
    v.account_discriminator
    ++ (v.realm.bytes
        ++ (v.governing_token_mint.bytes
            ++ (to_le_bytes 8 v.max_voter_weight
                ++ (write_option (to_le_bytes 8) v.max_voter_weight_expiry
                    ++ (v.reserved ++ rest)))))

unfoldable pub deserialize : Bytes → Option MaxVoterWeightRecord
deserialize b = do
  (account_discriminator, b₁) ← raw 8 b
  (realm, b₂) ← key b₁
  (governing_token_mint, b₃) ← key b₂
  (max_voter_weight, b₄) ← number 8 b₃
  (max_voter_weight_expiry, b₅) ← option (number 8) b₄
  (reserved, b₆) ← raw 8 b₅
  some (record {
    account_discriminator = account_discriminator;
    realm = realm;
    governing_token_mint = governing_token_mint;
    max_voter_weight = max_voter_weight;
    max_voter_weight_expiry = max_voter_weight_expiry;
    reserved = reserved;
  })

Each-number :
    (w : ℕ) (o : Option ℕ) (rest : Bytes)
    → Each (λ n. n < 256 ^ w) o
    → Each (λ n. number w (to_le_bytes w n ++ rest) ≡ some (n, rest)) o
Each-number w none rest h = tt
Each-number w (some n) rest h = number-append w n rest h

Each-length : (w : ℕ) (o : Option ℕ) → Each (λ n. length (to_le_bytes w n) ≡ w) o
Each-length w none = tt
Each-length w (some n) = length-to_le_bytes w n

deserialize-write :
    (v : MaxVoterWeightRecord) (rest : Bytes) → MaxInRange v → deserialize (write v rest) ≡ some v
unfolding deserialize write
deserialize-write v rest h = rw (
  raw-append 8 v.account_discriminator _ h.account_discriminator,
  key-append v.realm _ h.realm,
  key-append v.governing_token_mint _ h.governing_token_mint,
  number-append 8 v.max_voter_weight _ h.max_voter_weight,
  option-append (number 8) (to_le_bytes 8) v.max_voter_weight_expiry _
      (Each-number 8 v.max_voter_weight_expiry _ h.max_voter_weight_expiry),
  raw-append 8 v.reserved rest h.reserved,
)

write-append : (v : MaxVoterWeightRecord) (rest : Bytes) → write v [] ++ rest ≡ write v rest
unfolding write
write-append v rest = simp append_assoc

unfoldable pub serialize : MaxVoterWeightRecord → Bytes
unfolding write
serialize v = write v []

pub round_trip :
    (v : MaxVoterWeightRecord) (rest : Bytes)
    → MaxInRange v
    → deserialize (serialize v ++ rest) ≡ some v
unfolding serialize
round_trip v rest h = ap deserialize (write-append v rest) ∙ deserialize-write v rest h

pub size : (v : MaxVoterWeightRecord) → MaxInRange v → length (serialize v) ≡ max_size v
unfolding serialize write
size v h = omega (
  arith,
  length-append {0},
  length-to_le_bytes,
  length-write_option 8 (to_le_bytes 8) v.max_voter_weight_expiry
      (Each-length 8 v.max_voter_weight_expiry),
  h.account_discriminator,
  h.realm,
  h.governing_token_mint,
  h.reserved,
)

pub tagged :
    (v : MaxVoterWeightRecord) → MaxInRange v → take 8 (serialize v) ≡ v.account_discriminator
unfolding serialize write
tagged v h = take-append_of_length 8 v.account_discriminator _ h.account_discriminator

pub of_zeros :
    deserialize (replicate max_voter_weight_record_space 0) ≡ some zero_max_voter_weight_record
unfolding deserialize key number raw option from_le_bytes
of_zeros = refl
