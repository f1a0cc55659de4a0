-- ===== src/Tests/VoterCodec.antt =====
-- A codec for the voter weight record, and its laws.
use iam_governance_plugin.Base.{
  ℕ, ◌^◌, ◌<◌, ◌≡◌, refl, ap, ◌∙◌, Option, none, some, [], ◌∷◌, ◌++◌, length, take, append_assoc,
  length-append, take-append_of_length, arith, replicate,
}
use iam_governance_plugin.State.{IsAction}
use iam_governance_plugin.Base.Bytes.{Bytes, to_le_bytes, length-to_le_bytes, from_le_bytes}
use iam_governance_plugin.Solana.{Pubkey, IsKey}
use iam_governance_plugin.State.{VoterWeightRecord, VoterInRange, voter_weight_record_space, Each}
use iam_governance_plugin.Framework.Laws.{zero_voter_weight_record, voter_size}
use iam_governance_plugin.Tests.Borsh.{
  ◌>>=◌, raw, raw-append, number, number-append, key, key-append, option, write_option,
  option-append, length-write_option,
}

-- sha256("account:VoterWeightRecord")[0..8]
abbrev pub tag : Bytes
tag = 46 ∷ 249 ∷ 155 ∷ 75 ∷ 153 ∷ 248 ∷ 116 ∷ 9 ∷ []

abbrev key_bytes : Pubkey → Bytes
key_bytes k = k.bytes

-- The fields, in front of `rest`.
write : VoterWeightRecord → Bytes → Bytes
write v rest =
    v.account_discriminator
    ++ (v.realm.bytes
        ++ (v.governing_token_mint.bytes
            ++ (v.governing_token_owner.bytes
                ++ (to_le_bytes 8 v.voter_weight
                    ++ (write_option (to_le_bytes 8) v.voter_weight_expiry
                        ++ (write_option (to_le_bytes 1) v.weight_action
                            ++ (write_option key_bytes v.weight_action_target
                                ++ (v.reserved ++ rest))))))))

unfoldable pub deserialize : Bytes → Option VoterWeightRecord
deserialize b = do
  (account_discriminator, b₁) ← raw 8 b
  (realm, b₂) ← key b₁
  (governing_token_mint, b₃) ← key b₂
  (governing_token_owner, b₄) ← key b₃
  (voter_weight, b₅) ← number 8 b₄
  (voter_weight_expiry, b₆) ← option (number 8) b₅
  (weight_action, b₇) ← option (number 1) b₆
  (weight_action_target, b₈) ← option key b₇
  (reserved, b₉) ← raw 8 b₈
  some (record {
    account_discriminator = account_discriminator;
    realm = realm;
    governing_token_mint = governing_token_mint;
    governing_token_owner = governing_token_owner;
    voter_weight = voter_weight;
    voter_weight_expiry = voter_weight_expiry;
    weight_action = weight_action;
    weight_action_target = weight_action_target;
    reserved = reserved;
  })

Each-number :
    (w : ℕ) (o : Option ℕ) (rest : Bytes)
    → Each (λ n. n < 256 ^ w) o
    → Each (λ n. number w (to_le_bytes w n ++ rest) ≡ some (n, rest)) o
Each-number w none rest h = tt
Each-number w (some n) rest h = number-append w n rest h

Each-byte : (o : Option ℕ) → Each IsAction o → Each (λ n. n < 256 ^ 1) o
Each-byte none h = tt
Each-byte (some n) h = omega arith

Each-key :
    (o : Option Pubkey) (rest : Bytes)
    → Each IsKey o
    → Each (λ k. key (key_bytes k ++ rest) ≡ some (k, rest)) o
Each-key none rest h = tt
Each-key (some k) rest h = key-append k rest h

Each-length : (w : ℕ) (o : Option ℕ) → Each (λ n. length (to_le_bytes w n) ≡ w) o
Each-length w none = tt
Each-length w (some n) = length-to_le_bytes w n

Each-key_length : (o : Option Pubkey) → Each IsKey o → Each (λ k. length (key_bytes k) ≡ 32) o
Each-key_length none h = tt
Each-key_length (some k) h = h

deserialize-write :
    (v : VoterWeightRecord) (rest : Bytes) → VoterInRange v → deserialize (write v rest) ≡ some v
unfolding deserialize write
deserialize-write v rest h = rw (
  raw-append 8 v.account_discriminator _ h.account_discriminator,
  key-append v.realm _ h.realm,
  key-append v.governing_token_mint _ h.governing_token_mint,
  key-append v.governing_token_owner _ h.governing_token_owner,
  number-append 8 v.voter_weight _ h.voter_weight,
  option-append (number 8) (to_le_bytes 8) v.voter_weight_expiry _
      (Each-number 8 v.voter_weight_expiry _ h.voter_weight_expiry),
  option-append (number 1) (to_le_bytes 1) v.weight_action _
      (Each-number 1 v.weight_action _ (Each-byte v.weight_action h.weight_action)),
  option-append key key_bytes v.weight_action_target _
      (Each-key v.weight_action_target _ h.weight_action_target),
  raw-append 8 v.reserved rest h.reserved,
)

write-append : (v : VoterWeightRecord) (rest : Bytes) → write v [] ++ rest ≡ write v rest
unfolding write
write-append v rest = simp append_assoc

unfoldable pub serialize : VoterWeightRecord → Bytes
unfolding write
serialize v = write v []

pub round_trip :
    (v : VoterWeightRecord) (rest : Bytes)
    → VoterInRange v
    → deserialize (serialize v ++ rest) ≡ some v
unfolding serialize
round_trip v rest h = ap deserialize (write-append v rest) ∙ deserialize-write v rest h

pub size : (v : VoterWeightRecord) → VoterInRange v → length (serialize v) ≡ voter_size v
unfolding serialize write
size v h = omega (
  arith,
  length-append {0},
  length-to_le_bytes,
  length-write_option 8 (to_le_bytes 8) v.voter_weight_expiry (Each-length 8 v.voter_weight_expiry),
  length-write_option 1 (to_le_bytes 1) v.weight_action (Each-length 1 v.weight_action),
  length-write_option 32 key_bytes v.weight_action_target
      (Each-key_length v.weight_action_target h.weight_action_target),
  h.account_discriminator,
  h.realm,
  h.governing_token_mint,
  h.governing_token_owner,
  h.reserved,
)

pub tagged :
    (v : VoterWeightRecord) → VoterInRange v → take 8 (serialize v) ≡ v.account_discriminator
unfolding serialize write
tagged v h = take-append_of_length 8 v.account_discriminator _ h.account_discriminator

pub of_zeros : deserialize (replicate voter_weight_record_space 0) ≡ some zero_voter_weight_record
unfolding deserialize key number raw option from_le_bytes
of_zeros = refl
