-- ===== src/Identity.antt =====
-- The Entros IdentityState account as instructions/update_voter_weight_record.rs reads it: the
-- constants, the checks of owner, address, length and discriminator, and the two raw fields; then
-- the eligibility tests on them.
pub mod Reading
pub mod Refusal
pub mod Layout
pub mod Recency
use iam_governance_plugin.Base.{
  ℕ, ◌+◌, ◌^◌, ◌-◌, ◌≡◌, Bool, Option, none, some, List, [], ◌∷◌, length, take, ltb, leb, min,
}
use iam_governance_plugin.Base.Int.{ℤ, pos, ltb_ℤ, i64_max, checked_sub}
use iam_governance_plugin.Base.Bytes.{Bytes, bytes_eq, slice, from_le_bytes, as_i64}
use iam_governance_plugin.Errors.{
  Result, ◌>>=◌, ◌>>◌, ok, err, require, ok_or, entros, missing_identity_account,
  invalid_identity_owner, invalid_identity_pda, invalid_identity_data, insufficient_trust_score,
  verification_expired,
}
use iam_governance_plugin.Solana.{Pubkey, key_eq, Ledger, AccountInfo, Clock}
use iam_governance_plugin.Framework.{Framework}

abbrev pub entros_anchor_program_id : Pubkey
entros_anchor_program_id = record {
  bytes =
      0xe7 ∷ 0x36 ∷ 0x00 ∷ 0xda ∷ 0x70 ∷ 0x7e ∷ 0xbf ∷ 0x19 ∷ 0x90 ∷ 0x7d ∷ 0x32 ∷ 0xec ∷ 0x88
      ∷ 0x42 ∷ 0xa4 ∷ 0x5f ∷ 0xb4 ∷ 0xd5 ∷ 0x32 ∷ 0x63 ∷ 0xa1 ∷ 0x49 ∷ 0x68 ∷ 0x01 ∷ 0x6d ∷ 0xb4
      ∷ 0xe6 ∷ 0x29 ∷ 0x37 ∷ 0xe0 ∷ 0x93 ∷ 0xd1 ∷ [];
}

abbrev pub identity_last_verification_offset : ℕ
identity_last_verification_offset = 48

abbrev pub identity_trust_score_offset : ℕ
identity_trust_score_offset = 60

abbrev pub identity_min_data_len : ℕ
identity_min_data_len = 62

abbrev pub identity_discriminator : Bytes
identity_discriminator = 156 ∷ 32 ∷ 87 ∷ 93 ∷ 52 ∷ 155 ∷ 248 ∷ 207 ∷ []

-- The seeds `[b"identity", voter]`.
unfoldable pub identity_seeds : Pubkey → List Bytes
identity_seeds voter =
    (b'i' ∷ b'd' ∷ b'e' ∷ b'n' ∷ b't' ∷ b'i' ∷ b't' ∷ b'y' ∷ []) ∷ voter.bytes ∷ []

-- The address of a voter's identity account.
abbrev pub identity_pda : Framework → Pubkey → Pubkey
identity_pda fw voter = (fw.find_program_address (identity_seeds voter) entros_anchor_program_id).0

-- The two fields that are read.
pub record IdentityFields : Type 0 where
  pub last_verification_timestamp : ℤ
  pub trust_score : ℕ

-- Steps 4 to 6: the length, the discriminator, and the fields at their offsets. Behind the length
-- check a slice has the length that its conversion to an array wants.
unfoldable pub parse_identity : Bytes → Result IdentityFields
parse_identity bytes = do
  require (leb identity_min_data_len (length bytes)) (entros invalid_identity_data)
  require (bytes_eq (take 8 bytes) identity_discriminator) (entros invalid_identity_data)
  ok (record {
    last_verification_timestamp =
        as_i64 (from_le_bytes (slice identity_last_verification_offset 8 bytes));
    trust_score = from_le_bytes (slice identity_trust_score_offset 2 bytes);
  })

abbrev pub first : List AccountInfo → Option AccountInfo
first [] = none
first (info ∷ _) = some info

-- Steps 1 to 6. The borrow of the data fails only while another part of the instruction holds the
-- account's data, and none does.
unfoldable pub read_identity :
    Framework → Pubkey → List AccountInfo → Ledger → Result IdentityFields
unfolding parse_identity
read_identity fw voter remaining_accounts l = do
  identity_info ← ok_or (first remaining_accounts) (entros missing_identity_account)
  require (key_eq (l identity_info.key).owner entros_anchor_program_id)
      (entros invalid_identity_owner)
  require (key_eq identity_info.key (identity_pda fw voter)) (entros invalid_identity_pda)
  parse_identity (l identity_info.key).bytes

-- `checked_sub(..).unwrap_or(i64::MAX)`
unfoldable pub verification_age : ℤ → ℤ → ℤ
unfolding checked_sub
verification_age now last = elim (checked_sub now last) [ none ↦ i64_max | some age ↦ age ]

-- Steps 7 and 8, with the floor and the window of the registrar; the clock comes back.
unfoldable pub check_eligibility : IdentityFields → ℕ → ℤ → Result Clock → Result Clock
check_eligibility identity min_trust_score max_verification_age get_clock = do
  require (leb min_trust_score identity.trust_score) (entros insufficient_trust_score)
  clock ← get_clock
  require
      (ltb_ℤ (verification_age clock.unix_timestamp identity.last_verification_timestamp)
        max_verification_age)
      (entros verification_expired)
  ok clock

-- `u64::saturating_add`
unfoldable pub saturating_add : ℕ → ℕ → ℕ
saturating_add a b = min (a + b) (2 ^ 64 - 1)
