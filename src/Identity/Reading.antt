-- ===== src/Identity/Reading.antt =====
-- When the identity account is accepted, and what is read from it.
use iam_governance_plugin.Base.{◌≤◌, ◌≡◌, ◌↔◌, some, List, [], ◌∷◌, length, take, leb→le, le→leb}
use iam_governance_plugin.Base.Bytes.{
  Bytes, bytes_eq→eq, bytes_eq_refl, slice, from_le_bytes, as_i64,
}
use iam_governance_plugin.Errors.{ok, require-eq-ok, ok_or-eq-ok, >>=-eq-ok}
use iam_governance_plugin.Solana.{Pubkey, key_eq→eq, key_eq_iff, Ledger, AccountInfo}
use iam_governance_plugin.Framework.{Framework}
use iam_governance_plugin.Identity.{
  entros_anchor_program_id, identity_discriminator, identity_pda, IdentityFields, first,
  parse_identity, read_identity,
}

-- The data holds these fields behind the discriminator of an identity account.
pub record Holds (bytes : Bytes) (i : IdentityFields) : Type 0 where
  pub long : 62 ≤ length bytes
  pub tagged : take 8 bytes ≡ identity_discriminator
  pub timestamp : i.last_verification_timestamp ≡ as_i64 (from_le_bytes (slice 48 8 bytes))
  pub score : i.trust_score ≡ from_le_bytes (slice 60 2 bytes)

pub parse_identity-Holds :
    (bytes : Bytes) (i : IdentityFields) → parse_identity bytes ≡ ok i → Holds bytes i
unfolding parse_identity
parse_identity-Holds bytes i h =
    let (long, h₁) = require-eq-ok _ _ _ h in
    let (tagged, h₂) = require-eq-ok _ _ _ h₁ in
    record { long = leb→le _ _ long; tagged = bytes_eq→eq _ _ tagged; timestamp = cc; score = cc }

pub Holds-parse_identity :
    (bytes : Bytes) (i : IdentityFields) → Holds bytes i → parse_identity bytes ≡ ok i
unfolding parse_identity
Holds-parse_identity bytes i h =
    rw (le→leb _ _ h.long, h.tagged, bytes_eq_refl identity_discriminator) (cc)

-- The account that the reading accepts for a voter, and the fields in it.
pub record IsIdentity (fw : Framework) (voter : Pubkey) (infos : List AccountInfo) (l : Ledger)
    (i : IdentityFields) : Type 0 where
  pub info : AccountInfo
  pub listed : first infos ≡ some info
  pub owned : (l info.key).owner ≡ entros_anchor_program_id
  pub address : info.key ≡ identity_pda fw voter
  pub content : Holds (l info.key).bytes i

pub read_identity-IsIdentity :
    (fw : Framework) (voter : Pubkey) (infos : List AccountInfo) (l : Ledger) (i : IdentityFields)
    → read_identity fw voter infos l ≡ ok i
    → IsIdentity fw voter infos l i
unfolding read_identity
read_identity-IsIdentity fw voter infos l i h =
    let (info, listed, h₁) = >>=-eq-ok _ _ h in
    let (owned, h₂) = require-eq-ok _ _ _ h₁ in
    let (address, h₃) = require-eq-ok _ _ _ h₂ in
    record {
      info = info;
      listed = ok_or-eq-ok _ _ listed;
      owned = key_eq→eq _ _ owned;
      address = key_eq→eq _ _ address;
      content = parse_identity-Holds _ i h₃;
    }

IsIdentity-read_identity :
    (fw : Framework) (voter : Pubkey) (infos : List AccountInfo) (l : Ledger) (i : IdentityFields)
    → IsIdentity fw voter infos l i
    → read_identity fw voter infos l ≡ ok i
unfolding read_identity
IsIdentity-read_identity fw voter [] l i h = absurd (cc h.listed)
IsIdentity-read_identity fw voter (info ∷ infos) l i h =
    let same : info ≡ h.info = cc h.listed in
    rw (same, (key_eq_iff _ _).1 h.owned, (key_eq_iff _ _).1 h.address)
      (Holds-parse_identity _ i h.content)

-- The reading gives these fields exactly if the first remaining account is owned by the Entros
-- program, stands at the voter's identity address, and holds them behind the discriminator.
pub read_identity_iff :
    (fw : Framework) (voter : Pubkey) (infos : List AccountInfo) (l : Ledger) (i : IdentityFields)
    → (read_identity fw voter infos l ≡ ok i) ↔ IsIdentity fw voter infos l i
read_identity_iff fw voter infos l i =
    (read_identity-IsIdentity fw voter infos l i, IsIdentity-read_identity fw voter infos l i)
