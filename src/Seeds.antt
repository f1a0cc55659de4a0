-- ===== src/Seeds.antt =====
-- The seeds of the program's derived addresses, as the `seeds` attributes of the accounts structs
-- write them, and the addresses that they derive.
pub mod Distinct
use iam_governance_plugin.Base.{ℕ, List, [], ◌∷◌}
use iam_governance_plugin.Base.Bytes.{Bytes}
use iam_governance_plugin.Solana.{Pubkey}
use iam_governance_plugin.State.{id}
use iam_governance_plugin.Framework.{Framework}

-- b"registrar"
abbrev pub registrar_prefix : Bytes
registrar_prefix = b'r' ∷ b'e' ∷ b'g' ∷ b'i' ∷ b's' ∷ b't' ∷ b'r' ∷ b'a' ∷ b'r' ∷ []

-- b"voter-weight-record"
abbrev pub voter_prefix : Bytes
voter_prefix =
    b'v' ∷ b'o' ∷ b't' ∷ b'e' ∷ b'r' ∷ b'-' ∷ b'w' ∷ b'e' ∷ b'i' ∷ b'g' ∷ b'h' ∷ b't' ∷ b'-' ∷ b'r'
    ∷ b'e' ∷ b'c' ∷ b'o' ∷ b'r' ∷ b'd' ∷ []

-- b"max-voter-weight-record"
abbrev pub max_prefix : Bytes
max_prefix = b'm' ∷ b'a' ∷ b'x' ∷ b'-' ∷ voter_prefix

unfoldable pub registrar_seeds : Pubkey → Pubkey → List Bytes
registrar_seeds realm mint = registrar_prefix ∷ realm.bytes ∷ mint.bytes ∷ []

unfoldable pub voter_weight_record_seeds : Pubkey → Pubkey → Pubkey → List Bytes
voter_weight_record_seeds realm mint token_owner =
    voter_prefix ∷ realm.bytes ∷ mint.bytes ∷ token_owner.bytes ∷ []

unfoldable pub max_voter_weight_record_seeds : Pubkey → Pubkey → List Bytes
max_voter_weight_record_seeds realm mint = max_prefix ∷ realm.bytes ∷ mint.bytes ∷ []

-- The address of this program that seeds derive.
abbrev pub derived : Framework → List Bytes → Pubkey
derived fw seeds = (fw.find_program_address seeds id).0
