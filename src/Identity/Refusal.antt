-- ===== src/Identity/Refusal.antt =====
-- When the identity account is refused, and with which error.
use iam_governance_plugin.Base.{
  ◌≡◌, ◌≢◌, ◌<◌, ◌⊎◌, inl, inr, refl, ◌↔◌, Bool-cases, true, false, some, none, List, [], ◌∷◌,
  length, take, leb, arith,
}
use iam_governance_plugin.Base.Bytes.{Bytes, bytes_eq, bytes_eq→eq, bytes_eq_refl}
use iam_governance_plugin.Errors.{
  Error, err, require-eq-err, entros, missing_identity_account, invalid_identity_owner,
  invalid_identity_pda, invalid_identity_data,
}
use iam_governance_plugin.Solana.{
  Pubkey, key_eq, key_eq→eq, key_eq_iff, key_eq_ne, Ledger, AccountInfo,
}
use iam_governance_plugin.Framework.{Framework}
use iam_governance_plugin.Identity.{
  entros_anchor_program_id, identity_discriminator, identity_pda, first, parse_identity,
  read_identity,
}

-- Too short to hold the fields, or of another account type.
abbrev pub IsMalformed : Bytes → Type 0
IsMalformed bytes = (length bytes < 62) ⊎ (take 8 bytes ≢ identity_discriminator)

-- The reasons for a refusal in the order of the checks, each with the error that it gives.
pub data IsRefused (fw : Framework) (voter : Pubkey) (infos : List AccountInfo) (l : Ledger)
    (e : Error) : Type 0 where
  missing : first infos ≡ none → e ≡ entros missing_identity_account → IsRefused fw voter infos l e
  foreign :
      (info : AccountInfo)
      → first infos ≡ some info
      → (l info.key).owner ≢ entros_anchor_program_id
      → e ≡ entros invalid_identity_owner
      → IsRefused fw voter infos l e
  misplaced :
      (info : AccountInfo)
      → first infos ≡ some info
      → (l info.key).owner ≡ entros_anchor_program_id
      → info.key ≢ identity_pda fw voter
      → e ≡ entros invalid_identity_pda
      → IsRefused fw voter infos l e
  malformed :
      (info : AccountInfo)
      → first infos ≡ some info
      → (l info.key).owner ≡ entros_anchor_program_id
      → info.key ≡ identity_pda fw voter
      → IsMalformed (l info.key).bytes
      → e ≡ entros invalid_identity_data
      → IsRefused fw voter infos l e

key_eq-false : (a b : Pubkey) → key_eq a b ≡ false → a ≢ b
key_eq-false a b h same = let other : key_eq a b ≡ true = (key_eq_iff a b).1 same in cc (h, other)

bytes_eq-false : (a b : Bytes) → bytes_eq a b ≡ false → a ≢ b
bytes_eq-false a b h same =
    let other : bytes_eq a b ≡ true = rw same (bytes_eq_refl b) in cc (h, other)

parse_identity-IsMalformed :
    (bytes : Bytes) (e : Error)
    → parse_identity bytes ≡ err e
    → IsMalformed bytes × (e ≡ entros invalid_identity_data)
unfolding parse_identity
parse_identity-IsMalformed bytes e h =
    elim (require-eq-err (leb 62 (length bytes)) (entros invalid_identity_data) _ h) [
      | inl (short, same) ↦ (inl (ground arith), same)
      | inr (_, h₁) ↦
          elim (require-eq-err (bytes_eq (take 8 bytes) identity_discriminator)
            (entros invalid_identity_data) _ h₁) [
              | inl (other, same) ↦ (inr (bytes_eq-false _ _ other), same)
              | inr (_, done) ↦ cc
            ]
    ]

bytes_eq_ne : (a b : Bytes) → a ≢ b → bytes_eq a b ≡ false
bytes_eq_ne a b h = elim (Bool-cases (bytes_eq a b)) [
  | inl same ↦ absurd (h (bytes_eq→eq a b same))
  | inr other ↦ other
]

IsMalformed-parse_identity :
    (bytes : Bytes) → IsMalformed bytes → parse_identity bytes ≡ err (entros invalid_identity_data)
unfolding parse_identity
IsMalformed-parse_identity bytes (inl short) =
    let e : leb 62 (length bytes) ≡ false = ground arith in rw e
IsMalformed-parse_identity bytes (inr other) = elim (Bool-cases (leb 62 (length bytes))) [
  | inl long ↦ rw (long, bytes_eq_ne _ _ other)
  | inr short ↦ rw short
]

read_identity-IsRefused :
    (fw : Framework) (voter : Pubkey) (infos : List AccountInfo) (l : Ledger) (e : Error)
    → read_identity fw voter infos l ≡ err e
    → IsRefused fw voter infos l e
unfolding read_identity
read_identity-IsRefused fw voter [] l e h = missing refl (cc h)
read_identity-IsRefused fw voter (info ∷ infos) l e h =
    elim (require-eq-err (key_eq (l info.key).owner entros_anchor_program_id)
      (entros invalid_identity_owner) _ h) [
        | inl (other, same) ↦ foreign info refl (key_eq-false _ _ other) same
        | inr (owned, h₁) ↦
            elim (require-eq-err (key_eq info.key (identity_pda fw voter))
              (entros invalid_identity_pda) _ h₁) [
                | inl (other, same) ↦
                    misplaced info refl (key_eq→eq _ _ owned) (key_eq-false _ _ other) same
                | inr (address, h₂) ↦
                    let (bad, same) = parse_identity-IsMalformed _ e h₂ in
                    malformed info refl (key_eq→eq _ _ owned) (key_eq→eq _ _ address) bad same
              ]
      ]

IsRefused-read_identity :
    (fw : Framework) (voter : Pubkey) (infos : List AccountInfo) (l : Ledger) (e : Error)
    → IsRefused fw voter infos l e
    → read_identity fw voter infos l ≡ err e
unfolding read_identity
IsRefused-read_identity fw voter infos l e (missing none_listed same) = rw (none_listed, same)
IsRefused-read_identity fw voter infos l e (foreign info listed other same) =
    rw (listed, key_eq_ne _ _ other, same)
IsRefused-read_identity fw voter infos l e (misplaced info listed owned other same) =
    rw (listed, (key_eq_iff _ _).1 owned, key_eq_ne _ _ other, same)
IsRefused-read_identity fw voter infos l e (malformed info listed owned address bad same) =
    rw (listed, (key_eq_iff _ _).1 owned, (key_eq_iff _ _).1 address, same)
      (IsMalformed-parse_identity _ bad)

-- The reading fails with an error exactly if that is the error of the first check that fails: no
-- remaining account, another owner than the Entros program, another address than the voter's
-- identity address, data too short or with another discriminator.
pub read_identity-IsRefused_iff :
    (fw : Framework) (voter : Pubkey) (infos : List AccountInfo) (l : Ledger) (e : Error)
    → (read_identity fw voter infos l ≡ err e) ↔ IsRefused fw voter infos l e
read_identity-IsRefused_iff fw voter infos l e =
    (read_identity-IsRefused fw voter infos l e, IsRefused-read_identity fw voter infos l e)
