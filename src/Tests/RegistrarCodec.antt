-- ===== src/Tests/RegistrarCodec.antt =====
-- A codec for the registrar, with its discriminator in front, and its laws.
use iam_governance_plugin.Base.{
  ◌≡◌, refl, ap, ◌∙◌, Option, none, some, [], ◌∷◌, ◌++◌, length, take, append_assoc, length-append,
  arith, if◌then◌else◌, replicate, Bool-cases, inl, inr,
}
use iam_governance_plugin.Base.Bytes.{
  Bytes, bytes_eq, bytes_eq→eq, to_le_bytes, length-to_le_bytes, from_le_bytes, i64_bits,
  i64_bits-lt, as_i64, as_i64-i64_bits,
}
use iam_governance_plugin.State.{Registrar, RegistrarInRange, registrar_len}
use iam_governance_plugin.Framework.Laws.{zero_registrar}
use iam_governance_plugin.Tests.Borsh.{
  ◌>>=◌, raw, raw-append, number, number-append, key, key-append,
}

-- sha256("account:Registrar")[0..8]
abbrev pub tag : Bytes
tag = 193 ∷ 202 ∷ 205 ∷ 51 ∷ 78 ∷ 168 ∷ 150 ∷ 128 ∷ []

-- The fields, in front of `rest`.
write : Registrar → Bytes → Bytes
write r rest =
    r.governance_program_id.bytes
    ++ (r.realm.bytes
        ++ (r.governing_token_mint.bytes
            ++ (to_le_bytes 2 r.min_trust_score
                ++ (to_le_bytes 8 (i64_bits r.max_verification_age) ++ (r.reserved ++ rest)))))

read : Bytes → Option Registrar
read b = do
  (governance_program_id, b₁) ← key b
  (realm, b₂) ← key b₁
  (governing_token_mint, b₃) ← key b₂
  (min_trust_score, b₄) ← number 2 b₃
  (age, b₅) ← number 8 b₄
  (reserved, b₆) ← raw 64 b₅
  some (record {
    governance_program_id = governance_program_id;
    realm = realm;
    governing_token_mint = governing_token_mint;
    min_trust_score = min_trust_score;
    max_verification_age = as_i64 age;
    reserved = reserved;
  })

read-write : (r : Registrar) (rest : Bytes) → RegistrarInRange r → read (write r rest) ≡ some r
unfolding read write
read-write r rest h = rw (
  key-append r.governance_program_id _ h.governance_program_id,
  key-append r.realm _ h.realm,
  key-append r.governing_token_mint _ h.governing_token_mint,
  number-append 2 r.min_trust_score _ h.min_trust_score,
  number-append 8 (i64_bits r.max_verification_age) _ (i64_bits-lt _ h.max_verification_age),
  raw-append 64 r.reserved rest h.reserved,
  as_i64-i64_bits _ h.max_verification_age,
)

write-append : (r : Registrar) (rest : Bytes) → write r [] ++ rest ≡ write r rest
unfolding write
write-append r rest = simp append_assoc

unfoldable pub unchecked : Bytes → Option Registrar
unfolding read
unchecked b = do (_, rest) ← raw 8 b; read rest

unfoldable pub deserialize : Bytes → Option Registrar
deserialize b = if bytes_eq (take 8 b) tag then unchecked b else none

unfoldable pub serialize : Registrar → Bytes
unfolding write
serialize r = tag ++ write r []

unchecked-tag : (b : Bytes) → unchecked (tag ++ b) ≡ read b
unfolding unchecked
unchecked-tag b = rw (raw-append 8 tag b refl)

pub round_trip :
    (r : Registrar) (rest : Bytes) → RegistrarInRange r → deserialize (serialize r ++ rest) ≡ some r
unfolding deserialize serialize bytes_eq
round_trip r rest h =
    unchecked-tag (write r [] ++ rest) ∙ ap read (write-append r rest) ∙ read-write r rest h

pub size : (r : Registrar) → RegistrarInRange r → length (serialize r) ≡ registrar_len
unfolding serialize write
size r h = omega (
  arith,
  length-append {0},
  length-to_le_bytes,
  h.governance_program_id,
  h.realm,
  h.governing_token_mint,
  h.reserved,
)

pub checked : (b : Bytes) (r : Registrar) → deserialize b ≡ some r → take 8 b ≡ tag
unfolding deserialize
checked b r h = elim (Bool-cases (bytes_eq (take 8 b) tag)) [
  | inl same ↦ bytes_eq→eq _ _ same
  | inr other ↦ ground arith
]

pub of_zeros : unchecked (replicate registrar_len 0) ≡ some zero_registrar
unfolding unchecked key number raw from_le_bytes as_i64
of_zeros = refl
