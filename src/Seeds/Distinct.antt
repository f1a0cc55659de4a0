-- ===== src/Seeds/Distinct.antt =====
-- Whether derived addresses of different records differ. The derivation hashes the seeds joined, so
-- two seed lists with the same joined bytes would collide.
use iam_governance_plugin.Base.{
  ◌≡◌, ◌≢◌, refl, ap, List, [], ◌∷◌, ◌++◌, length, length-append, arith,
}
use iam_governance_plugin.Base.Bytes.{Bytes}
use iam_governance_plugin.Solana.{Pubkey, IsKey}
use iam_governance_plugin.Framework.{Framework}
use iam_governance_plugin.Seeds.{
  derived, registrar_prefix, voter_prefix, registrar_seeds, voter_weight_record_seeds,
  max_voter_weight_record_seeds,
}

abbrev pub joined : List Bytes → Bytes
joined [] = []
joined (s ∷ ss) = s ++ joined ss

-- The seed lists that the program derives addresses from.
pub data IsSeeds : List Bytes → Type 0 where
  of_registrar : (realm mint : Pubkey) → IsSeeds (registrar_seeds realm mint)
  of_voter : (realm mint voter : Pubkey) → IsSeeds (voter_weight_record_seeds realm mint voter)
  of_max : (realm mint : Pubkey) → IsSeeds (max_voter_weight_record_seeds realm mint)

-- The hash has no collisions among the joined seeds of this program. Addresses have 32 bytes, so some
-- exist, but nobody is able to find one.
pub record IsCollisionFree (fw : Framework) : Type 0 where
  pub apart :
      (s t : List Bytes) → IsSeeds s → IsSeeds t → derived fw s ≡ derived fw t → joined s ≡ joined t

-- A split at a known length is unique.
append_injective : (a b c d : Bytes) → length a ≡ length b → a ++ c ≡ b ++ d → (a ≡ b) × (c ≡ d)
append_injective [] [] c d h e = (refl, e)
append_injective [] (y ∷ b) c d h e = absurd (omega arith)
append_injective (x ∷ a) [] c d h e = absurd (omega arith)
append_injective (x ∷ a) (y ∷ b) c d h e =
    let heads : x ≡ y = cc e in
    let rest : a ++ c ≡ b ++ d = cc e in
    let (p, q) = append_injective a b c d (omega arith) rest in (cc (heads, p), q)

key_path : {a b : Pubkey} → a.bytes ≡ b.bytes → a ≡ b
key_path e = λ i. record { bytes = e i }

module _ (fw : Framework) (free : IsCollisionFree fw) where
  -- Without collisions, registrar addresses of different realms or mints differ.
  pub registrar_address_injective :
      (realm mint realm' mint' : Pubkey)
      → IsKey realm
      → IsKey realm'
      → IsKey mint
      → IsKey mint'
      → derived fw (registrar_seeds realm mint) ≡ derived fw (registrar_seeds realm' mint')
      → (realm ≡ realm') × (mint ≡ mint')
  unfolding registrar_seeds
  registrar_address_injective realm mint realm' mint' hr hr' hm hm' e =
      let (_, e₁) =
        append_injective registrar_prefix registrar_prefix _ _ refl
          (free.apart _ _ (of_registrar realm mint) (of_registrar realm' mint') e) in
      let (r, e₂) = append_injective realm.bytes realm'.bytes _ _ (omega arith) e₁ in
      let (m, _) = append_injective mint.bytes mint'.bytes _ _ (omega arith) e₂ in
      (key_path r, key_path m)

  -- Without collisions, record addresses of different realms, mints or voters differ.
  pub voter_address_injective :
      (realm mint voter realm' mint' voter' : Pubkey)
      → IsKey realm
      → IsKey realm'
      → IsKey mint
      → IsKey mint'
      → IsKey voter
      → IsKey voter'
      → derived fw (voter_weight_record_seeds realm mint voter)
        ≡ derived fw (voter_weight_record_seeds realm' mint' voter')
      → (realm ≡ realm') × (mint ≡ mint') × (voter ≡ voter')
  unfolding voter_weight_record_seeds
  voter_address_injective realm mint voter realm' mint' voter' hr hr' hm hm' hv hv' e =
      let (_, e₁) =
        append_injective voter_prefix voter_prefix _ _ refl
          (free.apart _ _ (of_voter realm mint voter) (of_voter realm' mint' voter') e) in
      let (r, e₂) = append_injective realm.bytes realm'.bytes _ _ (omega arith) e₁ in
      let (m, e₃) = append_injective mint.bytes mint'.bytes _ _ (omega arith) e₂ in
      let (v, _) = append_injective voter.bytes voter'.bytes _ _ (omega arith) e₃ in
      (key_path r, key_path m, key_path v)

  -- Without collisions, a registrar, a voter weight record and a max record never share an
  -- address.
  pub kinds_apart :
      (r₁ m₁ r₂ m₂ v₂ r₃ m₃ : Pubkey)
      → IsKey r₁
      → IsKey m₁
      → IsKey r₂
      → IsKey m₂
      → IsKey v₂
      → IsKey r₃
      → IsKey m₃
      → (derived fw (registrar_seeds r₁ m₁) ≢ derived fw (voter_weight_record_seeds r₂ m₂ v₂))
        × (derived fw (registrar_seeds r₁ m₁) ≢ derived fw (max_voter_weight_record_seeds r₃ m₃))
        × (derived fw (voter_weight_record_seeds r₂ m₂ v₂)
            ≢ derived fw (max_voter_weight_record_seeds r₃ m₃))
  unfolding registrar_seeds voter_weight_record_seeds max_voter_weight_record_seeds
  kinds_apart r₁ m₁ r₂ m₂ v₂ r₃ m₃ a b c d e f g = (
    λ h. absurd (
        omega (
          arith,
          length-append {0},
          ap length (free.apart _ _ (of_registrar r₁ m₁) (of_voter r₂ m₂ v₂) h),
        )),
    λ h. absurd (
        omega (
          arith,
          length-append {0},
          ap length (free.apart _ _ (of_registrar r₁ m₁) (of_max r₃ m₃) h),
        )),
    λ h. absurd (
        omega (
          arith,
          length-append {0},
          ap length (free.apart _ _ (of_voter r₂ m₂ v₂) (of_max r₃ m₃) h),
        )),
  )
