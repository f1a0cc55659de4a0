-- ===== src/Tests/Sample.antt =====
-- A realm, its authority, and an eligible voter, before the program has run.
use iam_governance_plugin.Base.{ℕ, Bool, true, false, [], replicate}
use iam_governance_plugin.Base.Int.{pos}
use iam_governance_plugin.Base.Bytes.{Bytes}
use iam_governance_plugin.Solana.{Pubkey, key_eq, Account, Ledger, put, AccountInfo}
use iam_governance_plugin.Seeds.{derived, registrar_seeds, voter_weight_record_seeds}
use iam_governance_plugin.Identity.{entros_anchor_program_id, identity_seeds, identity_pda}
use iam_governance_plugin.Identity.Layout.{Layout, encode}
use iam_governance_plugin.Tests.World.{fw, blank_account}

abbrev pub key : ℕ → Pubkey
key n = record { bytes = replicate 32 n }

abbrev pub governance : Pubkey
governance = key 10

abbrev pub realm : Pubkey
realm = key 11

abbrev pub authority : Pubkey
authority = key 12

abbrev pub mint : Pubkey
mint = key 13

abbrev pub payer : Pubkey
payer = key 14

abbrev pub voter : Pubkey
voter = key 20

abbrev pub info : Pubkey → AccountInfo
info k = record { key = k; is_signer = false; is_writable = false }

abbrev pub signing : Pubkey → AccountInfo
signing k = record { key = k; is_signer = true; is_writable = true }

abbrev pub writing : Pubkey → AccountInfo
writing k = record { key = k; is_signer = false; is_writable = true }

-- The voter verified at time 1000, with a trust score of 70.
abbrev pub layout : Layout
layout = record {
  before = replicate 40 7;
  last_verification_timestamp = pos 1000;
  between = replicate 4 0;
  trust_score = 70;
  after = [];
}

abbrev owned_account : Pubkey → Bool → Bytes → Account
owned_account owner executable bytes = record {
  lamports = 1;
  owner = owner;
  executable = executable;
  bytes = bytes;
}

-- Before the program has run.
unfoldable pub genesis : Ledger
unfolding put key_eq identity_seeds
genesis = put governance (owned_account (key 1) true []) (
    put realm (owned_account governance false authority.bytes) (
      put (identity_pda fw voter) (owned_account entros_anchor_program_id false (encode layout))
        (λ k. blank_account)))

unfoldable pub registrar_key : Pubkey
registrar_key = derived fw (registrar_seeds realm mint)

unfoldable pub record_key : Pubkey
record_key = derived fw (voter_weight_record_seeds realm mint voter)
