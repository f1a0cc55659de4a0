-- ===== src/Tests/World.antt =====
-- A framework by concrete functions, with proofs of the laws: addresses derive from the joined seeds,
-- a realm account's data is its authority's address, and the codecs are those of the modules beside.
use iam_governance_plugin.Base.{
  subst, ℕ, ◌+◌, ◌≡◌, ◌≢◌, refl, ap, sym, ◌∙◌, Bool, true, false, some, List, [], ◌∷◌, ◌++◌, take,
  replicate, if◌then◌else◌, arith, Bool-cases, inl, inr, ◌&&◌,
}
use iam_governance_plugin.Base.Bytes.{Bytes, bytes_eq, bytes_eq→eq}
use iam_governance_plugin.Errors.{Error, Result, ok, err, external}
use iam_governance_plugin.Solana.{Pubkey, key_eq, key_eq→eq, Account, Ledger, put, put_self, put_ne}
use iam_governance_plugin.Framework.{Framework, RealmData}
use iam_governance_plugin.Framework.Laws.{AccountLaws, CodecLaws, zero_key}
use iam_governance_plugin.Tests.RegistrarCodec
use iam_governance_plugin.Tests.VoterCodec
use iam_governance_plugin.Tests.MaxCodec

abbrev pub joined : List Bytes → Bytes
joined [] = []
joined (s ∷ ss) = s ++ joined ss

-- An account that exists, with nothing in it.
abbrev pub blank_account : Account
blank_account = record { lamports = 0; owner = zero_key; executable = false; bytes = [] }

unfoldable pub create : Pubkey → Pubkey → ℕ → Pubkey → Ledger → Result Ledger
create payer new space owner l =
    if key_eq (l new).owner zero_key && bytes_eq (l new).bytes []
    then ok (
        put new
          (record { lamports = 1; owner = owner; executable = false; bytes = replicate space 0 }) l)
    else err (external 0)

unfoldable pub close_to : Pubkey → Pubkey → Ledger → Result Ledger
close_to account destination l = ok (
    put account blank_account (
      put destination
        (record (l destination) { lamports = (l destination).lamports + (l account).lamports }) l))

unfoldable pub realm_data : Pubkey → Pubkey → Account → Pubkey → Result RealmData
realm_data program realm account mint =
    if key_eq account.owner program
    then ok (record { authority = some (record { bytes = take 32 account.bytes }) })
    else err (external 1)

abbrev pub fw : Framework
fw = record {
  find_program_address = λ seeds program. (record { bytes = joined seeds }, 255);
  system_program = zero_key;
  create_account = create;
  close = close_to;
  get_realm_data_for_governing_token_mint = realm_data;
  registrar = record {
    serialize = RegistrarCodec.serialize;
    deserialize = RegistrarCodec.deserialize;
  };
  registrar_unchecked = RegistrarCodec.unchecked;
  voter_weight_record = record {
    serialize = VoterCodec.serialize;
    deserialize = VoterCodec.deserialize;
  };
  max_voter_weight_record = record {
    serialize = MaxCodec.serialize;
    deserialize = MaxCodec.deserialize;
  };
  registrar_discriminator = RegistrarCodec.tag;
  voter_weight_record_discriminator = VoterCodec.tag;
  max_voter_weight_record_discriminator = MaxCodec.tag;
}

pub codec_laws : CodecLaws fw
unfolding RegistrarCodec.serialize
codec_laws = record {
  registrar_round_trip = RegistrarCodec.round_trip;
  registrar_zero = RegistrarCodec.of_zeros;
  registrar_size = RegistrarCodec.size;
  registrar_tag = λ r. refl;
  voter_round_trip = VoterCodec.round_trip;
  voter_zero = VoterCodec.of_zeros;
  voter_size = VoterCodec.size;
  voter_tag = VoterCodec.tagged;
  max_round_trip = MaxCodec.round_trip;
  max_zero = MaxCodec.of_zeros;
  max_size = MaxCodec.size;
  max_tag = MaxCodec.tagged;
  registrar_checked = RegistrarCodec.checked;
  registrar_discriminator_size = refl;
  voter_discriminator_size = refl;
  max_discriminator_size = refl;
  registrar_ne_voter = λ e. ground arith;
  registrar_ne_max = λ e. ground arith;
  voter_ne_max = λ e. ground arith;
  registrar_ne_zero = λ e. ground arith;
  voter_ne_zero = λ e. ground arith;
  max_ne_zero = λ e. ground arith;
}

and-eq-true : (a b : Bool) → a && b ≡ true → (a ≡ true) × (b ≡ true)
and-eq-true true true h = (refl, refl)
and-eq-true true false h = cc
and-eq-true false b h = cc

put-other : (k j : Pubkey) (a : Account) (l : Ledger) → key_eq k j ≡ false → put k a l j ≡ l j
unfolding put
put-other k j a l h = rw h

if-eq-ok :
    (b : Bool) (x : Ledger) (e : Error) {y : Ledger}
    → (if b then ok x else err e) ≡ ok y
    → (b ≡ true) × (x ≡ y)
if-eq-ok true x e h = (refl, cc h)
if-eq-ok false x e h = cc

module _ (payer new : Pubkey) (space : ℕ) (owner : Pubkey) (l l' : Ledger)
    (h : create payer new space owner l ≡ ok l') where
  abbrev made : Account
  made = record { lamports = 1; owner = owner; executable = false; bytes = replicate space 0 }

  create_inversion : ((l new).owner ≡ zero_key) × ((l new).bytes ≡ []) × (put new made l ≡ l')
  unfolding create
  create_inversion =
      let (free, same) = if-eq-ok _ _ _ h in
      let (o, b) = and-eq-true _ _ free in (key_eq→eq _ _ o, bytes_eq→eq _ _ b, same)

  create_new : l' new ≡ made
  create_new = ap (λ f. f new) (sym create_inversion.2) ∙ put_self new made l

  create_others : (k : Pubkey) → new ≢ k → l' k ≡ l k
  create_others k ne = ap (λ f. f k) (sym create_inversion.2) ∙ put_ne new k made l ne

module _ (account destination : Pubkey) (l l' : Ledger)
    (h : close_to account destination l ≡ ok l') where
  abbrev richer : Account
  richer = record (l destination) { lamports = (l destination).lamports + (l account).lamports }

  close_inversion : put account blank_account (put destination richer l) ≡ l'
  unfolding close_to
  close_inversion = cc h

  close_self : l' account ≡ blank_account
  close_self = ap (λ f. f account) (sym close_inversion) ∙ put_self account blank_account _

  close_destination : account ≢ destination → l' destination ≡ richer
  close_destination ne =
      ap (λ f. f destination) (sym close_inversion)
      ∙ put_ne account destination blank_account _ ne
      ∙ put_self destination richer l

  richer_keeps :
      (k : Pubkey)
      → ((put destination richer l k).owner ≡ (l k).owner)
        × ((put destination richer l k).bytes ≡ (l k).bytes)
  richer_keeps k = elim (Bool-cases (key_eq destination k)) [
    | inl same ↦
        let e = key_eq→eq destination k same in
        subst
          (λ j.
            ((put destination richer l j).owner ≡ (l j).owner)
            × ((put destination richer l j).bytes ≡ (l j).bytes))
          e (rw (put_self destination richer l) (refl, refl))
    | inr other ↦ rw (put-other destination k richer l other) (refl, refl)
  ]

  close_others :
      (k : Pubkey) → account ≢ k → ((l' k).owner ≡ (l k).owner) × ((l' k).bytes ≡ (l k).bytes)
  close_others k ne =
      let e : l' k ≡ put destination richer l k =
        ap (λ f. f k) (sym close_inversion) ∙ put_ne account k blank_account _ ne in
      let (o, b) = richer_keeps k in (ap (λ a. a.owner) e ∙ o, ap (λ a. a.bytes) e ∙ b)

pub account_laws : AccountLaws fw
account_laws = record {
  system_program_ne_id = λ e. ground (arith, ap (λ k. k.bytes) e);
  create_account_fresh = λ payer new space owner l l' h.
      let (o, b, _) = create_inversion payer new space owner l l' h in (o, b);
  create_account_new = λ payer new space owner l l' h.
      let e = create_new payer new space owner l l' h in (ap (λ a. a.owner) e, ap (λ a. a.bytes) e);
  create_account_others = λ payer new space owner l l' k h ne.
      let e = create_others payer new space owner l l' h k ne in
      (ap (λ a. a.owner) e, ap (λ a. a.bytes) e);
  close_account = λ account destination l l' h ne.
      let e = close_self account destination l l' h in
      (
        ap (λ a. a.owner) e,
        ap (λ a. a.bytes) e,
        ap (λ a. a.lamports) e,
        ap (λ a. a.lamports) (close_destination account destination l l' h ne),
      );
  close_others = λ account destination l l' k h ne. close_others account destination l l' h k ne;
}
