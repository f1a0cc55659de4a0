-- ===== src/Identity/Layout.antt =====
-- The layout of an identity account, written down field by field and not by offsets, and the
-- reading of the two fields from it.
use iam_governance_plugin.Base.{
  ℕ, ◌≤◌, ◌≡◌, refl, sym, ap, ◌++◌, length, length-append, append_assoc, arith,
}
use iam_governance_plugin.Base.Int.{ℤ, IsI64}
use iam_governance_plugin.Base.Bytes.{
  Bytes, slice, slice-append, to_le_bytes, length-to_le_bytes, from_le_bytes-to_le_bytes, i64_bits,
  i64_bits-lt, as_i64-i64_bits,
}
use iam_governance_plugin.Errors.{ok}
use iam_governance_plugin.State.{IsU16}
use iam_governance_plugin.Identity.{identity_discriminator, parse_identity}
use iam_governance_plugin.Identity.Reading.{Holds, Holds-parse_identity}

-- The fields of an identity account in their order; `before` and `between` are the fields that the
-- program skips, `after` is the rest of the account.
pub record Layout : Type 0 where
  pub before : Bytes
  pub last_verification_timestamp : ℤ
  pub between : Bytes
  pub trust_score : ℕ
  pub after : Bytes

-- 40 bytes of owner and creation time, and 4 of a count.
pub record LayoutInRange (a : Layout) : Type 0 where
  pub before : length a.before ≡ 40
  pub last_verification_timestamp : IsI64 a.last_verification_timestamp
  pub between : length a.between ≡ 4
  pub trust_score : IsU16 a.trust_score

abbrev pub encode : Layout → Bytes
encode a =
    identity_discriminator
    ++ (a.before
        ++ (to_le_bytes 8 (i64_bits a.last_verification_timestamp)
            ++ (a.between ++ (to_le_bytes 2 a.trust_score ++ a.after))))

slice_at :
    (at len : ℕ) (before part after : Bytes)
    → length before ≡ at
    → length part ≡ len
    → slice at len (before ++ (part ++ after)) ≡ part
slice_at at len before part after p q =
    rw (← p, ← q, ← append_assoc before part after) (slice-append before part after)

abbrev ts_bytes : Layout → Bytes
ts_bytes a = to_le_bytes 8 (i64_bits a.last_verification_timestamp)

abbrev score_bytes : Layout → Bytes
score_bytes a = to_le_bytes 2 a.trust_score

module _ (a : Layout) (h : LayoutInRange a) where
  slice_timestamp : slice 48 8 (encode a) ≡ ts_bytes a
  slice_timestamp =
      slice_at 48 8 (identity_discriminator ++ a.before) (ts_bytes a) _
        (rw (length-append identity_discriminator a.before, h.before)) (length-to_le_bytes 8 _)

  up_to_score : Bytes
  up_to_score = identity_discriminator ++ (a.before ++ (ts_bytes a ++ a.between))

  length-up_to_score : length up_to_score ≡ 60
  unfolding up_to_score
  length-up_to_score = omega (
    arith,
    length-append a.before (ts_bytes a ++ a.between),
    length-append (ts_bytes a) a.between,
    length-to_le_bytes 8 (i64_bits a.last_verification_timestamp),
    h.before,
    h.between,
  )

  encode_split : encode a ≡ up_to_score ++ (score_bytes a ++ a.after)
  unfolding up_to_score
  encode_split = simp append_assoc

  slice_score : slice 60 2 (encode a) ≡ score_bytes a
  slice_score = rw encode_split (
      slice_at 60 2 up_to_score (score_bytes a) a.after length-up_to_score (length-to_le_bytes 2 _))

  length-encode_le : 62 ≤ length (encode a)
  length-encode_le = omega (
    arith,
    ap length encode_split,
    length-append up_to_score (score_bytes a ++ a.after),
    length-append (score_bytes a) a.after,
    length-up_to_score,
    length-to_le_bytes 2 a.trust_score,
  )

  encode-Holds : Holds (encode a) (record {
    last_verification_timestamp = a.last_verification_timestamp;
    trust_score = a.trust_score;
  })
  encode-Holds = record {
    long = length-encode_le;
    tagged = refl;
    timestamp =
        rw
          (
            slice_timestamp,
            from_le_bytes-to_le_bytes 8 _ (i64_bits-lt _ h.last_verification_timestamp),
          )
          (sym (as_i64-i64_bits _ h.last_verification_timestamp));
    score = rw (slice_score, from_le_bytes-to_le_bytes 2 _ h.trust_score);
  }

  -- Of an identity account laid out field by field, within the fields' ranges, the timestamp and
  -- the score are read back, whatever the other fields and the rest of the account hold.
  pub parse_identity-encode :
      parse_identity (encode a)
      ≡ ok (record {
        last_verification_timestamp = a.last_verification_timestamp;
        trust_score = a.trust_score;
      })
  parse_identity-encode = Holds-parse_identity (encode a) _ encode-Holds
