-- ===== src/Anchor/Writes.antt =====
-- What an instruction's last write leaves: the serialised value at the front of one account's data,
-- and every other account as it was.
use iam_governance_plugin.Base.{
  sym, length-append, length-drop, ◌∙◌, ◌≤◌, ◌≡◌, ◌≢◌, ap, ◌++◌, length, drop, arith,
}
use iam_governance_plugin.Base.Bytes.{Bytes}
use iam_governance_plugin.Errors.{Error, ok, ok_or, ok_or-eq-ok}
use iam_governance_plugin.Solana.{Pubkey, Account, Ledger, put, put_self, put_ne, AccountInfo}
use iam_governance_plugin.Buffer.{fill, fill_inversion, fill-eq-some}
use iam_governance_plugin.Anchor.{exit}
use iam_governance_plugin.Anchor.Laws.{exit_inversion}

-- The account with `out` written over the front of its data.
abbrev pub overwritten : Bytes → Account → Account
overwritten out a = record a { bytes = out ++ drop (length out) a.bytes }

pub record IsWritten (out : Bytes) (k : Pubkey) (l l' : Ledger) : Type 0 where
  pub fits : length out ≤ length (l k).bytes
  pub result : l' ≡ put k (overwritten out (l k)) l

module _ (out : Bytes) (e : Error) (info : AccountInfo) (l : Ledger) where
  pub exit-IsWritten :
      (l' : Ledger)
      → exit (λ bytes. ok_or (fill out bytes) e) info l ≡ ok l'
      → IsWritten out info.key l l'
  exit-IsWritten l' h =
      let (bytes, wrote, result) = exit_inversion _ info l l' h in
      let (fits, same) = fill_inversion out (l info.key).bytes (ok_or-eq-ok _ _ wrote) in
      record { fits = fits; result = rw (← same) result }

  pub IsWritten-exit :
      length out ≤ length (l info.key).bytes
      → exit (λ bytes. ok_or (fill out bytes) e) info l
        ≡ ok (put info.key (overwritten out (l info.key)) l)
  unfolding exit
  IsWritten-exit h = rw (fill-eq-some out (l info.key).bytes h)

ok_path : {l l' : Ledger} → l ≡ l' → ok l ≡ ok l'
ok_path e = cc e

-- A write that fits is what the instruction's end does.
pub IsWritten-exit_to :
    (out : Bytes) (e : Error) (info : AccountInfo) (l l' : Ledger)
    → IsWritten out info.key l l'
    → exit (λ bytes. ok_or (fill out bytes) e) info l ≡ ok l'
IsWritten-exit_to out e info l l' w = IsWritten-exit out e info l w.fits ∙ sym (ok_path w.result)

module _ {out : Bytes} {k : Pubkey} {l l' : Ledger} (w : IsWritten out k l l') where
  -- The data begins with what was written, and keeps its length.
  pub written_bytes : (l' k).bytes ≡ out ++ drop (length out) (l k).bytes
  written_bytes = rw (w.result, put_self k (overwritten out (l k)) l)

  pub written_owner : (l' k).owner ≡ (l k).owner
  written_owner = rw (w.result, put_self k (overwritten out (l k)) l)

  pub written_others : (j : Pubkey) → k ≢ j → l' j ≡ l j
  written_others j h = rw w.result (put_ne k j _ l h)

  pub written_length : length (l' k).bytes ≡ length (l k).bytes
  written_length =
      ap length written_bytes
      ∙ length-append out (drop (length out) (l k).bytes)
      ∙ omega (arith, length-drop (length out) (l k).bytes, w.fits)

  -- Nothing but the account itself changes.
  pub written_only : l' ≡ put k (l' k) l
  written_only = w.result ∙ ap (λ a. put k a l) (sym (ap (λ f. f k) w.result ∙ put_self k _ l))
