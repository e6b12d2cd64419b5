-- ===== src/Imap/SeqSet.antt =====
-- getIDsFromSeqSet of internal/imapserver/mailbox.go. Sequence numbers and UIDs are uint32 in a
-- seqset; message IDs are below 2 ^ 31, so that the conversion to int32 keeps them.
use yggmail_android.Base.{
  ℕ, zero, suc, ◌+◌, ◌-◌, ◌%◌, ◌^◌, Bool, List, [], ◌∷◌, ◌++◌, Text, leb, ◌==◌, if◌then◌else◌,
}
use yggmail_android.World.{out_of_fuel, Action, pure, fail, ◌>>=◌}
use yggmail_android.Storage.Mails.{mail_next_id, mail_id_for_seq}

-- imap.Seq: a stop of 0 stands for "*".
pub record Seq : Type 0 where
  pub start : ℕ
  pub stop : ℕ

abbrev pub u32_mod : ℕ
u32_mod = 2 ^ 32

-- The ID of one number of the set.
unfoldable pub resolve : Bool → Text → ℕ → Action ℕ
unfolding mail_id_for_seq
resolve uid name i = if uid then pure i else mail_id_for_seq name i

-- for i := set.Start; i <= set.Stop; i++, where i wraps around; on fuel.
unfoldable pub ids_from : Bool → Text → ℕ → ℕ → ℕ → Action (List ℕ)
unfolding resolve
ids_from uid name zero i stop = fail out_of_fuel
ids_from uid name (suc fuel) i stop =
    let round = (do
      id ← resolve uid name i
      ids ← ids_from uid name fuel ((i + 1) % u32_mod) stop
      pure (id ∷ ids)) in
    if leb i stop then round else pure []

-- set.Stop == 0 is replaced by the last ID.
unfoldable pub stop_of : Text → ℕ → Action ℕ
unfolding mail_next_id
stop_of name stop =
    if stop == 0 then (mail_next_id name >>= λ next. pure ((next - 1) % u32_mod)) else pure stop

-- getIDsFromSeqSet, with fuel for each range.
unfoldable pub get_ids_from_seq_set : ℕ → Bool → Text → List Seq → Action (List ℕ)
unfolding stop_of ids_from
get_ids_from_seq_set fuel uid name [] = pure []
get_ids_from_seq_set fuel uid name (s ∷ set) = do
  stop ← stop_of name s.stop
  ids ← ids_from uid name fuel s.start stop
  rest ← get_ids_from_seq_set fuel uid name set
  pure (ids ++ rest)
