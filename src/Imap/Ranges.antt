-- ===== src/Imap/Ranges.antt =====
-- getIDsFromSeqSet of internal/imapserver/mailbox.go: the loop over a range of UIDs.
use yggmail_android.Base.{
  ℕ, zero, suc, ◌+◌, ◌-◌, ◌%◌, ◌<◌, ◌≡◌, refl, true, List, [], ◌∷◌, Text, arith,
}
use yggmail_android.World.{World, ok, err, out_of_fuel}
use yggmail_android.Imap.SeqSet.{u32_mod, resolve, ids_from}

-- count numbers from i on
unfoldable pub numbers : ℕ → ℕ → List ℕ
numbers i zero = []
numbers i (suc n) = i ∷ numbers (i + 1) n

-- A UID range whose end is below 2^32 - 1 gives all its numbers in order, on any fuel above their count.
pub ids_from_range :
    (name : Text) (n fuel i stop : ℕ) (w : World)
    → stop + 1 < u32_mod
    → i + n ≡ stop + 1
    → n < fuel
    → ids_from true name fuel i stop w ≡ (ok (numbers i n), w)
unfolding ids_from resolve numbers
ids_from_range name n zero i stop w hs hn hf = absurd (omega arith)
ids_from_range name zero (suc fuel) i stop w hs hn hf = ground arith
ids_from_range name (suc n) (suc fuel) i stop w hs hn hf =
    let ih = ids_from_range name n fuel (i + 1) stop w hs (omega arith) (omega arith) in
    let wrap : (i + 1) % u32_mod ≡ i + 1 = omega arith in ground (arith, wrap, ih)

-- A UID range that ends at 2^32 - 1 is never left: no fuel is enough.
pub ids_from_endless :
    (name : Text) (fuel i : ℕ) (w : World)
    → i < u32_mod
    → ids_from true name fuel i (u32_mod - 1) w ≡ (err out_of_fuel, w)
unfolding ids_from resolve
ids_from_endless name zero i w h = refl
ids_from_endless name (suc fuel) i w h =
    let next : ((i + 1) % u32_mod) < u32_mod = omega arith in
    ground (arith, ids_from_endless name fuel ((i + 1) % u32_mod) w next)
