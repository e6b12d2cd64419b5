-- ===== src/Service/Discovery/Batches.antt =====
-- The loop over the batches of FindAvailablePeersAsync in mobile/yggmail.go.
use yggmail_android.Base.{
  ℕ, zero, suc, ◌+◌, ◌-◌, ◌≤◌, ◌<◌, ◌≡◌, refl, ap, sym, ◌∙◌, min, List, [], ◌∷◌, ◌++◌, length, take,
  drop, take-append-drop, ltb, ltb→lt, take-min, drop-drop, length-drop, if_both, arith,
}
use yggmail_android.Base.Int.{pos}
use yggmail_android.World.{Result, ok, err, out_of_fuel}
use yggmail_android.Service.Discovery.{Peer, batches, prepend}

abbrev pub joined : List (ℕ × List Peer) → List Peer
joined [] = []
joined ((_, b) ∷ bs) = b ++ joined bs

-- What a batch takes, and what is left behind it.
batch_rest :
    (n i : ℕ) (ps : List Peer)
    → i < length ps
    → take (min (i + n) (length ps) - i) (drop i ps) ++ drop (i + n) ps ≡ drop i ps
batch_rest n i ps h =
    ap (λ k. take k (drop i ps) ++ drop (i + n) ps) amount
    ∙ (ap (λ t. t ++ drop (i + n) ps) (take-min n (drop i ps))
        ∙ (ap (λ t. take n (drop i ps) ++ t) (sym (drop-drop n i ps))
            ∙ take-append-drop n (drop i ps)))
  where
    amount : min (i + n) (length ps) - i ≡ min n (length (drop i ps))
    amount = omega (arith, h, length-drop i ps)

abbrev Covers : List Peer → Result (List (ℕ × List Peer)) → Type 0
Covers ps x = (bs : List (ℕ × List Peer)) × (x ≡ ok bs) × (joined bs ≡ ps)

prepend-Covers :
    (e : ℕ) (b qs ps : List Peer) (x : Result (List (ℕ × List Peer)))
    → b ++ qs ≡ ps
    → Covers qs x
    → Covers ps (prepend (e, b) x)
prepend-Covers e b qs ps x h (bs, k, j) =
    ((e, b) ∷ bs, ap (prepend (e, b)) k, ap (λ t. b ++ t) j ∙ h)

drop_end : (i : ℕ) (ps : List Peer) → length ps ≤ i → [] ≡ drop i ps
drop_end zero [] h = refl
drop_end zero (p ∷ ps) h = absurd (omega (arith, h))
drop_end (suc i) [] h = refl
drop_end (suc i) (p ∷ ps) h = drop_end i ps (omega (arith, h))

batches-Covers :
    (fuel n i : ℕ) (ps : List Peer)
    → 1 ≤ fuel
    → length ps < i + fuel
    → Covers (drop i ps) (batches fuel (pos (suc n)) ps i)
unfolding batches
batches-Covers zero n i ps g h = absurd (omega (arith, g))
batches-Covers (suc fuel) n i ps g h =
    if_both (Covers (drop i ps)) (ltb i (length ps)) _ _
      (λ e.
        prepend-Covers _ _ (drop (i + suc n) ps) (drop i ps) _
          (batch_rest (suc n) i ps (ltb→lt i (length ps) e))
          (batches-Covers fuel n (i + suc n) ps (omega (arith, h, ltb→lt i (length ps) e))
            (omega (arith, h))))
      (λ e. ([], refl, drop_end i ps (ground (arith, e))))

-- With a batch size of at least 1 the loop ends: fuel beyond the number of peers is enough; and its
-- batches, one after the other, are the peers, each of them once and in order.
pub batches_cover :
    (fuel n : ℕ) (ps : List Peer)
    → length ps < fuel
    → (bs : List (ℕ × List Peer)) × (batches fuel (pos (suc n)) ps 0 ≡ ok bs) × (joined bs ≡ ps)
batches_cover fuel n ps h = batches-Covers fuel n 0 ps (omega (arith, h)) (omega (arith, h))

-- With a batch size of 0, which SetPeerBatchingParams accepts, the loop over at least one peer does not
-- end, whatever the fuel.
pub batches_endless :
    (fuel : ℕ) (p : Peer) (ps : List Peer) → batches fuel (pos 0) (p ∷ ps) 0 ≡ err out_of_fuel
unfolding batches
batches_endless zero p ps = refl
batches_endless (suc fuel) p ps =
    if_both (λ x. x ≡ err out_of_fuel) (ltb 0 (length (p ∷ ps))) _ _
      (λ _. ap (prepend _) (batches_endless fuel p ps)) (λ e. ground (arith, e))
