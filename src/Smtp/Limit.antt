-- ===== src/Smtp/Limit.antt =====
-- DATA of internal/smtpserver/session_remote.go: large messages and the size limit.
use yggmail_android.Base.{ℕ, ◌≡◌, refl, ap, Bool, true, false, if◌then◌else◌}
use yggmail_android.World.{World, Reader, ok, ◌>>◌, fail, size_exceeded}
use mathlib.Core.Path.{subst}
use yggmail_android.World.Keeps.{resume-ok, err-not-ok}
use yggmail_android.Storage.Mails.{
  Mail, mail_delete, mail_expunge_with_file_store, mail_create_from_stream, mail_select,
}
use yggmail_android.Smtp.Remote.{inbox, over_limit, reject_over, store_large}

-- A check that accepts leaves the state as it is.
reject_over-ok :
    (b : Bool) (id size i : ℕ) (w w' : World)
    → reject_over b id size w ≡ (ok i, w')
    → (id ≡ i) × (w ≡ w') × (over_limit size w ≡ false)
unfolding reject_over
reject_over-ok b id size i w w' h = by_limit (over_limit size w) refl h
  where
    value : (m n : ℕ) → ok m ≡ ok n → m ≡ n
    value m n k = cc

    by_limit :
        (t : Bool)
        → over_limit size w ≡ t
        → (if t
            then (mail_delete inbox id
                  >> mail_expunge_with_file_store b inbox
                  >> fail {A = ℕ} size_exceeded)
                w
            else (ok id, w))
          ≡ (ok i, w')
        → (id ≡ i) × (w ≡ w') × (over_limit size w ≡ false)
    by_limit true e k =
        let (_, _, _, failed) =
          resume-ok (λ _. fail {A = ℕ} size_exceeded)
            ((mail_delete inbox id >> mail_expunge_with_file_store b inbox) w) i w' k in
        absurd (err-not-ok size_exceeded i (ap (λ x. x.0) failed))
    by_limit false e k = (value id i (ap (λ x. x.0) k), ap (λ x. x.1) k, e)

select_unchanged :
    (id : ℕ) (w v : World) (r : ℕ × Mail) → mail_select inbox id w ≡ (ok r, v) → w ≡ v
unfolding mail_select
select_unchanged id w v r h = ap (λ x. x.1) h

-- A large message that DATA stores without an error can be selected under its ID, and its stored size
-- is within the limit that is configured then.
pub store_large_fits :
    (full : Reader) (i : ℕ) (w w' : World)
    → store_large full w ≡ (ok i, w')
    → (seq : ℕ) × (m : Mail) × (mail_select inbox i w' ≡ (ok (seq, m), w'))
      × (over_limit m.size w' ≡ false)
unfolding store_large
store_large_fits full i w w' h =
    let (id, w1, _, h1) = resume-ok _ (mail_create_from_stream inbox full w) i w' h in
    let ((seq, m), w2, e2, h2) = resume-ok _ (mail_select inbox id w1) i w' h1 in
    let (same_id, same_world, fits) = reject_over-ok true id m.size i w2 w' h2 in
    let stays : w1 ≡ w2 = select_unchanged id w1 w2 (seq, m) e2 in
    (
      seq,
      m,
      subst (λ j. mail_select inbox j w' ≡ (ok (seq, m), w')) same_id
          (subst (λ v. mail_select inbox id v ≡ (ok (seq, m), v)) same_world
            (subst (λ v. mail_select inbox id v ≡ (ok (seq, m), w2)) stays e2)),
      subst (λ v. over_limit m.size v ≡ false) same_world fits,
    )
