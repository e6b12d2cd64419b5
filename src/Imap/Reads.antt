-- ===== src/Imap/Reads.antt =====
-- internal/imapserver: calls that only read, which leave the state as it is.
use yggmail_android.Base.{
  ℕ, zero, suc, ◌+◌, ◌%◌, ◌≡◌, refl, Bool, true, false, List, [], ◌∷◌, Text, leb, if◌then◌else◌,
}
use yggmail_android.World.{
  World, Result, ok, err, Error, Action, pure, fail, ◌>>=◌, resume, query, Db,
}
use yggmail_android.World.Keeps.{Keeps}
use yggmail_android.Storage.Mails.{mail_next_id, mail_id_for_seq}
use yggmail_android.Imap.SeqSet.{Seq, u32_mod, resolve, ids_from, stop_of, get_ids_from_seq_set}

-- A call that changes nothing.
pub record ReadOnly {ℓ} {A : Type ℓ} (m : Action A) : Type ℓ where
  pub same_world : (w : World) → (m w).1 ≡ w

pub ReadOnly-Keeps {ℓ} : {A : Type ℓ} (P : World → Type 0) (m : Action A) → ReadOnly m → Keeps P m
ReadOnly-Keeps P m r = record { holds = λ w p. rw (r.same_world w) p }

module _ {ℓ} {A : Type ℓ} where
  pub pure-ReadOnly : (a : A) → ReadOnly (pure a)
  pure-ReadOnly a = record { same_world = λ w. refl }

  pub fail-ReadOnly : (e : Error) → ReadOnly (fail {A = A} e)
  fail-ReadOnly e = record { same_world = λ w. refl }

  pub query-ReadOnly : (f : Db → Result A) → ReadOnly (query f)
  query-ReadOnly f = record { same_world = λ w. refl }

  pub if-ReadOnly :
      (b : Bool) (m n : Action A) → ReadOnly m → ReadOnly n → ReadOnly (if b then m else n)
  if-ReadOnly true m n km kn = km
  if-ReadOnly false m n km kn = kn

resume-world {ℓ κ} :
    {A : Type ℓ} {B : Type κ} (f : A → Action B) (x : Result A × World) (w : World)
    → x.1 ≡ w
    → ((a : A) → ReadOnly (f a))
    → (resume f x).1 ≡ w
resume-world f (ok a, v) w e h = rw ((h a).same_world v) e
resume-world f (err _, v) w e h = e

pub bind-ReadOnly {ℓ κ} :
    {A : Type ℓ} {B : Type κ} (m : Action A) (f : A → Action B)
    → ReadOnly m
    → ((a : A) → ReadOnly (f a))
    → ReadOnly (m >>= f)
bind-ReadOnly m f km kf = record { same_world = λ w. resume-world f (m w) w (km.same_world w) kf }

resolve-ReadOnly : (uid : Bool) (name : Text) (i : ℕ) → ReadOnly (resolve uid name i)
unfolding resolve mail_id_for_seq
resolve-ReadOnly uid name i = search (if-ReadOnly, pure-ReadOnly, query-ReadOnly) depth 4

ids_from-ReadOnly :
    (uid : Bool) (name : Text) (fuel i stop : ℕ) → ReadOnly (ids_from uid name fuel i stop)
unfolding ids_from
ids_from-ReadOnly uid name zero i stop = fail-ReadOnly _
ids_from-ReadOnly uid name (suc fuel) i stop =
    if-ReadOnly (leb i stop) _ _
      (bind-ReadOnly (resolve uid name i) _ (resolve-ReadOnly uid name i) (λ id.
        bind-ReadOnly (ids_from uid name fuel ((i + 1) % u32_mod) stop) _
          (ids_from-ReadOnly uid name fuel ((i + 1) % u32_mod) stop) (λ ids. pure-ReadOnly _)))
      (pure-ReadOnly _)

stop_of-ReadOnly : (name : Text) (stop : ℕ) → ReadOnly (stop_of name stop)
unfolding stop_of mail_next_id
stop_of-ReadOnly name stop =
    search (if-ReadOnly, bind-ReadOnly, pure-ReadOnly, query-ReadOnly) depth 5

-- Resolving a seqset changes nothing.
pub get_ids_from_seq_set-ReadOnly :
    (fuel : ℕ) (uid : Bool) (name : Text) (set : List Seq)
    → ReadOnly (get_ids_from_seq_set fuel uid name set)
unfolding get_ids_from_seq_set
get_ids_from_seq_set-ReadOnly fuel uid name [] = pure-ReadOnly _
get_ids_from_seq_set-ReadOnly fuel uid name (s ∷ set) =
    bind-ReadOnly (stop_of name s.stop) _ (stop_of-ReadOnly name s.stop) (λ stop.
      bind-ReadOnly (ids_from uid name fuel s.start stop) _
        (ids_from-ReadOnly uid name fuel s.start stop)
        (λ ids.
          bind-ReadOnly (get_ids_from_seq_set fuel uid name set) _
            (get_ids_from_seq_set-ReadOnly fuel uid name set) (λ rest. pure-ReadOnly _)))
