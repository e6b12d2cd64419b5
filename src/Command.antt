-- ===== src/Command.antt =====
-- cmd/yggmail/main.go: the start of the command, up to its servers. The passwords that are typed, bcrypt
-- and the ends of the process are parameters and results.
use yggmail_android.Base.{
  ℕ, ◌≡◌, refl, ap, ◌∙◌, Bool, true, false, ◌&&◌, not, Option, none, some, List, [], ◌∷◌, Text,
  Bytes, same, if◌then◌else◌,
}
use yggmail_android.World.{World, Result, ok, err, Action, pure, ◌>>=◌, ◌>>◌}
use yggmail_android.Address.{hex_encode}
use yggmail_android.FileStore.Paths.{trim_space}
use yggmail_android.Storage.Config.{config_set_password}
use yggmail_android.World.Keeps.{Keeps, bind-Keeps, pure-Keeps}
use yggmail_android.Storage.Keeps.{HasValidDb}
use yggmail_android.Storage.Config.{config_set}
use yggmail_android.Service.Keeps.{load_key-Keeps, default_mailboxes-Keeps, new_file_store-Keeps}
use yggmail_android.Welcome.{onboard, onboard-Keeps}
use yggmail_android.Service.{Platform}
use yggmail_android.Service.Lifecycle.{load_key, create_default_mailboxes, new_file_store}

-- The flags; `passwords` is what is typed twice behind -password.
pub record Options : Type 0 where
  pub passwords : Option (Text × Text)
  pub password_hash : Text
  pub multicast : Bool
  pub peers : List Text

-- os.Exit with a code, or the servers start.
pub data Outcome : Type 0 where
  exits : ℕ → Outcome
  serves : Outcome

-- The identity, the default mailboxes, the welcome message and the file store; any error is a panic.
unfoldable pub set_up : Platform → (Text → Bytes) → Action Bytes
unfolding load_key create_default_mailboxes onboard hex_encode new_file_store
set_up env message = do
  sk ← load_key env
  create_default_mailboxes
  onboard message (hex_encode (env.public_of sk))
  new_file_store
  pure sk

-- A result of ConfigSetPassword, and how it goes on
abbrev pub after_set : Outcome → Result (Unit {0}) × World → Outcome × World
after_set next (ok _, w) = (next, w)
after_set next (err _, w) = (exits 1, w)

abbrev pub store_hash : Option Text → World → Outcome × World
store_hash none w = (exits 1, w)
store_hash (some hash) w = after_set (exits 0) (config_set_password hash w)

abbrev pub use_hash : (Text → Bool) → Text → World → Outcome × World
use_hash valid [] w = (exits 1, w)
use_hash valid (c ∷ s) w =
    if valid (c ∷ s) then after_set serves (config_set_password (c ∷ s) w) else (exits 1, w)

abbrev pub is_empty : List Text → Bool
is_empty [] = true
is_empty (_ ∷ _) = false

-- The switch over the flags
unfoldable pub choose :
    (Text → Option Text)
    → (Text → Bool)
    → Option (Text × Text)
    → Text
    → Bool
    → List Text
    → World
    → Outcome × World
unfolding config_set_password trim_space
choose hash valid (some (first, second)) given multicast peers w =
    if same first second then store_hash (hash (trim_space first)) w else (exits 1, w)
choose hash valid none (c ∷ s) multicast peers w = use_hash valid (trim_space (c ∷ s)) w
choose hash valid none [] multicast peers w =
    if not multicast && is_empty peers then (exits 0, w) else (serves, w)

-- main, behind the parsing of the flags
unfoldable pub run_options :
    (Text → Option Text) → (Text → Bool) → Options → World → Outcome × World
unfolding choose
run_options hash valid o = choose hash valid o.passwords o.password_hash o.multicast o.peers

-- The start of the command keeps the constraints of the database.
pub set_up-Keeps : (env : Platform) (message : Text → Bytes) → Keeps HasValidDb (set_up env message)
unfolding set_up
set_up-Keeps env message = bind-Keeps HasValidDb (load_key env) _ (load_key-Keeps env) (λ sk.
    bind-Keeps HasValidDb create_default_mailboxes _ default_mailboxes-Keeps (λ _.
      bind-Keeps HasValidDb (onboard message (hex_encode (env.public_of sk))) _
        (onboard-Keeps message (hex_encode (env.public_of sk)))
        (λ _.
          bind-Keeps HasValidDb new_file_store _ new_file_store-Keeps
            (λ _. pure-Keeps HasValidDb sk))))

-- With a hash for the password, the command goes on to serve without any peer, where it would end
-- otherwise.
pub hash_without_peers :
    (hash : Text → Option Text) (valid : Text → Bool) (h g : Text) (c d : ℕ) (w : World)
    → trim_space (c ∷ h) ≡ d ∷ g
    → valid (d ∷ g) ≡ true
    → ((choose hash valid none (c ∷ h) false [] w).0 ≡ serves)
      × ((choose hash valid none [] false [] w).0 ≡ exits 0)
unfolding choose config_set_password config_set
hash_without_peers hash valid h g c d w t v = (ap (λ s. (use_hash valid s w).0) t ∙ rw v refl, refl)
