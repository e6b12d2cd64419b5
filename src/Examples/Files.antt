-- ===== src/Examples/Files.antt =====
-- Addresses, the file store and the deliveries of large messages at concrete inputs.
use yggmail_android.Base.{
  ℕ, ◌<◌, ◌≤◌, Bool, ◌≡◌, All-replicate, refl, false, none, some, [], ◌∷◌, Bytes, codes, same,
  length, length-replicate, arith, replicate,
}
use mathlib.Core.Option
use yggmail_android.World.{
  ok, World, Reader, DiskStep, remove_orphan, MailRow, small_message_threshold,
}
use yggmail_android.Address.{create_address, parse_address, to_key}
use yggmail_android.Address.RoundTrip.{parse-create, parse_address_sound, Accepted}
use yggmail_android.FileStore.{store_mail, read_mail, cleanup_orphaned_files}
use yggmail_android.FileStore.Files.{lookup}
use yggmail_android.FileStore.Paths.{mail_path, contains_dots}
use yggmail_android.FileStore.Contents.{Stored, store_mail-Stored, read-store}
use yggmail_android.FileStore.Safety.{mail_path-IsSafe}
use yggmail_android.Storage.Mails.{mail_create_from_stream, new_row}
use yggmail_android.Storage.Contents.{in_table}
use yggmail_android.Storage.Streams.Interleaved.{interleaved, interleaved_loses}
use yggmail_android.FileStore.Cleanup.{Cleaned, cleanup_orphaned_files-Cleaned}
use yggmail_android.Storage.Streams.{mail_create_from_stream_large}
use yggmail_android.Examples.{inbox, server, note, film}

abbrev some_key : Bytes
some_key = replicate 32 171

parse-create_example : parse_address (create_address some_key) ≡ ok some_key
parse-create_example =
    parse-create some_key refl (All-replicate (λ b. b < 256) 32 171 (omega arith))

parse_address_sound_example : Accepted (codes "0a@Yggmail") (to_key (10 ∷ []))
unfolding parse_address
parse_address_sound_example = parse_address_sound (codes "0a@Yggmail") (to_key (10 ∷ [])) refl

store_mail-Stored_example : Stored 3 inbox note server (store_mail 3 inbox note server)
store_mail-Stored_example = store_mail-Stored 3 inbox note server

read-store_example :
    ((store_mail 3 inbox note server).0 ≡ ok (mail_path inbox 3, 4))
    × ((read_mail (mail_path inbox 3) (store_mail 3 inbox note server).1).0 ≡ ok note)
read-store_example = read-store 3 inbox note server refl refl

-- A disk that keeps one file.
abbrev keeps_third : DiskStep → Bool
keeps_third (remove_orphan p) = same p (codes "INBOX/3.eml")
keeps_third _ = false

abbrev littered : World
littered = record server {
  disk = record {
    files =
        (codes "INBOX/1.eml", codes "a")
        ∷ (codes "INBOX/2.eml", codes "bc")
        ∷ (codes "INBOX/3.eml", codes "d")
        ∷ [];
    refuses = keeps_third;
    temp_suffix = codes "7";
  };
}

cleanup_orphaned_files-Cleaned_example :
    Cleaned
      (codes "INBOX/1.eml" ∷ [])
      littered
      (cleanup_orphaned_files (codes "INBOX/1.eml" ∷ []) littered)
cleanup_orphaned_files-Cleaned_example =
    cleanup_orphaned_files-Cleaned (codes "INBOX/1.eml" ∷ []) littered

mail_path-IsSafe_example : contains_dots (mail_path (codes "../x") 3) ≡ false
mail_path-IsSafe_example = mail_path-IsSafe (codes "../x") 3

mail_create_from_stream_large_example :
    ((mail_create_from_stream inbox film server).0 ≡ ok 2)
    × (in_table inbox 2 (mail_create_from_stream inbox film server).1
        ≡ some (new_row inbox 2 none (some (mail_path inbox 2)) (length film.content) 9))
    × (lookup (mail_path inbox 2) (mail_create_from_stream inbox film server).1.disk.files
        ≡ some film.content)
unfolding same yggmail_android.Storage.Tables.next_id
mail_create_from_stream_large_example =
    mail_create_from_stream_large inbox film server refl refl
      (rw (length-replicate {A = ℕ} small_message_threshold b'f') (omega arith))

abbrev sequel : Reader
sequel = record { content = replicate small_message_threshold b's'; broken = false }

film_is_large : small_message_threshold ≤ length film.content
film_is_large = rw (length-replicate {A = ℕ} small_message_threshold b'f') (omega arith)

sequel_is_large : small_message_threshold ≤ length sequel.content
sequel_is_large = rw (length-replicate {A = ℕ} small_message_threshold b's') (omega arith)

interleaved_loses_example :
    let (inserted_a, inserted_b, w') = interleaved inbox film sequel server in
    (inserted_a ≡ ok 2)
    × (inserted_b ≡ ok 3)
    × (Option.map (λ (r : MailRow). r.mail_file) (in_table inbox 2 w')
        ≡ some (some (mail_path inbox 2)))
    × (Option.map (λ (r : MailRow). r.mail_file) (in_table inbox 3 w')
        ≡ some (some (mail_path inbox 2)))
    × (lookup (mail_path inbox 2) w'.disk.files ≡ some sequel.content)
unfolding same yggmail_android.Storage.Tables.next_id
interleaved_loses_example =
    interleaved_loses inbox film sequel server refl refl refl film_is_large sequel_is_large
