-- ===== src/Logging.antt =====
-- internal/logging/largemail_logger.go: the operations on large messages that are under way. The map of
-- Go is an association list with one entry for a key; a percentage is the pair of its numerator and
-- denominator, and the speeds are not modelled.
use yggmail_android.Base.{
  ℕ, ◌*◌, ◌≡◌, refl, ap, not, Option, none, some, List, [], ◌∷◌, ◌++◌, Text, same, same_refl,
  filter, length, ltb, if◌then◌else◌, arith,
}

-- Milestone
pub record Milestone : Type 0 where
  pub timestamp : ℕ
  pub stage : Text
  pub bytes_sent : ℕ
  pub message : Text

-- OperationLog
pub record OperationLog : Type 0 where
  pub op_id : Text
  pub mail_id : ℕ
  pub total_size : ℕ
  pub stage : Text
  pub start_time : ℕ
  pub milestones : List Milestone

-- LargeMailLogger: its sync.Map
abbrev pub LargeMailLogger : Type 0
LargeMailLogger = List (Text × OperationLog)

-- Load, Delete and Store of the map
unfoldable pub load_operation : Text → LargeMailLogger → Option OperationLog
load_operation k [] = none
load_operation k ((j, op) ∷ m) = let rest = load_operation k m in if same j k then some op else rest

abbrev pub delete_operation : Text → LargeMailLogger → LargeMailLogger
delete_operation k = filter (λ e. not (same e.0 k))

abbrev pub store_operation : Text → OperationLog → LargeMailLogger → LargeMailLogger
store_operation k op m = (k, op) ∷ delete_operation k m

-- StartOperation
unfoldable pub start_operation : ℕ → Text → ℕ → ℕ → Text → LargeMailLogger → LargeMailLogger
start_operation now op_id mail_id size stage = store_operation op_id (record {
  op_id = op_id;
  mail_id = mail_id;
  total_size = size;
  stage = stage;
  start_time = now;
  milestones = [];
})

abbrev pub add_milestone : Milestone → OperationLog → OperationLog
add_milestone s op = record op { milestones = op.milestones ++ s ∷ [] }

-- LogMilestone: the entry is changed in place.
unfoldable pub log_milestone : ℕ → Text → Text → ℕ → Text → LargeMailLogger → LargeMailLogger
log_milestone now op_id stage bytes_sent message [] = []
log_milestone now op_id stage bytes_sent message ((j, op) ∷ m) =
    let rest = log_milestone now op_id stage bytes_sent message m in
    let s : Milestone = record {
      timestamp = now;
      stage = stage;
      bytes_sent = bytes_sent;
      message = message;
    } in
    if same j op_id then (j, add_milestone s op) ∷ m else (j, op) ∷ rest

-- EndOperation
unfoldable pub end_operation : Text → LargeMailLogger → LargeMailLogger
end_operation op_id = delete_operation op_id

-- GetActiveOperations
unfoldable pub get_active_operations : LargeMailLogger → ℕ
get_active_operations = length

-- The last milestone, behind one
unfoldable pub last_milestone : Milestone → List Milestone → Milestone
last_milestone s [] = s
last_milestone s (t ∷ ts) = last_milestone t ts

abbrev pub progress_of : ℕ → ℕ → ℕ × ℕ
progress_of total sent = if ltb 0 total then (sent * 100, total) else (0, 1)

abbrev pub status_from : OperationLog → List Milestone → Text × (ℕ × ℕ)
status_from op [] = (op.stage, (0, 1))
status_from op (s ∷ ss) =
    let latest = last_milestone s ss in (latest.stage, progress_of op.total_size latest.bytes_sent)

abbrev pub found_status : Option OperationLog → Option (Text × (ℕ × ℕ))
found_status none = none
found_status (some op) = some (status_from op op.milestones)

-- GetOperationStatus: the stage and the progress, if the operation is found.
unfoldable pub get_operation_status : Text → LargeMailLogger → Option (Text × (ℕ × ℕ))
unfolding load_operation last_milestone
get_operation_status op_id m = found_status (load_operation op_id m)

load-delete : (k : Text) (m : LargeMailLogger) → load_operation k (delete_operation k m) ≡ none
unfolding load_operation
load-delete k [] = refl
load-delete k ((j, op) ∷ m) = ground (arith, load-delete k m)

last_milestone-append :
    (s t : Milestone) (ss : List Milestone) → last_milestone s (ss ++ t ∷ []) ≡ t
unfolding last_milestone
last_milestone-append s t [] = refl
last_milestone-append s t (u ∷ us) = last_milestone-append u t us

-- An operation that was started is found, with the stage and the progress of its latest milestone; one
-- that was ended is not found any more.
pub get_operation_status_lem :
    (now later : ℕ) (k : Text) (mail_id size sent : ℕ) (stage next text : Text)
    (m : LargeMailLogger)
    → let started = start_operation now k mail_id size stage m in
      (get_operation_status k started ≡ some (stage, (0, 1)))
      × (get_operation_status k (log_milestone later k next sent text started)
          ≡ some (next, progress_of size sent))
      × (get_operation_status k (end_operation k started) ≡ none)
unfolding get_operation_status start_operation log_milestone end_operation load_operation
get_operation_status_lem now later k mail_id size sent stage next text m =
    (ap found_status loaded, ap found_status logged, ap found_status ended)
  where
    op : OperationLog
    op = record {
      op_id = k;
      mail_id = mail_id;
      total_size = size;
      stage = stage;
      start_time = now;
      milestones = [];
    }

    s : Milestone
    s = record { timestamp = later; stage = next; bytes_sent = sent; message = text }

    loaded : load_operation k (store_operation k op m) ≡ some op
    loaded = rw (same_refl k) refl

    logged :
        load_operation k (log_milestone later k next sent text (store_operation k op m))
        ≡ some (add_milestone s op)
    logged = rw (same_refl k) (rw (same_refl k) refl)

    ended : load_operation k (delete_operation k (store_operation k op m)) ≡ none
    ended = load-delete k (store_operation k op m)
