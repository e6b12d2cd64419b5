-- ===== src/Storage/Writer.antt =====
-- The Writer of internal/storage/sqlite3/sqlite3.go: Do hands a task to the goroutine `run`, which runs
-- the tasks one by one and answers each on its channel.
use yggmail_android.Base.{ℕ, suc, ◌≡◌, ◌≤◌, ap, refl, Bool, true, false, List, [], ◌∷◌, arith}
use yggmail_android.World.{World, Result, ok, Action}

-- What a task is given: no database, a database and a transaction, or a database alone, where Begin
-- may fail.
pub data TaskKind : Type 0 where
  without_database with_transaction begins begin_fails : TaskKind

-- writerTask
pub record WriterTask : Type 0 where
  pub kind : TaskKind
  pub f : Action (Unit {0})

-- run, for one task: what Do receives from the channel. If Begin fails, nothing is sent, and the closed
-- channel yields nil.
unfoldable pub run_task : WriterTask → Action (Unit {0})
run_task t = elim t.kind [
  | TaskKind.without_database ↦ t.f
  | TaskKind.with_transaction ↦ t.f
  | TaskKind.begins ↦ t.f
  | TaskKind.begin_fails ↦ λ w. (ok tt, w)
]

-- Do, once the task is taken; the tasks of a sequence of calls run in their order.
unfoldable pub run_tasks : List WriterTask → World → List (Result (Unit {0})) × World
unfolding run_task
run_tasks [] w = ([], w)
run_tasks (t ∷ ts) w = let (r, v) = run_task t w in let (rs, u) = run_tasks ts v in (r ∷ rs, u)

-- The writer's flag, the goroutines that run tasks, those that are started and have not yet swapped the
-- flag, and whether Do was called.
pub data Writer : Type 0 where
  writer : (running : Bool) (runners starting : ℕ) (asked : Bool) → Writer

-- The steps of Do, up to the task, and of run, up to its loop: the flag is loaded, and swapped.
pub data WriterStep : Writer → Writer → Type 0 where
  spawns : (n k : ℕ) (b : Bool) → WriterStep (writer false n k b) (writer false n (suc k) true)
  skips : (n k : ℕ) (b : Bool) → WriterStep (writer true n k b) (writer true n k true)
  wins : (n k : ℕ) (b : Bool) → WriterStep (writer false n (suc k) b) (writer true (suc n) k b)
  loses : (n k : ℕ) (b : Bool) → WriterStep (writer true n (suc k) b) (writer true n k b)

pub data WriterRuns : Writer → Type 0 where
  idle : WriterRuns (writer false 0 0 false)
  steps : (u v : Writer) → WriterRuns u → WriterStep u v → WriterRuns v

-- One runner as long as the flag is set and none before, and none missing once Do was called.
abbrev pub HasOneRunner : Writer → Type 0
HasOneRunner (writer true n k b) = n ≡ 1
HasOneRunner (writer false n k true) = (n ≡ 0) × (1 ≤ k)
HasOneRunner (writer false n k false) = (n ≡ 0) × (k ≡ 0)

step-HasOneRunner : (u v : Writer) → WriterStep u v → HasOneRunner u → HasOneRunner v
step-HasOneRunner _ _ (spawns n k true) h = (h.0, omega arith)
step-HasOneRunner _ _ (spawns n k false) h = (h.0, omega arith)
step-HasOneRunner _ _ (skips n k b) h = h
step-HasOneRunner _ _ (wins n k true) h = ap suc h.0
step-HasOneRunner _ _ (wins n k false) h = ap suc h.0
step-HasOneRunner _ _ (loses n k b) h = h

-- However the calls of Do and the goroutines that they start interleave, at most one goroutine runs
-- tasks; and once Do was called, one runs or one is started that will.
pub WriterRuns-HasOneRunner : (v : Writer) → WriterRuns v → HasOneRunner v
WriterRuns-HasOneRunner _ idle = (refl, refl)
WriterRuns-HasOneRunner v (steps u _ r s) = step-HasOneRunner u v s (WriterRuns-HasOneRunner u r)

-- If the database cannot begin a transaction, Do reports success, and the task is not run.
pub run_task_lost :
    (f : Action (Unit {0})) (w : World)
    → run_task (record { kind = TaskKind.begin_fails; f = f }) w ≡ (ok tt, w)
unfolding run_task
run_task_lost f w = refl
