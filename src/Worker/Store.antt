-- ===== src/Worker/Store.antt =====
-- worker/store.py: one directory for each execution, with a status file in it. Times are whole seconds
-- of one clock, an argument of each call; a call sees the directories as no other call is changing them.
use analysis_loop.Prelude.{
  ℕ, ◌+◌, String, Bool, true, false, ◌&&◌, Option, none, some, List, [], ◌∷◌, Result, err, ok,
  value_error, ◌>>=◌, lit, arg, codes, all, length, leb, ltb, ◌==◌, if◌then◌else◌,
}
use analysis_loop.Contracts.Base.{is_id_char}

pub data ExecutionStatus : Type 0 where
  running succeeded failed : ExecutionStatus

-- What an execution leaves; `_execute_now`.
pub record Payload : Type 0 where
  pub status : ExecutionStatus
  pub stdout : String
  pub stderr : String
  pub duration : ℕ
  pub refused_reason : Option String
  pub result_json : Option String
  pub figures : List (String × String)

-- The dict in status.json; a key that is not there is none.
pub record Receipt : Type 0 where
  pub execution_id : String
  pub status : ExecutionStatus
  pub started_at : Option ℕ
  pub finished_at : Option ℕ
  pub payload : Option Payload

pub data StatusFile : Type 0 where
  missing garbled : StatusFile
  holds : Receipt → StatusFile

pub record Directory : Type 0 where
  pub mtime : ℕ
  pub file : StatusFile

-- The directories under the root, by name.
abbrev pub Store : Type 0
Store = String → Option Directory

abbrev pub retention_seconds : ℕ
retention_seconds = 21600

abbrev pub stale_running_seconds : ℕ
stale_running_seconds = 7200

-- `_ID_PATTERN.fullmatch`.
pub is_execution_id : String → Bool
unfolding is_id_char
is_execution_id id =
    all is_id_char (codes id) && leb 1 (length (codes id)) && leb (length (codes id)) 64

unfoldable pub validate_execution_id : String → Result String
unfolding is_execution_id
validate_execution_id id =
    if is_execution_id id
    then ok id
    else err (value_error (lit "execution_id는 ^[A-Za-z0-9_-]{1,64}$ 형식이어야 한다: " ∷ arg id ∷ []))

-- The store with another directory under one name.
unfoldable pub set : Store → String → Option Directory → Store
set store id d = λ name. if id == name then d else store name

-- `_write`: the file is replaced at once, which touches the directory.
unfoldable pub write : ℕ → String → Receipt → Store → Store
unfolding set
write now id receipt store = set store id (some (record { mtime = now; file = holds receipt }))

abbrev pub running_receipt : ℕ → String → Receipt
running_receipt now id = record {
  execution_id = id;
  status = running;
  started_at = some now;
  finished_at = none;
  payload = none;
}

abbrev pub finished_receipt : ℕ → String → Payload → Receipt
finished_receipt now id payload = record {
  execution_id = id;
  status = payload.status;
  started_at = none;
  finished_at = some now;
  payload = some payload;
}

abbrev pub is_running : ExecutionStatus → Bool
is_running running = true
is_running _ = false

-- `time.time() - since > STALE_RUNNING_SECONDS`.
abbrev pub is_over : ℕ → ℕ → Bool
is_over now since = ltb (since + stale_running_seconds) now

abbrev pub is_over? : ℕ → Option ℕ → Bool
is_over? now none = false
is_over? now (some since) = is_over now since

-- `_is_stale`: without a readable status file the directory's own time counts.
unfoldable pub is_stale : ℕ → Directory → Bool
is_stale now d = elim d.file [
  | missing ↦ is_over now d.mtime
  | garbled ↦ is_over now d.mtime
  | holds receipt ↦ is_running receipt.status && is_over? now receipt.started_at
]

unfoldable pub can_claim : ℕ → Option Directory → Bool
unfolding is_stale
can_claim now none = true
can_claim now (some d) = is_stale now d

unfoldable pub claim_directory : ℕ → String → Store → Bool × Store
unfolding can_claim write
claim_directory now id store =
    if can_claim now (store id)
    then (true, write now id (running_receipt now id) store)
    else (false, store)

-- A free name is claimed, and so is one whose claim is stale: its directory is made anew.
unfoldable pub claim : ℕ → String → Store → Result (Bool × Store)
unfolding validate_execution_id claim_directory
claim now id store = do checked ← validate_execution_id id; ok (claim_directory now checked store)

-- A directory without a readable status file counts as running: somebody has claimed it.
unfoldable pub receipt_of : String → Option Directory → Option Receipt
receipt_of id none = none
receipt_of id (some d) = elim d.file [
  | holds receipt ↦ some receipt
  | missing ↦ some (record {
    execution_id = id;
    status = running;
    started_at = none;
    finished_at = none;
    payload = none;
  })
  | garbled ↦ some (record {
    execution_id = id;
    status = running;
    started_at = none;
    finished_at = none;
    payload = none;
  })
]

unfoldable pub read : String → Store → Result (Option Receipt)
unfolding validate_execution_id receipt_of
read id store = do checked ← validate_execution_id id; ok (receipt_of checked (store checked))

unfoldable pub finish : ℕ → String → Payload → Store → Result Store
unfolding validate_execution_id write
finish now id payload store = do
  checked ← validate_execution_id id
  ok (write now checked (finished_receipt now checked payload) store)

-- `directory.stat().st_mtime >= now - retention`.
abbrev pub is_kept : ℕ → Directory → Bool
is_kept now d = leb now (d.mtime + retention_seconds)

abbrev pub kept_or_none : ℕ → Option Directory → Option Directory
kept_or_none now none = none
kept_or_none now (some d) = if is_kept now d then some d else none

-- `sweep`; how many directories it removed is left out, since no caller reads it.
unfoldable pub sweep : ℕ → Store → Store
sweep now store = λ name. kept_or_none now (store name)
