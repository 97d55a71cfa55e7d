-- ===== src/Worker/App.antt =====
-- worker/app.py and net.py: who may call, and the two handlers.
use analysis_loop.Prelude.{
  ℕ, String, Bool, true, false, not, ◌||◌, ◌&&◌, Option, none, some, List, [], ◌∷◌, Result, err, ok,
  Error, ◌==◌, if◌then◌else◌, truthy, is_ok,
}
use analysis_loop.Prelude.Sets.{contains}
use analysis_loop.Worker.Store.{
  failed, succeeded, Payload, Receipt, Store, validate_execution_id, claim, read, finish,
}

-- What the sandbox of the worker leaves: the text of its result and the figures of its directory.
pub record WorkerResult : Type 0 where
  pub ok : Bool
  pub result_text : Option String
  pub stdout : String
  pub stderr : String
  pub duration : ℕ
  pub refused_reason : Option String
  pub figures : List (String × String)

abbrev failed_payload : WorkerResult → Payload
failed_payload r = record {
  status = failed;
  stdout = r.stdout;
  stderr = r.stderr;
  duration = r.duration;
  refused_reason = r.refused_reason;
  result_json = none;
  figures = [];
}

-- `_execute_now`, behind the run of the sandbox.
unfoldable pub execute_now : WorkerResult → Payload
execute_now r = elim r.result_text [
  | none ↦ failed_payload r
  | some text ↦ if not r.ok then failed_payload r else record {
    status = succeeded;
    stdout = r.stdout;
    stderr = r.stderr;
    duration = r.duration;
    refused_reason = none;
    result_json = some text;
    figures = r.figures;
  }
]

-- `is_loopback`; `is_loopback_address` is that of ipaddress, false for what is no address.
unfoldable pub is_loopback : (String → Bool) → Option String → Bool
is_loopback is_loopback_address none = false
is_loopback is_loopback_address (some host) =
    truthy (some host) && (contains ("localhost" ∷ "::1" ∷ []) host || is_loopback_address host)

-- `require_token`: a set token must be shown, without one only local calls are let in.
unfoldable pub is_authorized :
    (String → Bool) → Option String → Option String → Option String → Bool
unfolding is_loopback
is_authorized is_loopback_address expected shown client = elim expected [
  | none ↦ is_loopback is_loopback_address client
  | some token ↦
      if token == ""
      then is_loopback is_loopback_address client
      else elim shown [ none ↦ false | some t ↦ truthy (some t) && t == token ]
]

pub data Reply : Type 0 where
  answered : Receipt → Reply
  raised : Error → Reply
  http : ℕ → Reply

-- A request to execute: when it claims, what its execution returns or raises, and when it is done.
pub record Request : Type 0 where
  pub authorized : Bool
  pub execution_id : String
  pub claimed_at : ℕ
  pub outcome : Result WorkerResult
  pub finished_at : ℕ

abbrev pub reply_receipt : String → Payload → Receipt
reply_receipt id payload = record {
  execution_id = id;
  status = payload.status;
  started_at = none;
  finished_at = none;
  payload = some payload;
}

abbrev pub internal_error : String → Payload
internal_error reason = record {
  status = failed;
  stdout = "";
  stderr = "";
  duration = 0;
  refused_reason = some reason;
  result_json = none;
  figures = [];
}

abbrev stored : Store → Result Store → Store
stored s (ok t) = t
stored s (err e) = s

-- `describe` is the text of what was raised.
module _ (describe : Error → String) where
  -- The execution itself; a failure is recorded before it is raised again.
  unfoldable pub execute_and_finish : Request → Store → Reply × Store
  unfolding execute_now finish
  execute_and_finish r s = elim r.outcome [
    | ok result ↦ (
      answered (reply_receipt r.execution_id (execute_now result)),
      stored s (finish r.finished_at r.execution_id (execute_now result) s),
    )
    | err e ↦
        (raised e, stored s (finish r.finished_at r.execution_id (internal_error (describe e)) s))
  ]

  -- Behind a claim that was not granted: what is recorded is returned, and nothing is run.
  unfoldable pub existing_or_execute : Request → Store → Result (Option Receipt) → Reply × Store
  unfolding execute_and_finish
  existing_or_execute r s (ok (some receipt)) = (answered receipt, s)
  existing_or_execute r s (ok none) = execute_and_finish r s
  existing_or_execute r s (err e) = (raised e, s)

  unfoldable pub claimed_or_existing : Request → Store → Result (Bool × Store) → Reply × Store
  unfolding existing_or_execute read
  claimed_or_existing r s (ok (true, t)) = execute_and_finish r t
  claimed_or_existing r s (ok (false, t)) = existing_or_execute r t (read r.execution_id t)
  claimed_or_existing r s (err e) = (raised e, s)

  -- `create_execution`; the sweep that it starts is a call of its own.
  unfoldable pub create_execution : Request → Store → Reply × Store
  unfolding claimed_or_existing claim
  create_execution r s =
      if not r.authorized
      then (http 401, s)
      else if not (is_ok (validate_execution_id r.execution_id))
      then (http 400, s)
      else claimed_or_existing r s (claim r.claimed_at r.execution_id s)

abbrev found_or_404 : Result (Option Receipt) → Reply
found_or_404 (ok (some receipt)) = answered receipt
found_or_404 (ok none) = http 404
found_or_404 (err e) = raised e

unfoldable pub get_execution : Bool → String → Store → Reply
unfolding read
get_execution authorized id s =
    if not authorized
    then http 401
    else if not (is_ok (validate_execution_id id))
    then http 400
    else found_or_404 (read id s)
