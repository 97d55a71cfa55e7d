-- ===== src/Tests/Worker.antt =====
-- The theorems on the worker's store, at one execution; and two requests that take over a stale claim.
use analysis_loop.Prelude.{
  ◌+◌, ◌≡◌, refl, ℕ, String, true, false, some, none, List, [], ◌∷◌, ok, arith, Error,
}
use analysis_loop.Worker.Store.{Payload, succeeded, finished_receipt, validate_execution_id}
use analysis_loop.Worker.Contract.{
  Phases, free, Call, claims, finishes, reads, sweeps, granted, call, calls, promises, concrete,
  calls_refine,
}
use analysis_loop.Worker.Lease.{lease_exclusive}
use analysis_loop.Worker.App.{WorkerResult, Request, answered, create_execution}
use analysis_loop.Worker.Replies.{settled, settled_reply, create_settles, outcome_replayed}
use analysis_loop.Worker.Contract.{change, done}
use analysis_loop.Worker.Race.{World, Reach, start, owner, Event, turn, wait, act, run, one_owner}

abbrev nothing_yet : Phases
nothing_yet = λ id. free

abbrev payload : Payload
payload = record {
  status = succeeded;
  stdout = "out";
  stderr = "";
  duration = 1;
  refused_reason = none;
  result_json = some "{}";
  figures = [];
}

abbrev some_calls : List (ℕ × Call)
some_calls =
    (0, claims "a")
    ∷ (10, reads "a")
    ∷ (20, claims "b")
    ∷ (30, finishes "a" payload)
    ∷ (40, sweeps)
    ∷ (50, reads "a")
    ∷ []

calls_refine_example :
    calls (concrete nothing_yet) some_calls
    ≡ ((promises nothing_yet some_calls).0, concrete (promises nothing_yet some_calls).1)
calls_refine_example = calls_refine nothing_yet some_calls

lease_exclusive_example :
    (call
      (calls (concrete nothing_yet) ((5, claims "a") ∷ (10, sweeps) ∷ (20, claims "b") ∷ [])).1
      (7000, claims "a")).0
    ≡ granted false
unfolding call
lease_exclusive_example =
    lease_exclusive nothing_yet "a" 5 7000 ((10, sweeps) ∷ (20, claims "b") ∷ []) refl
      ((omega arith, omega arith), ((omega arith, omega arith), tt)) (omega arith, omega arith)

abbrev sandbox_result : WorkerResult
sandbox_result = record {
  ok = true;
  result_text = some "{}";
  stdout = "out";
  stderr = "";
  duration = 1;
  refused_reason = none;
  figures = [];
}

abbrev request : ℕ → Request
request claimed_at = record {
  authorized = true;
  execution_id = "a";
  claimed_at = claimed_at;
  outcome = ok sandbox_result;
  finished_at = claimed_at + 60;
}

abbrev text_of : Error → String
text_of e = "error"

create_settles_example : create_execution text_of (request 5) (concrete nothing_yet) ≡ (
  settled_reply (request 5),
  concrete (change nothing_yet "a" (done 65 (settled text_of (request 5)))),
)
unfolding validate_execution_id
create_settles_example = create_settles text_of nothing_yet (request 5) refl refl refl

outcome_replayed_example :
    let s =
      (calls
        (create_execution text_of (request 5) (concrete nothing_yet)).1
        ((100, reads "a") ∷ (20000, sweeps) ∷ [])).1 in
    create_execution text_of (request 21000) s
    ≡ (answered (finished_receipt 65 "a" (settled text_of (request 5))), s)
unfolding validate_execution_id
outcome_replayed_example =
    outcome_replayed text_of nothing_yet (request 5) (request 21000)
      ((100, reads "a") ∷ (20000, sweeps) ∷ []) refl refl refl refl refl
      (omega arith, (omega arith, tt))

abbrev claimed_once : World
claimed_once = (run "a" payload (turn 0 ∷ turn 1 ∷ turn 0 ∷ turn 1 ∷ [])).last

one_owner_example : ◌≡◌ {A = ℕ} 0 0
unfolding act
one_owner_example =
    one_owner "a" payload (run "a" payload (turn 0 ∷ turn 1 ∷ turn 0 ∷ turn 1 ∷ [])).reach
      (omega arith) 0 0 refl refl

-- A claim is two hours old, and two requests find it stale before one of them removes it.
abbrev taken_over : List Event
taken_over =
    turn 9
    ∷ turn 9
    ∷ wait 7201
    ∷ turn 0
    ∷ turn 0
    ∷ turn 1
    ∷ turn 1
    ∷ turn 0
    ∷ turn 0
    ∷ turn 0
    ∷ turn 1
    ∷ turn 1
    ∷ turn 1
    ∷ []

two_owners :
    (w : World) × Reach "a" payload (start "a" payload) w
    × (w.progress 0 ≡ owner)
    × (w.progress 1 ≡ owner)
unfolding act
two_owners = let r = run "a" payload taken_over in (r.last, r.reach, refl, refl)
