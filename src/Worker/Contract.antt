-- ===== src/Worker/Contract.antt =====
-- worker/store.py: the promise of the store, one lease for each execution, and that it keeps the promise.
use analysis_loop.Prelude.{
  ◌≡◌, refl, ap, sym, fun_ext, ◌+◌, ℕ, String, Bool, true, false, Option, none, some, List, [], ◌∷◌,
  Result, err, ok, arith, leb, ◌==◌, eq_iff, if◌then◌else◌, Bool-cases, inl, inr, is_ok, ◌⊎◌,
}
use analysis_loop.Worker.Store.{
  Payload, Receipt, holds, Directory, Store, retention_seconds, validate_execution_id, set, write,
  running_receipt, finished_receipt, is_over, claim, receipt_of, read, finish, sweep,
  claim_directory, can_claim, kept_or_none, is_execution_id,
}

-- An execution is free, leased since a time, or finished at a time.
pub data Phase : Type 0 where
  free : Phase
  leased : ℕ → Phase
  done : ℕ → Payload → Phase

-- What a request may ask, each at its time.
pub data Call : Type 0 where
  claims : String → Call
  finishes : String → Payload → Call
  reads : String → Call
  sweeps : Call

pub data Answer : Type 0 where
  granted : Bool → Answer
  found : Option Receipt → Answer
  nothing : Answer
  refused : Answer

abbrev answered : Store → Result (Bool × Store) → Answer × Store
answered s (ok (b, t)) = (granted b, t)
answered s (err e) = (refused, s)

abbrev found_or_refused : Store → Result (Option Receipt) → Answer × Store
found_or_refused s (ok r) = (found r, s)
found_or_refused s (err e) = (refused, s)

abbrev stored_or_refused : Store → Result Store → Answer × Store
stored_or_refused s (ok t) = (nothing, t)
stored_or_refused s (err e) = (refused, s)

-- A call on the store. One that raises leaves the store as it was.
unfoldable pub call : Store → ℕ × Call → Answer × Store
unfolding claim finish read sweep
call s (now, claims id) = answered s (claim now id s)
call s (now, finishes id payload) = stored_or_refused s (finish now id payload s)
call s (now, reads id) = found_or_refused s (read id s)
call s (now, sweeps) = (nothing, sweep now s)

unfoldable pub calls : Store → List (ℕ × Call) → List Answer × Store
unfolding call
calls s [] = ([], s)
calls s (c ∷ cs) =
    let (answer, t) = call s c in let (answers, u) = calls t cs in (answer ∷ answers, u)

-- The promise: a lease is given to a free execution, or to one whose lease ran out.
abbrev pub may_lease : ℕ → Phase → Bool
may_lease now free = true
may_lease now (leased since) = is_over now since
may_lease now (done at payload) = false

abbrev pub leased_now : ℕ → Phase → Phase
leased_now now p = if may_lease now p then leased now else p

abbrev pub receipt : String → Phase → Option Receipt
receipt id free = none
receipt id (leased since) = some (running_receipt since id)
receipt id (done at payload) = some (finished_receipt at id payload)

abbrev age : Phase → ℕ
age free = 0
age (leased since) = since
age (done at payload) = at

abbrev pub kept : ℕ → Phase → Phase
kept now p = if leb now (age p + retention_seconds) then p else free

abbrev pub Phases : Type 0
Phases = String → Phase

unfoldable pub change : Phases → String → Phase → Phases
change f id p = λ name. if id == name then p else f name

unfoldable pub promise : Phases → ℕ × Call → Answer × Phases
unfolding change validate_execution_id
promise f (now, claims id) =
    if is_ok (validate_execution_id id)
    then (granted (may_lease now (f id)), change f id (leased_now now (f id)))
    else (refused, f)
promise f (now, finishes id payload) =
    if is_ok (validate_execution_id id)
    then (nothing, change f id (done now payload))
    else (refused, f)
promise f (now, reads id) =
    if is_ok (validate_execution_id id) then (found (receipt id (f id)), f) else (refused, f)
promise f (now, sweeps) = (nothing, λ name. kept now (f name))

unfoldable pub promises : Phases → List (ℕ × Call) → List Answer × Phases
unfolding promise
promises f [] = ([], f)
promises f (c ∷ cs) =
    let (answer, g) = promise f c in let (answers, h) = promises g cs in (answer ∷ answers, h)

-- The directory of a phase.
abbrev pub encode : String → Phase → Option Directory
encode id free = none
encode id (leased since) = some (record { mtime = since; file = holds (running_receipt since id) })
encode id (done at payload) =
    some (record { mtime = at; file = holds (finished_receipt at id payload) })

abbrev pub concrete : Phases → Store
concrete f = λ id. encode id (f id)

pub can_claim-encode :
    (now : ℕ) (id : String) (p : Phase) → can_claim now (encode id p) ≡ may_lease now p
unfolding can_claim
can_claim-encode now id p = ground arith

pub receipt_of-encode : (id : String) (p : Phase) → receipt_of id (encode id p) ≡ receipt id p
unfolding receipt_of
receipt_of-encode id p = ground arith

kept-encode :
    (now : ℕ) (id : String) (p : Phase) → kept_or_none now (encode id p) ≡ encode id (kept now p)
kept-encode now id p = ground arith

pub set-concrete :
    (f : Phases) (id : String) (p : Phase)
    → set (concrete f) id (encode id p) ≡ concrete (change f id p)
unfolding set change
set-concrete f id p = fun_ext (λ name. elim (Bool-cases (id == name)) [
  | inl e ↦ rw e (ap (λ i. encode i p) ((eq_iff id name).0 e))
  | inr e ↦ rw e refl
])

pub change_same : (f : Phases) (id : String) → change f id (f id) ≡ f
unfolding change
change_same f id = fun_ext (λ name. elim (Bool-cases (id == name)) [
  | inl e ↦ rw e (ap f ((eq_iff id name).0 e))
  | inr e ↦ rw e refl
])

pub claim_refines :
    (now : ℕ) (id : String) (f : Phases)
    → claim_directory now id (concrete f)
      ≡ (may_lease now (f id), concrete (change f id (leased_now now (f id))))
unfolding claim_directory write
claim_refines now id f = elim (Bool-cases (may_lease now (f id))) [
  | inl e ↦
      rw (can_claim-encode now id (f id), e) (ap (λ t. (true, t)) (set-concrete f id (leased now)))
  | inr e ↦
      rw (can_claim-encode now id (f id), e)
        (ap (λ g. (false, concrete g)) (sym (change_same f id)))
]

abbrev implements : Answer × Phases → Answer × Store
implements (a, f) = (a, concrete f)

pub valid_cases :
    (id : String) → (validate_execution_id id ≡ ok id) ⊎ (is_ok (validate_execution_id id) ≡ false)
unfolding validate_execution_id
valid_cases id = elim (Bool-cases (is_execution_id id)) [
  | inl e ↦ inl (rw e refl)
  | inr e ↦ inr (rw e refl)
]

-- Each call on the store does what is promised of it.
pub call_refines : (f : Phases) (c : ℕ × Call) → call (concrete f) c ≡ implements (promise f c)
unfolding call promise
call_refines f (now, claims id) = elim (valid_cases id) [
  | inl e ↦ rw (e, claim_refines now id f) refl
  | inr e ↦ ground (arith, e)
]
call_refines f (now, finishes id payload) = elim (valid_cases id) [
  | inl e ↦ rw e (ap (λ t. (nothing, t)) (set-concrete f id (done now payload)))
  | inr e ↦ ground (arith, e)
]
call_refines f (now, reads id) = elim (valid_cases id) [
  | inl e ↦ rw (e, receipt_of-encode id (f id)) refl
  | inr e ↦ ground (arith, e)
]
call_refines f (now, sweeps) =
    ap (λ t. (nothing, t)) (fun_ext (λ name. kept-encode now name (f name)))

-- On any sequence of calls, the store answers what its promise answers, and ends in the directories of
-- the promised phases: the calls on one execution do not touch another.
pub calls_refine :
    (f : Phases) (cs : List (ℕ × Call))
    → calls (concrete f) cs ≡ ((promises f cs).0, concrete (promises f cs).1)
unfolding calls promises
calls_refine f [] = refl
calls_refine f (c ∷ cs) = rw (call_refines f c, calls_refine (promise f c).1 cs) refl
