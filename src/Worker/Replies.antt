-- ===== src/Worker/Replies.antt =====
-- worker/app.py: an execution is run once, and its outcome is returned for as long as it is kept.
use analysis_loop.Prelude.{
  Result-cases, ◌≡◌, refl, ap, sym, ◌∙◌, fun_ext, ◌≤◌, ◌+◌, ℕ, String, true, false, List, [], ◌∷◌,
  All, err, ok, Error, arith, ◌==◌, eq_iff, Bool-cases, inl, inr, is_ok,
}
use analysis_loop.Worker.Store.{
  retention_seconds, Payload, validate_execution_id, write, read, finished_receipt,
}
use analysis_loop.Worker.Contract.{
  Phase, leased, done, Call, claims, finishes, reads, sweeps, calls, may_lease, receipt, Phases,
  change, promise, promises, concrete, calls_refine, change_same, set-concrete, claim_refines,
  valid_cases, receipt_of-encode,
}
use analysis_loop.Worker.App.{
  Reply, answered, raised, Request, execute_now, internal_error, reply_receipt, execute_and_finish,
  create_execution,
}

-- What a request leaves behind: its result, or that it failed and why.
abbrev pub settled : (Error → String) → Request → Payload
settled describe r = elim r.outcome [
  | ok result ↦ execute_now result
  | err e ↦ internal_error (describe e)
]

abbrev pub settled_reply : Request → Reply
settled_reply r = elim r.outcome [
  | ok result ↦ answered (reply_receipt r.execution_id (execute_now result))
  | err e ↦ raised e
]

set_twice : (f : Phases) (id : String) (p q : Phase) → change (change f id p) id q ≡ change f id q
unfolding change
set_twice f id p q =
    fun_ext (λ name. elim (Bool-cases (id == name)) [ inl e ↦ rw e refl | inr e ↦ rw e refl ])

valid_ok :
    (id : String) → is_ok (validate_execution_id id) ≡ true → validate_execution_id id ≡ ok id
valid_ok id h = elim (valid_cases id) [ inl e ↦ e | inr e ↦ absurd (ground arith) ]

same :
    (f : Phases) (id : String) (at : ℕ) (payload : Payload)
    → f id ≡ done at payload
    → change f id (done at payload) ≡ f
same f id at payload d = ap (λ p. change f id p) (sym d) ∙ change_same f id

change_at : (f : Phases) (id : String) (p : Phase) → change f id p id ≡ p
unfolding change
change_at f id p = rw ((eq_iff id id).1 refl) refl

read_refines :
    (f : Phases) (id : String)
    → validate_execution_id id ≡ ok id
    → read id (concrete f) ≡ ok (receipt id (f id))
unfolding read
read_refines f id e = rw (e, receipt_of-encode id (f id)) refl

-- A call that neither finishes the execution nor comes after the limit.
abbrev pub Leaves : String → ℕ → ℕ × Call → Type 0
Leaves id limit (t, claims j) = t ≤ limit
Leaves id limit (t, finishes j payload) = (t ≤ limit) × (j == id ≡ false)
Leaves id limit (t, reads j) = t ≤ limit
Leaves id limit (t, sweeps) = t ≤ limit

promise_keeps :
    (f : Phases) (id : String) (at : ℕ) (payload : Payload) (c : ℕ × Call)
    → Leaves id (at + retention_seconds) c
    → f id ≡ done at payload
    → (promise f c).1 id ≡ done at payload
unfolding promise change
promise_keeps f id at payload (t, claims j) k d =
    elim (Bool-cases (is_ok (validate_execution_id j))) [
      | inl v ↦ elim (Bool-cases (j == id)) [
        | inl e ↦ ground (arith, v, e, d, ap f ((eq_iff j id).0 e))
        | inr e ↦ ground (arith, v, e, d)
      ]
      | inr v ↦ ground (arith, v, d)
    ]
promise_keeps f id at payload (t, finishes j q) k d = ground (arith, k.1, d)
promise_keeps f id at payload (t, reads j) k d = ground (arith, d)
promise_keeps f id at payload (t, sweeps) k d = ground (arith, d, k)

promises_keep :
    (f : Phases) (id : String) (at : ℕ) (payload : Payload) (cs : List (ℕ × Call))
    → All (Leaves id (at + retention_seconds)) cs
    → f id ≡ done at payload
    → (promises f cs).1 id ≡ done at payload
unfolding promises
promises_keep f id at payload [] k d = d
promises_keep f id at payload (c ∷ cs) k d =
    promises_keep (promise f c).1 id at payload cs k.1 (promise_keeps f id at payload c k.0 d)

module _ (describe : Error → String) where
  finish_refines :
      (f : Phases) (r : Request)
      → validate_execution_id r.execution_id ≡ ok r.execution_id
      → execute_and_finish describe r (concrete f) ≡ (
        settled_reply r,
        concrete (change f r.execution_id (done r.finished_at (settled describe r))),
      )
  unfolding execute_and_finish write
  finish_refines f r e = elim (Result-cases r.outcome) [
    | inl (v, h) ↦
        rw (h, e)
          (ap (λ t. (answered (reply_receipt r.execution_id (execute_now v)), t))
            (set-concrete f r.execution_id (done r.finished_at (execute_now v))))
    | inr (x, h) ↦
        rw (h, e)
          (ap (λ t. (raised x, t))
            (set-concrete f r.execution_id (done r.finished_at (internal_error (describe x)))))
  ]

  -- An authorized request for an execution that is free, or whose lease ran out, runs it, and leaves
  -- it finished: with its result, or as failed with what was raised, which is raised again.
  pub create_settles :
      (f : Phases) (r : Request)
      → r.authorized ≡ true
      → is_ok (validate_execution_id r.execution_id) ≡ true
      → may_lease r.claimed_at (f r.execution_id) ≡ true
      → create_execution describe r (concrete f) ≡ (
        settled_reply r,
        concrete (change f r.execution_id (done r.finished_at (settled describe r))),
      )
  unfolding create_execution
  create_settles f r a v m =
      let id = r.execution_id in
      let e = valid_ok id v in
      let leasing = change f id (leased r.claimed_at) in
      rw (a, e, claim_refines r.claimed_at id f, m)
        (finish_refines leasing r e
          ∙ ap (λ g. (settled_reply r, concrete g))
              (set_twice f id (leased r.claimed_at) (done r.finished_at (settled describe r))))

  -- A request for a finished execution is answered with what is recorded, and changes nothing.
  create_replays :
      (f : Phases) (r : Request) (at : ℕ) (payload : Payload)
      → r.authorized ≡ true
      → is_ok (validate_execution_id r.execution_id) ≡ true
      → f r.execution_id ≡ done at payload
      → create_execution describe r (concrete f)
        ≡ (answered (finished_receipt at r.execution_id payload), concrete f)
  unfolding create_execution
  create_replays f r at payload a v d =
      let id = r.execution_id in
      rw
        (
          a,
          valid_ok id v,
          claim_refines r.claimed_at id f,
          d,
          same f id at payload d,
          read_refines f id (valid_ok id v),
          d,
        )
        refl

  -- Once a request has run an execution, a later request for it is answered with the recorded outcome
  -- and does not run it again, for six hours and whatever is claimed, read and swept in between.
  pub outcome_replayed :
      (f : Phases) (first second : Request) (cs : List (ℕ × Call))
      → first.authorized ≡ true
      → second.authorized ≡ true
      → is_ok (validate_execution_id first.execution_id) ≡ true
      → second.execution_id ≡ first.execution_id
      → may_lease first.claimed_at (f first.execution_id) ≡ true
      → All (Leaves first.execution_id (first.finished_at + retention_seconds)) cs
      → let s = (calls (create_execution describe first (concrete f)).1 cs).1 in
        create_execution describe second s ≡ (
          answered (finished_receipt first.finished_at first.execution_id (settled describe first)),
          s,
        )
  outcome_replayed f first second cs a b v same_id m leaves =
      let id = first.execution_id in
      let payload = settled describe first in
      let g = change f id (done first.finished_at payload) in
      let h = (promises g cs).1 in
      let finished = promises_keep g id first.finished_at payload cs leaves (change_at f id _) in
      rw (create_settles f first a v m, calls_refine g cs)
        (create_replays h second first.finished_at payload b (rw same_id v)
            (ap h same_id ∙ finished)
          ∙ ap (λ i. (answered (finished_receipt first.finished_at i payload), concrete h)) same_id)
