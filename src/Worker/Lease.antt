-- ===== src/Worker/Lease.antt =====
-- worker/store.py: a lease is exclusive for as long as it lasts.
use analysis_loop.Prelude.{
  ◌≡◌, refl, ap, sym, ◌∙◌, subst, ◌≤◌, ◌+◌, ℕ, String, true, false, List, [], ◌∷◌, All, arith, ◌==◌,
  eq_iff, Bool-cases, inl, inr, is_ok,
}
use analysis_loop.Worker.Store.{stale_running_seconds, validate_execution_id}
use analysis_loop.Worker.Contract.{
  Phase, free, leased, done, Call, claims, finishes, reads, sweeps, granted, call, calls, may_lease,
  leased_now, kept, Phases, change, promise, promises, concrete, call_refines, calls_refine,
}

-- The phase is no older than the lease.
abbrev IsHeld : ℕ → Phase → Type 0
IsHeld now free = ⊥
IsHeld now (leased since) = now ≤ since
IsHeld now (done at payload) = now ≤ at

-- A time at which a lease of `now` has not run out.
abbrev pub IsDuring : ℕ → ℕ → Type 0
IsDuring now t = (now ≤ t) × (t ≤ now + stale_running_seconds)

change-IsHeld :
    (now : ℕ) (f : Phases) (id j : String) (p : Phase)
    → IsHeld now (f id)
    → (IsHeld now (f j) → IsHeld now p)
    → IsHeld now (change f j p id)
unfolding change
change-IsHeld now f id j p h k = elim (Bool-cases (j == id)) [
  | inl e ↦ rw e (k (subst (λ i. IsHeld now (f i)) (sym ((eq_iff j id).0 e)) h))
  | inr e ↦ rw e h
]

leased-IsHeld : (now t : ℕ) (p : Phase) → now ≤ t → IsHeld now p → IsHeld now (leased_now t p)
leased-IsHeld now t p k h = ground arith

kept-IsHeld : (now t : ℕ) (p : Phase) → IsDuring now t → IsHeld now p → IsHeld now (kept t p)
kept-IsHeld now t p k h = ground arith

promise-IsHeld :
    (now : ℕ) (f : Phases) (id : String) (c : ℕ × Call)
    → IsDuring now c.0
    → IsHeld now (f id)
    → IsHeld now ((promise f c).1 id)
unfolding promise
promise-IsHeld now f id (t, claims j) k h = elim (Bool-cases (is_ok (validate_execution_id j))) [
  | inl e ↦
      rw e (change-IsHeld now f id j (leased_now t (f j)) h (λ g. leased-IsHeld now t (f j) k.0 g))
  | inr e ↦ rw e h
]
promise-IsHeld now f id (t, finishes j payload) k h =
    elim (Bool-cases (is_ok (validate_execution_id j))) [
      | inl e ↦ rw e (change-IsHeld now f id j (done t payload) h (λ g. k.0))
      | inr e ↦ rw e h
    ]
promise-IsHeld now f id (t, reads j) k h = elim (Bool-cases (is_ok (validate_execution_id j))) [
  | inl e ↦ rw e h
  | inr e ↦ rw e h
]
promise-IsHeld now f id (t, sweeps) k h = kept-IsHeld now t (f id) k h

promises-IsHeld :
    (now : ℕ) (f : Phases) (id : String) (cs : List (ℕ × Call))
    → All (λ c. IsDuring now c.0) cs
    → IsHeld now (f id)
    → IsHeld now ((promises f cs).1 id)
unfolding promises
promises-IsHeld now f id [] k h = h
promises-IsHeld now f id (c ∷ cs) k h =
    promises-IsHeld now (promise f c).1 id cs k.1 (promise-IsHeld now f id c k.0 h)

held_not_leased : (now t : ℕ) (p : Phase) → IsDuring now t → IsHeld now p → may_lease t p ≡ false
held_not_leased now t p k h = ground arith

granted-IsHeld :
    (f : Phases) (id : String) (now : ℕ)
    → (promise f (now, claims id)).0 ≡ granted true
    → (is_ok (validate_execution_id id) ≡ true) × IsHeld now ((promise f (now, claims id)).1 id)
unfolding promise change
granted-IsHeld f id now g = elim (Bool-cases (is_ok (validate_execution_id id))) [
  | inl e ↦ ground (arith, e, (eq_iff id id).1 refl)
  | inr e ↦ absurd (ground (arith, e))
]

held_refused :
    (now later : ℕ) (f : Phases) (id : String)
    → is_ok (validate_execution_id id) ≡ true
    → IsDuring now later
    → IsHeld now (f id)
    → (promise f (later, claims id)).0 ≡ granted false
unfolding promise
held_refused now later f id e k h = rw e (ap granted (held_not_leased now later (f id) k h))

-- When a claim is granted, no other claim of the same execution is granted for two hours, whatever is
-- claimed, finished, read and swept in between.
pub lease_exclusive :
    (f : Phases) (id : String) (now later : ℕ) (cs : List (ℕ × Call))
    → (call (concrete f) (now, claims id)).0 ≡ granted true
    → All (λ c. IsDuring now c.0) cs
    → IsDuring now later
    → (call (calls (concrete f) ((now, claims id) ∷ cs)).1 (later, claims id)).0 ≡ granted false
unfolding promises
lease_exclusive f id now later cs g during k =
    let first = sym (ap (λ x. x.0) (call_refines f (now, claims id))) ∙ g in
    let (valid, held) = granted-IsHeld f id now first in
    let after = promises f ((now, claims id) ∷ cs) in
    rw (calls_refine f ((now, claims id) ∷ cs), call_refines after.1 (later, claims id))
      (held_refused now later after.1 id valid k
        (promises-IsHeld now (promise f (now, claims id)).1 id cs during held))
