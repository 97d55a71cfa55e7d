-- ===== src/Worker/Race.antt =====
-- worker/store.py: several workers claim one execution at once. Each step is one call on the file system.
use analysis_loop.Prelude.{
  ◌≡◌, refl, ◌≤◌, ◌+◌, ℕ, String, Bool, true, false, Option, none, some, List, [], ◌∷◌, arith, eqb,
  if◌then◌else◌, Bool-cases, inl, inr, is_some, ◌⊎◌,
}
use analysis_loop.Worker.Store.{
  Directory, missing, holds, is_stale, kept_or_none, running_receipt, finished_receipt, Payload,
  stale_running_seconds,
}

-- How far a request has come: in the body of `claim` it has met a directory, found it stale, removed
-- it, or made its own; then it owns the execution, and at last it has finished.
pub data Progress : Type 0 where
  starting collided expired removed made owner finished refused : Progress

abbrev pub holds_claim : Progress → Bool
holds_claim made = true
holds_claim owner = true
holds_claim finished = true
holds_claim _ = false

pub record World : Type 0 where
  pub clock : ℕ
  pub directory : Option Directory
  pub progress : ℕ → Progress

-- A schedule: a request by its number makes a call, or so much time passes.
pub data Event : Type 0 where
  turn : ℕ → Event
  wait : ℕ → Event

module _ (id : String) (payload : Payload) where
  -- The next call of one request: what it does to its progress, and to the directory.
  unfoldable pub next_call : ℕ → Progress → Option Directory → Progress × Option Directory
  unfolding is_stale
  next_call now starting none = (made, some (record { mtime = now; file = missing }))
  next_call now starting (some d) = (collided, some d)
  next_call now collided none = (refused, none)
  next_call now collided (some d) = (if is_stale now d then expired else refused, some d)
  next_call now expired d = (removed, none)
  next_call now removed none = (made, some (record { mtime = now; file = missing }))
  next_call now removed (some d) = (refused, some d)
  next_call now made d =
      (owner, some (record { mtime = now; file = holds (running_receipt now id) }))
  next_call now owner d =
      (finished, some (record { mtime = now; file = holds (finished_receipt now id payload) }))
  next_call now finished d = (finished, d)
  next_call now refused d = (refused, d)

  unfoldable pub act : ℕ → World → World
  unfolding next_call
  act i w =
      let (p, d) = next_call w.clock (w.progress i) w.directory in
      record w { directory = d; progress = λ j. if eqb i j then p else w.progress j }

  -- Time passes, a request makes its next call, or a sweep comes by.
  pub data Step : World → World → Type 0 where
    tick : (w : World) (n : ℕ) → Step w (record w { clock = w.clock + n })
    acts : (w : World) (i : ℕ) → Step w (act i w)
    sweeps : (w : World) → Step w (record w { directory = kept_or_none w.clock w.directory })

  pub data Reach (s : World) : World → Type 0 where
    here : Reach s s
    next : {t u : World} → Reach s t → Step t u → Reach s u

  abbrev pub start : World
  start = record { clock = 0; directory = none; progress = λ i. starting }

  abbrev is_taking : Progress → Bool
  is_taking expired = true
  is_taking removed = true
  is_taking _ = false

  -- One request holds the claim, and its directory is there; none takes a claim over.
  record IsExclusive (w : World) : Type 0 where
    unique :
        (i j : ℕ) → holds_claim (w.progress i) ≡ true → holds_claim (w.progress j) ≡ true → i ≡ j
    there : (i : ℕ) → holds_claim (w.progress i) ≡ true → is_some w.directory ≡ true
    patient : (i : ℕ) → is_taking (w.progress i) ≡ false

  start-IsExclusive : IsExclusive start
  start-IsExclusive = record {
    unique = λ i j h k. ground arith;
    there = λ i h. ground arith;
    patient = λ i. refl;
  }

  not_stale : (now : ℕ) (d : Directory) → now ≤ stale_running_seconds → is_stale now d ≡ false
  unfolding is_stale
  not_stale now d h = ground arith

  -- What a call may change while no directory is stale.
  record IsCareful (now : ℕ) (old : Progress) (dir : Option Directory) : Type 0 where
    patient : is_taking (next_call now old dir).0 ≡ false
    fresh : holds_claim (next_call now old dir).0 ≡ true → (holds_claim old ≡ true) ⊎ (dir ≡ none)
    stays : is_some dir ≡ true → is_some (next_call now old dir).1 ≡ true
    made : holds_claim (next_call now old dir).0 ≡ true → is_some (next_call now old dir).1 ≡ true

  next_call-IsCareful :
      (now : ℕ) (old : Progress) (dir : Option Directory)
      → now ≤ stale_running_seconds
      → is_taking old ≡ false
      → (holds_claim old ≡ true → is_some dir ≡ true)
      → IsCareful now old dir
  unfolding next_call
  next_call-IsCareful now old none h k there = record {
    patient = ground arith;
    fresh = λ m. ground arith;
    stays = λ m. ground arith;
    made = λ m. ground arith;
  }
  next_call-IsCareful now old (some d) h k there = record {
    patient = ground (arith, not_stale now d h);
    fresh = λ m. ground (arith, not_stale now d h);
    stays = λ m. ground (arith, not_stale now d h);
    made = λ m. ground (arith, not_stale now d h);
  }

  act-IsExclusive :
      (w : World) (i : ℕ) → w.clock ≤ stale_running_seconds → IsExclusive w → IsExclusive (act i w)
  unfolding act
  act-IsExclusive w i h inv = record {
    unique = λ a b m n. elim (Bool-cases (eqb i a)) [
      | inl e ↦ elim (Bool-cases (eqb i b)) [
        | inl f ↦ ground arith
        | inr f ↦ ground (arith, careful.fresh, inv.unique i b, inv.there b)
      ]
      | inr e ↦ elim (Bool-cases (eqb i b)) [
        | inl f ↦ ground (arith, careful.fresh, inv.unique a i, inv.there a)
        | inr f ↦ ground (arith, inv.unique a b)
      ]
    ];
    there = λ a m. elim (Bool-cases (eqb i a)) [
      | inl e ↦ ground (arith, careful.made)
      | inr e ↦ ground (arith, careful.stays, inv.there a)
    ];
    patient = λ a. elim (Bool-cases (eqb i a)) [
      | inl e ↦ ground (arith, careful.patient)
      | inr e ↦ ground (arith, inv.patient a)
    ];
  }
    where
      careful : IsCareful w.clock (w.progress i) w.directory
      careful =
          next_call-IsCareful w.clock (w.progress i) w.directory h (inv.patient i) (inv.there i)

  sweep_keeps :
      (now : ℕ) (dir : Option Directory) → now ≤ stale_running_seconds → kept_or_none now dir ≡ dir
  sweep_keeps now dir h = ground arith

  Step-IsExclusive :
      {w u : World} → Step w u → u.clock ≤ stale_running_seconds → IsExclusive w → IsExclusive u
  unfolding act
  Step-IsExclusive (tick w n) h inv = record {
    unique = inv.unique;
    there = inv.there;
    patient = inv.patient;
  }
  Step-IsExclusive (acts w i) h inv = act-IsExclusive w i h inv
  Step-IsExclusive (sweeps w) h inv = record {
    unique = inv.unique;
    there = λ i m. rw (sweep_keeps w.clock w.directory h) (inv.there i m);
    patient = inv.patient;
  }

  -- Time does not run back.
  Step-clock : {w u : World} → Step w u → w.clock ≤ u.clock
  unfolding act
  Step-clock (tick w n) = omega arith
  Step-clock (acts w i) = omega arith
  Step-clock (sweeps w) = omega arith

  Reach-IsExclusive : {w : World} → Reach start w → w.clock ≤ stale_running_seconds → IsExclusive w
  Reach-IsExclusive here h = start-IsExclusive
  Reach-IsExclusive (next r s) h =
      Step-IsExclusive s h (Reach-IsExclusive r (omega (arith, Step-clock s)))

  -- However the calls of the requests, the sweeps and the time interleave: in the first two hours
  -- after there was no directory, at most one request holds the execution.
  pub one_owner :
      {w : World}
      → Reach start w
      → w.clock ≤ stale_running_seconds
      → (i j : ℕ) → holds_claim (w.progress i) ≡ true
      → holds_claim (w.progress j) ≡ true
      → i ≡ j
  one_owner r h = (Reach-IsExclusive r h).unique

  pub record Run : Type 0 where
    pub last : World
    pub reach : Reach start last

  abbrev happen : Run → Event → Run
  happen r (turn i) = record { last = act i r.last; reach = next r.reach (acts r.last i) }
  happen r (wait n) = record { last = _; reach = next r.reach (tick r.last n) }

  abbrev pub run_from : Run → List Event → Run
  run_from r [] = r
  run_from r (e ∷ es) = run_from (happen r e) es

  abbrev pub run : List Event → Run
  run es = run_from (record { last = start; reach = here }) es
