-- ===== src/Llm/Goals.antt =====
-- llm/service_common.py: goals and verdicts from the answer of a model.
use analysis_loop.Prelude.{
  ℕ, zero, suc, ◌+◌, String, Bool, true, false, not, Option, none, some, List, [], ◌∷◌, map, filter,
  eqb, pos, negsuc, if◌then◌else◌, ◌==◌, ◌<>◌, strip, Result, ok, err, ◌>>=◌, type_error,
}
use Prim.Native.Nat.{◌/◌, ◌%◌}
use analysis_loop.Prelude.Sets.{contains, minus, sorted_set}
use analysis_loop.Json.{
  Json, null, bool, int, float, str, arr, obj, Items, nil, cons, Fields, find_field, is_end,
  eq_float, as_float,
}
use analysis_loop.Contracts.Planning.{SubGoal, is_open, still_open, validate_goal}
use analysis_loop.Orchestration.Planning.Verdicts.{Verdict}
use analysis_loop.Llm.Calls.{cut}

abbrev pub is_true : Json → Bool
is_true null = false
is_true (bool b) = b
is_true (int (pos n)) = not (eqb n 0)
is_true (int (negsuc n)) = true
is_true (float f) = not (eq_float f (as_float (pos 0)))
is_true (str s) = not (s == "")
is_true (arr nil) = false
is_true (arr _) = true
is_true (obj fs) = not (is_end fs)

-- The items of `raw.get(key) or []`. The items of a text and the keys of a dict are texts, which are
-- skipped by every loop over the items.
unfoldable pub items_of : Option Json → Result Items
unfolding eq_float
items_of none = ok nil
items_of (some (arr xs)) = ok xs
items_of (some (str _)) = ok nil
items_of (some (obj _)) = ok nil
items_of (some v) = if is_true v then err type_error else ok nil

-- A goal id that is looked up in a set; a list or a dict has no hash.
abbrev pub goal_key : Option Json → Result (Option String)
goal_key (some (str s)) = ok (some s)
goal_key (some (arr _)) = err type_error
goal_key (some (obj _)) = err type_error
goal_key _ = ok none

abbrev digits : List String
digits = "0" ∷ "1" ∷ "2" ∷ "3" ∷ "4" ∷ "5" ∷ "6" ∷ "7" ∷ "8" ∷ "9" ∷ []

digit_of : List String → ℕ → String
digit_of [] n = ""
digit_of (d ∷ ds) zero = d
digit_of (d ∷ ds) (suc n) = digit_of ds n

abbrev digit : ℕ → String
unfolding digit_of
digit n = digit_of digits n

-- The number in decimals; the fuel is the number, since each digit makes it smaller.
decimal_from : ℕ → ℕ → String
unfolding digit_of
decimal_from zero n = digit n
decimal_from (suc fuel) n =
    let front = decimal_from fuel (n / 10) in
    if eqb (n / 10) 0 then digit (n % 10) else front <> digit (n % 10)

unfoldable pub decimal : ℕ → String
unfolding decimal_from
decimal n = decimal_from n n

-- What the loop over the reviews of goals has collected.
pub record Reviewed : Type 0 where
  pub converged : List String
  pub abandoned : List String
  pub reasons : List String
  pub reviewed : List String

abbrev pub open_ids : List SubGoal → List String
open_ids goals = map (λ g. g.goal_id) (filter is_open goals)

abbrev pub join : String → List String → String
join sep [] = ""
join sep (t ∷ []) = t
join sep (t ∷ u ∷ ts) = t <> sep <> join sep (u ∷ ts)

-- `to_text` is str of a value that is no text, and `lower` is str.lower.
module _ (to_text : Json → String) (lower : String → String) where
  abbrev text_or_empty : Option Json → String
  text_or_empty none = ""
  text_or_empty (some (str s)) = s
  text_or_empty (some v) = if is_true v then to_text v else ""

  -- `str(d.get(key) or "")`.
  unfoldable pub text_at : String → Fields → String
  unfolding find_field eq_float
  text_at key fs = text_or_empty (find_field key fs)

  abbrev reason_of : String → Fields → String
  unfolding text_at
  reason_of id fs = id <> ": " <> cut 200 (text_at "reason" fs)

  abbrev pub is_verdict : String → Fields → Bool
  unfolding text_at
  is_verdict verdict fs = lower (text_at "verdict" fs) == verdict

  -- One review of a goal, in front of those that follow.
  unfoldable pub add_review : List String → Option String → Fields → Reviewed → Reviewed
  unfolding text_at
  add_review still none fs later = later
  add_review still (some id) fs later =
      if not (contains still id)
      then later
      else if is_verdict "converged" fs
      then record later {
        converged = id ∷ later.converged;
        reasons = reason_of id fs ∷ later.reasons;
        reviewed = id ∷ later.reviewed;
      }
      else if is_verdict "abandoned" fs
      then record later {
        abandoned = id ∷ later.abandoned;
        reasons = reason_of id fs ∷ later.reasons;
        reviewed = id ∷ later.reviewed;
      }
      else record later { reviewed = id ∷ later.reviewed }

  unfoldable pub review_goals : List String → Items → Result Reviewed
  unfolding find_field add_review
  review_goals still nil =
      ok (record { converged = []; abandoned = []; reasons = []; reviewed = [] })
  review_goals still (cons (obj fs) items) = do
    key ← goal_key (find_field "goal_id" fs)
    later ← review_goals still items
    ok (add_review still key fs later)
  review_goals still (cons _ items) = review_goals still items

  abbrev pub verdict_from : List String → Reviewed → Verdict
  verdict_from still r = record {
    finished = false;
    converged = r.converged;
    abandoned = r.abandoned;
    unreviewed = sorted_set (minus still r.reviewed);
    closing_note = cut 300 (join " / " r.reasons);
  }

  unfoldable pub goal_verdict : Fields → List SubGoal → Result Verdict
  unfolding find_field items_of review_goals
  goal_verdict raw goals = do
    items ← items_of (find_field "goal_review" raw)
    reviewed ← review_goals (open_ids goals) items
    ok (verdict_from (open_ids goals) reviewed)

  abbrev new_goal : ℕ → Fields → SubGoal
  unfolding text_at decimal
  new_goal n fs = record {
    goal_id = "g" <> decimal n;
    question = strip (text_at "question" fs);
    rationale = text_at "rationale" fs;
    success_criterion = text_at "success_criterion" fs;
    status = still_open;
    evidence_ids = [];
    closing_note = "";
  }

  -- The n-th item and those behind it.
  goals_from : ℕ → Items → Result (List SubGoal)
  unfolding text_at decimal validate_goal
  goals_from n nil = ok []
  goals_from n (cons (obj fs) items) =
      let rest = goals_from (suc n) items in
      if strip (text_at "question" fs) == ""
      then rest
      else validate_goal (new_goal n fs) >>= λ g. rest >>= λ gs. ok (g ∷ gs)
  goals_from n (cons _ items) = goals_from (suc n) items

  -- `parse_goals`: an item without a question is skipped, but it is counted.
  unfoldable pub parse_goals : Fields → ℕ → Result (List SubGoal)
  unfolding find_field items_of goals_from
  parse_goals raw start = items_of (find_field "sub_goals" raw) >>= goals_from (start + 1)
