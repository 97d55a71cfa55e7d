-- ===== src/Tests/Llm.antt =====
-- The theorem on proposals, at an answer that closes the only open goal; and goals with one id.
use analysis_loop.Prelude.{
  ◌≡◌, refl, strip, String, true, some, none, List, [], ◌∷◌, Result, ok, err, map,
}
use analysis_loop.Prelude.Sets.{sorted_set}
use analysis_loop.Json.{Json, Items, Fields, str, arr, obj, nil, cons, end, field, find_field}
use analysis_loop.Contracts.Planning.{SubGoal, ResearchIntent}
use analysis_loop.Contracts.Runtime.{ServiceResult}
use analysis_loop.Orchestration.Planning.Nodes.{PlannerProposal}
use analysis_loop.Llm.Calls.{Answer, answered, refused, validation_error}
use analysis_loop.Llm.Goals.{parse_goals, items_of}
use analysis_loop.Llm.Planner.{propose}
use analysis_loop.Llm.Proposed.{IsExact}
use analysis_loop.Llm.Closing.{IsClosing, propose-IsExact}
use analysis_loop.Tests.Data.{sample_goal}

abbrev to_text : Json → String
to_text v = "value"

abbrev lower : String → String
lower s = s

abbrev unread : Fields → Answer ResearchIntent
unread raw =
    refused (record { raised = validation_error; name = "ValidationError"; text = "question" })

abbrev reviews : Items
reviews =
    cons (str "text")
      (cons (obj (field "goal_id" (str "g1") (field "verdict" (str "converged") end))) nil)

abbrev answer : Fields
answer = field "goal_review" (arr reviews) end

abbrev closing : PlannerProposal
closing = record {
  intent = none;
  verdict = record {
    finished = true;
    converged = "g1" ∷ [];
    abandoned = [];
    unreviewed = [];
    closing_note = "g1: ";
  };
}

abbrev closed : ServiceResult PlannerProposal
closed = record { value = some closing; error = none; failure_kind = none; reason = none }

closed_lem : propose to_text lower unread (sample_goal ∷ []) (answered answer) ≡ ok closed
unfolding propose sorted_set
closed_lem = refl

propose-IsExact_example :
    (items : Items) × (items_of (find_field "goal_review" answer) ≡ ok items)
    × IsExact (sample_goal ∷ []) items closing.verdict
    × (closing.verdict.finished ≡ true → IsClosing (sample_goal ∷ []) closing)
propose-IsExact_example =
    propose-IsExact to_text lower unread (sample_goal ∷ []) answer closed closing closed_lem refl

abbrev ids : Result (List SubGoal) → List String
ids (ok goals) = map (λ g. g.goal_id) goals
ids (err e) = []

abbrev item : String → Json
item question = obj (field "question" (str question) end)

-- The second goal of an answer whose first item is blank, and the goal of an expansion of it.
abbrev first_goals : Fields
first_goals = field "sub_goals" (arr (cons (item " ") (cons (item "why") nil))) end

abbrev more_goals : Fields
more_goals = field "sub_goals" (arr (cons (item "how") nil)) end

ids_clash :
    ids (parse_goals to_text lower first_goals 0) ≡ ids (parse_goals to_text lower more_goals 1)
unfolding parse_goals strip
ids_clash = refl
