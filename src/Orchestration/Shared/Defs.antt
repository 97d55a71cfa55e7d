-- ===== src/Orchestration/Shared/Defs.antt =====
-- orchestration/nodes/_shared.py.
use analysis_loop.Prelude.{
  ℕ, suc, String, Bool, not, Option, none, some, List, [], ◌∷◌, map, filter, ◌==◌, leb,
  if◌then◌else◌, ◌<>◌,
}
use analysis_loop.Prelude.Sets.{sorted_set}
use analysis_loop.State.{State, ErrorRecord, Streak}

abbrev pub max_static_repairs : ℕ
max_static_repairs = 5

abbrev pub max_runtime_repairs : ℕ
max_runtime_repairs = 1

abbrev pub stuck_threshold : ℕ
stuck_threshold = 5

-- `sorted({codes} - {""})`.
unfoldable pub streak_codes : List ErrorRecord → List String
streak_codes errors = sorted_set (filter (λ c. not (c == "")) (map (λ e. e.code) errors))

join_rest : String → List String → String
join_rest c [] = c
join_rest c (d ∷ ds) = c <> "," <> join_rest d ds

-- `",".join(codes)`.
unfoldable pub join : List String → String
unfolding join_rest
join [] = ""
join (c ∷ cs) = join_rest c cs

unfoldable pub streak_key : List ErrorRecord → String
unfolding streak_codes join
streak_key errors = join (streak_codes errors)

-- `count + 1` after the same key, 1 after another.
unfoldable pub bump : Option Streak → String → Option Streak
bump none key = some (record { key = key; count = 1 })
bump (some previous) key =
    if previous.key == key
    then some (record { key = key; count = suc previous.count })
    else some (record { key = key; count = 1 })

-- Errors without a code leave no streak.
unfoldable pub bump_error_streak : State → List ErrorRecord → Option Streak
unfolding bump
bump_error_streak s errors =
    let key = streak_key errors in if key == "" then none else bump s.error_streak key

abbrev pub streak_count : Option Streak → ℕ
streak_count none = 0
streak_count (some k) = k.count

abbrev pub is_stuck : State → Bool
is_stuck s = leb stuck_threshold (streak_count s.error_streak)
