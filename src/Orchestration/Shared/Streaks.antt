-- ===== src/Orchestration/Shared/Streaks.antt =====
-- orchestration/nodes/_shared.py: what the error counter counts.
use analysis_loop.Prelude.{
  ℕ, suc, ◌+◌, String, ◌≡◌, refl, ap, false, not, ◌&&◌, none, some, List, [], ◌∷◌, map, filter,
  length, All, ◌==◌, eq_iff, arith, leb,
}
use analysis_loop.Prelude.Sets.{contains}
use analysis_loop.Prelude.Order.{sorted_set_canonical}
use analysis_loop.State.{State, ErrorRecord}
use analysis_loop.Orchestration.Shared.Defs.{
  join, streak_key, bump_error_streak, streak_count, is_stuck, stuck_threshold,
}

abbrev pub error_codes : List ErrorRecord → List String
error_codes errors = map (λ e. e.code) errors

contains-filter :
    (xs : List String) (c : String)
    → contains (filter (λ c. not (c == "")) xs) c ≡ (contains xs c && not (c == ""))
contains-filter [] c = refl
contains-filter (x ∷ xs) c =
    ground (arith, contains-filter xs c, eq_iff x c, eq_iff c "", eq_iff x "")

-- Two lists of errors with the same codes, the empty code aside, have the same key: neither the
-- order nor the repetition of errors counts, nor their messages.
pub streak_key_canonical :
    (a b : List ErrorRecord)
    → ((c : String) → (c == "") ≡ false → contains (error_codes a) c ≡ contains (error_codes b) c)
    → streak_key a ≡ streak_key b
unfolding streak_key
streak_key_canonical a b h = ap join (
    sorted_set_canonical (filter (λ c. not (c == "")) (error_codes a))
      (filter (λ c. not (c == "")) (error_codes b))
      λ c.
        ground (arith, h c, contains-filter (error_codes a) c, contains-filter (error_codes b) c))

-- The state after several failing steps in a row.
unfoldable pub record_errors : State → List (List ErrorRecord) → State
record_errors s [] = s
record_errors s (errors ∷ rest) =
    record_errors (record s { error_streak = bump_error_streak s errors }) rest

abbrev pub HasKey : String → List ErrorRecord → Type 0
HasKey key errors = streak_key errors ≡ key

bump_none :
    (s : State) (key : String) (errors : List ErrorRecord)
    → (key == "") ≡ false
    → HasKey key errors
    → s.error_streak ≡ none
    → bump_error_streak s errors ≡ some (record { key = key; count = 1 })
unfolding bump_error_streak
bump_none s key errors h e n = ground arith

bump_same :
    (s : State) (key : String) (n : ℕ) (errors : List ErrorRecord)
    → (key == "") ≡ false
    → HasKey key errors
    → s.error_streak ≡ some (record { key = key; count = n })
    → bump_error_streak s errors ≡ some (record { key = key; count = suc n })
unfolding bump_error_streak
bump_same s key n errors h e p = ground (arith, eq_iff key key)

count_from :
    (s : State) (key : String) (n : ℕ) (rest : List (List ErrorRecord))
    → (key == "") ≡ false
    → All (HasKey key) rest
    → s.error_streak ≡ some (record { key = key; count = n })
    → streak_count (record_errors s rest).error_streak ≡ n + length rest
unfolding record_errors
count_from s key n [] h hs e = omega (arith, ap streak_count e)
count_from s key n (errors ∷ rest) h hs e = omega (
  arith,
  count_from (record s { error_streak = bump_error_streak s errors }) key (suc n) rest h hs.1
      (bump_same s key n errors h hs.0 e),
)

-- After the reset of a new intent, failures with one and the same key are counted exactly, and the
-- cycle counts as stuck exactly when there were `stuck_threshold` of them.
pub stuck_exactly :
    (s : State) (key : String) (failures : List (List ErrorRecord))
    → (key == "") ≡ false
    → All (HasKey key) failures
    → s.error_streak ≡ none
    → (streak_count (record_errors s failures).error_streak ≡ length failures)
      × (is_stuck (record_errors s failures) ≡ leb stuck_threshold (length failures))
unfolding record_errors
stuck_exactly s key [] h hs e = ground arith
stuck_exactly s key (errors ∷ rest) h hs e =
    let counted : streak_count (record_errors s (errors ∷ rest)).error_streak ≡ suc (length rest) =
      omega (
        arith,
        count_from (record s { error_streak = bump_error_streak s errors }) key 1 rest h hs.1
            (bump_none s key errors h hs.0 e),
      ) in
    (counted, ap (leb stuck_threshold) counted)
