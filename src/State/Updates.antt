-- ===== src/State/Updates.antt =====
-- state.py: updates one after the other.
use analysis_loop.Prelude.{◌≡◌, refl, [], ◌∷◌, ◌++◌}
use analysis_loop.State.Defs.{State, Update, assign, apply}

pub apply-append : (s : State) (u w : Update) → apply s (u ++ w) ≡ apply (apply s u) w
apply-append s [] w = refl
apply-append s (a ∷ u) w = apply-append (assign s a) u w
