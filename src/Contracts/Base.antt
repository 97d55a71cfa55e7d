-- ===== src/Contracts/Base.antt =====
-- contract_models/base.py, and what a process draws from its environment: ids, hashes, case folding.
use analysis_loop.Prelude.{
  ℕ, String, Bool, true, false, List, [], ◌∷◌, ◌&&◌, ◌||◌, leb, eqb, all, length, Result, ok, err,
  value_error, lit, arg, codes, if◌then◌else◌,
}
use analysis_loop.Json.{Fields, eq_json, str, obj}

abbrev pub schema_version : ℕ
schema_version = 9

-- `str | dict[str, Any]`.
pub data DescriptionItem : Type 0 where
  text : String → DescriptionItem
  item : Fields → DescriptionItem

unfoldable pub eq_description : DescriptionItem → DescriptionItem → Bool
unfolding eq_json
eq_description (text s) (text t) = eq_json (str s) (str t)
eq_description (item a) (item b) = eq_json (obj a) (obj b)
eq_description _ _ = false

unfoldable pub eq_descriptions : List DescriptionItem → List DescriptionItem → Bool
unfolding eq_description
eq_descriptions [] [] = true
eq_descriptions (x ∷ xs) (y ∷ ys) = eq_description x y && eq_descriptions xs ys
eq_descriptions _ _ = false

pub data DataApplicability : Type 0 where
  exact_snapshot revalidation_required incompatible_schema unknown : DataApplicability

abbrev pub is_exact : DataApplicability → Bool
is_exact exact_snapshot = true
is_exact _ = false

is_alphanumeric : ℕ → Bool
is_alphanumeric c = leb b'A' c && leb c b'Z' || leb b'a' c && leb c b'z' || leb b'0' c && leb c b'9'

unfoldable pub is_id_char : ℕ → Bool
unfolding is_alphanumeric
is_id_char c = is_alphanumeric c || eqb c b'_' || eqb c b'-'

-- `RUN_ID_PATTERN.fullmatch`.
pub matches_run_id : List ℕ → Bool
unfolding is_id_char
matches_run_id [] = false
matches_run_id (c ∷ cs) = is_alphanumeric c && all is_id_char cs && leb (length cs) 63

unfoldable pub validate_run_id : String → Result String
unfolding matches_run_id
validate_run_id value =
    if matches_run_id (codes value)
    then ok value
    else err
        (value_error (lit "run_id는 영문·숫자로 시작하고 영문·숫자·밑줄·하이픈만 쓸 수 있다(최대 64자): " ∷ arg value ∷ []))
