-- ===== src/Validation/Program/Lint.antt =====
-- validation/codelint.py, and extract_referenced_columns of manifest_checks.py.
use Prim.Native.Char.{code}
use analysis_loop.Prelude.{
  ℕ, String, Bool, true, false, not, ◌&&◌, Option, none, some, List, [], ◌∷◌, ◌++◌, if◌then◌else◌,
  ◌==◌, eqb, Message, lit, arg, num,
}
use analysis_loop.Prelude.Sets.{contains}
use analysis_loop.Validation.References.{Issue, fatal, repairable}
use analysis_loop.Validation.Issues.{issue}
use analysis_loop.Validation.Program.Tree.{
  Kind, imports, imports_from, named, attribute, text, function, Trees, no_trees, more, node,
  Parsed, parsed, syntax_error, walk,
}

abbrev pub allowed_imports : List String
allowed_imports =
    "pandas" ∷ "numpy" ∷ "scipy" ∷ "sklearn" ∷ "statsmodels" ∷ "math" ∷ "statistics" ∷ "matplotlib"
    ∷ "tqdm" ∷ "json" ∷ "xgboost" ∷ "lightgbm" ∷ "linearmodels" ∷ "mlxtend" ∷ "ruptures" ∷ []

abbrev pub banned_names : List String
banned_names =
    "eval" ∷ "exec" ∷ "compile" ∷ "open" ∷ "__import__" ∷ "globals" ∷ "locals" ∷ "vars" ∷ "getattr"
    ∷ "setattr" ∷ "delattr" ∷ "input" ∷ "breakpoint" ∷ "exit" ∷ "quit" ∷ []

abbrev pub banned_attributes : List String
banned_attributes =
    "__class__" ∷ "__bases__" ∷ "__subclasses__" ∷ "__globals__" ∷ "__code__" ∷ "__dict__"
    ∷ "__builtins__" ∷ "__mro__" ∷ "__reduce__" ∷ "__getattribute__" ∷ "system" ∷ "popen"
    ∷ "environ" ∷ "modules" ∷ "urlopen" ∷ "read_pickle" ∷ "to_pickle" ∷ "read_csv" ∷ "to_csv"
    ∷ "read_parquet" ∷ "to_parquet" ∷ "read_json" ∷ "to_json" ∷ "read_excel" ∷ "to_excel"
    ∷ "read_feather" ∷ "to_feather" ∷ "read_hdf" ∷ "to_hdf" ∷ "os" ∷ "sys" ∷ "subprocess" ∷ "socket"
    ∷ "shutil" ∷ "pathlib" ∷ "importlib" ∷ "ctypes" ∷ "builtins" ∷ "codecs" ∷ "io" ∷ "urllib"
    ∷ "requests" ∷ "pickle" ∷ []

-- `name.split(".")[0]`.
pub top_module : String → String
top_module String.[] = String.[]
top_module (String.◌∷◌ c s) =
    let rest = top_module s in if eqb (code c) b'.' then String.[] else String.◌∷◌ c rest

abbrev name_or_empty : Option String → String
name_or_empty none = ""
name_or_empty (some m) = m

-- `ast.Import` of a name, and `ast.ImportFrom`; a relative import is not allowed.
unfoldable pub may_import : String → Bool
unfolding top_module
may_import name = contains allowed_imports (top_module name)

unfoldable pub may_import_from : ℕ → Option String → Bool
unfolding may_import
may_import_from level origin = eqb level 0 && may_import (name_or_empty origin)

-- The first function of a name that stands in the module itself, by the number of its arguments.
unfoldable pub entrypoint : String → Trees → Option ℕ
entrypoint name no_trees = none
entrypoint name (more (node kind children) ts) =
    let rest = entrypoint name ts in
    elim kind [ function f args ↦ if f == name then some args else rest | _ ↦ rest ]

module _ (print : Message → String) where
  unfoldable pub entrypoint_issues : Trees → String → List Issue
  unfolding entrypoint issue
  entrypoint_issues body name = elim (entrypoint name body) [
    | none ↦ issue print repairable true "missing_entrypoint" (arg name ∷ lit "(df) 함수가 없다." ∷ [])
    | some args ↦
        issue print repairable (not (eqb args 1)) "bad_signature"
          (arg name ∷ lit "은 인자를 정확히 1개(df) 받아야 한다 (실제 " ∷ num args ∷ lit "개)." ∷ [])
  ]

  unfoldable pub import_issues : List String → List Issue
  unfolding issue may_import
  import_issues [] = []
  import_issues (name ∷ names) =
      issue print repairable (not (may_import name)) "import_not_allowed"
        (lit "허용되지 않은 import: " ∷ arg name ∷ [])
      ++ import_issues names

  abbrev module_text : Option String → String
  module_text none = "None"
  module_text (some m) = m

  unfoldable pub node_issues : Kind → List Issue
  unfolding import_issues may_import_from issue
  node_issues (imports names) = import_issues names
  node_issues (imports_from level origin) =
      issue print repairable (not (may_import_from level origin)) "import_not_allowed"
        (lit "허용되지 않은 import: " ∷ arg (module_text origin) ∷ [])
  node_issues (named id) =
      issue print fatal (contains banned_names id) "banned_name" (lit "금지된 이름 사용: " ∷ arg id ∷ [])
  node_issues (attribute name) =
      issue print fatal (contains banned_attributes name) "banned_attribute"
        (lit "금지된 속성 접근: ." ∷ arg name ∷ [])
  node_issues _ = []

  unfoldable pub walk_issues : List Kind → List Issue
  unfolding node_issues
  walk_issues [] = []
  walk_issues (k ∷ ks) = node_issues k ++ walk_issues ks

  unfoldable pub lint_parsed : Parsed → List Issue
  unfolding entrypoint_issues walk_issues walk issue
  lint_parsed (syntax_error message line) =
      issue print repairable true "syntax_error"
        (lit "문법 오류: " ∷ arg message ∷ lit " (line " ∷ num line ∷ lit ")" ∷ [])
  lint_parsed (parsed body) = entrypoint_issues body "analyze" ++ walk_issues (walk body)

  -- `lint_program`, where the entry point is `analyze`; `parse` is `ast.parse`.
  unfoldable pub lint_program : (String → Parsed) → String → List Issue
  unfolding lint_parsed
  lint_program parse code = lint_parsed (parse code)

-- What a node accesses: a text, or an attribute.
abbrev pub accesses : Kind → String → Bool
accesses (text s) column = s == column
accesses (attribute s) column = s == column
accesses _ column = false

abbrev pub known_column : List String → String → List String
known_column known s = if contains known s then s ∷ [] else []

abbrev pub accessed : List String → Kind → List String
accessed known (text s) = known_column known s
accessed known (attribute s) = known_column known s
accessed known _ = []

unfoldable pub found_columns : List String → List Kind → List String
found_columns known [] = []
found_columns known (k ∷ ks) = accessed known k ++ found_columns known ks

unfoldable pub columns_in : List String → Parsed → List String
unfolding found_columns walk
columns_in known (syntax_error message line) = []
columns_in known (parsed body) = found_columns known (walk body)

unfoldable pub extract_referenced_columns : (String → Parsed) → String → List String → List String
unfolding columns_in
extract_referenced_columns parse code known = columns_in known (parse code)
