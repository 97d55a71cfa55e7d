-- ===== src/Validation/Program/Tree.antt =====
-- Python's ast, as far as validation/codelint.py and manifest_checks.py read it.
use analysis_loop.Prelude.{
  ◌≡◌, ◌+◌, ◌≤◌, refl, ℕ, zero, suc, String, Bool, false, ◌||◌, Option, List, [], ◌∷◌, any, arith,
}

-- The class of a node with what the checks read of it.
pub data Kind : Type 0 where
  -- `ast.Import`: the names of its aliases
  imports : List String → Kind
  -- `ast.ImportFrom`: its level and its module
  imports_from : ℕ → Option String → Kind
  -- `ast.Name`, `ast.Attribute`, and an `ast.Constant` that is a text
  named : String → Kind
  attribute : String → Kind
  text : String → Kind
  -- `ast.FunctionDef` and `ast.AsyncFunctionDef`: its name and the length of `args.args`
  function : String → ℕ → Kind
  other_node : Kind

mutual
  pub data Tree : Type 0 where
    node : Kind → Trees → Tree

  -- The children of a node in the order of `ast.iter_child_nodes`, or the body of a module.
  pub data Trees : Type 0 where
    no_trees : Trees
    more : Tree → Trees → Trees

-- What `ast.parse` answers: the body of the module, or the message and the line of a SyntaxError.
pub data Parsed : Type 0 where
  parsed : Trees → Parsed
  syntax_error : String → ℕ → Parsed

pub then_trees : Trees → Trees → Trees
then_trees no_trees us = us
then_trees (more t ts) us = more t (then_trees ts us)

mutual
  pub nodes_of : Tree → ℕ
  nodes_of (node k ts) = suc (nodes ts)

  pub nodes : Trees → ℕ
  nodes no_trees = 0
  nodes (more t ts) = nodes_of t + nodes ts

-- `ast.walk`: the first node of the queue, whose children go behind the queue.
pub walk_from : ℕ → Trees → List Kind
unfolding then_trees
walk_from zero ts = []
walk_from (suc n) no_trees = []
walk_from (suc n) (more (node k children) ts) = k ∷ walk_from n (then_trees ts children)

-- The nodes of a module but the module itself, of which no check reads anything.
unfoldable pub walk : Trees → List Kind
unfolding walk_from nodes
walk body = walk_from (nodes body) body

mutual
  -- Some node of a tree passes a test.
  pub some_node : (Kind → Bool) → Tree → Bool
  some_node p (node k ts) = p k || some_nodes p ts

  pub some_nodes : (Kind → Bool) → Trees → Bool
  some_nodes p no_trees = false
  some_nodes p (more t ts) = some_node p t || some_nodes p ts

some_nodes-then_trees :
    (p : Kind → Bool) (ts us : Trees)
    → some_nodes p (then_trees ts us) ≡ (some_nodes p ts || some_nodes p us)
unfolding some_nodes then_trees
some_nodes-then_trees p no_trees us = refl
some_nodes-then_trees p (more t ts) us = ground (arith, some_nodes-then_trees p ts us)

nodes-then_trees : (ts us : Trees) → nodes (then_trees ts us) ≡ nodes ts + nodes us
unfolding nodes then_trees
nodes-then_trees no_trees us = omega arith
nodes-then_trees (more t ts) us = ground (arith, nodes-then_trees ts us)

any-walk_from :
    (p : Kind → Bool) (n : ℕ) (ts : Trees) → nodes ts ≤ n → any p (walk_from n ts) ≡ some_nodes p ts
unfolding walk_from nodes some_nodes
any-walk_from p zero no_trees h = refl
any-walk_from p zero (more (node k us) ts) h = absurd (omega arith)
any-walk_from p (suc n) no_trees h = refl
any-walk_from p (suc n) (more (node k us) ts) h =
    let seen = any-walk_from p n (then_trees ts us) (ground (arith, nodes-then_trees ts us)) in
    ground (arith, seen, some_nodes-then_trees p ts us)

-- The walk takes every node of the module, whatever its depth.
pub any-walk : (p : Kind → Bool) (body : Trees) → any p (walk body) ≡ some_nodes p body
unfolding walk
any-walk p body = any-walk_from p (nodes body) body (omega arith)
