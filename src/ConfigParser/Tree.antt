-- ===== src/ConfigParser/Tree.antt =====
-- `validateTree` of src/config.cpp. The depth left is the bound of 64 on the ancestors.
use redis_pvxs_ioc.Prelude.{
  ℕ, zero, suc, ◌+◌, String, Bool, false, not, ◌||◌, List, [], ◌∷◌, ltb, if◌then◌else◌,
}
use redis_pvxs_ioc.Prelude.Results.{ok, err, ◌>>=◌, ◌>>◌}
use redis_pvxs_ioc.ConfigParser.{Yaml, Where, Parsed, failed, below, element, refuse, escaping}
use redis_pvxs_ioc.ConfigParser.Text.{is_in}

module _ (y : Yaml) where
  unfoldable pub is_ancestor : y.Node → List y.Node → Bool
  is_ancestor node [] = false
  is_ancestor node (a ∷ ancestors) = y.same_node node a || is_ancestor node ancestors

  -- The check of a node below, from the nodes visited so far to those visited then.
  abbrev pub Visit : Type 0
  Visit = y.Node → Where → ℕ → Parsed ℕ

  unfoldable pub validate_entries :
      Visit → Where → List String → List (y.Node × y.Node) → ℕ → Parsed ℕ
  unfolding refuse escaping is_in
  validate_entries visit path keys [] visited = ok visited
  validate_entries visit path keys ((name_node, node) ∷ rest) visited = do
    refuse (not (y.is_scalar name_node)) path "mapping keys must be scalar strings"
    name ← escaping (y.as_string name_node)
    refuse (is_in name keys) (below path name) "duplicate key"
    visited1 ← visit node (below path name) visited
    validate_entries visit path (name ∷ keys) rest visited1

  unfoldable pub validate_items : Visit → Where → ℕ → List y.Node → ℕ → Parsed ℕ
  validate_items visit path i [] visited = ok visited
  validate_items visit path i (node ∷ rest) visited = do
    visited1 ← visit node (element path i) visited
    validate_items visit path (i + 1) rest visited1

  unfoldable pub validate_below : Visit → y.Node → Where → ℕ → Parsed ℕ
  unfolding validate_entries validate_items
  validate_below visit node path visited =
      if y.is_map node
      then validate_entries visit path [] (y.entries node) visited
      else if y.is_sequence node
      then validate_items visit path 0 (y.items node) visited
      else ok visited

  unfoldable pub validate_tree : ℕ → List y.Node → Visit
  unfolding refuse is_ancestor validate_below
  validate_tree zero ancestors node path visited =
      err (failed path "configuration structure exceeds validation bounds")
  validate_tree (suc depth) ancestors node path visited = do
    refuse (ltb 1000000 (visited + 1)) path "configuration structure exceeds validation bounds"
    refuse (is_ancestor node ancestors) path "recursive YAML aliases are unsupported"
    validate_below (validate_tree depth (node ∷ ancestors)) node path (visited + 1)
