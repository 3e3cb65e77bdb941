-- ===== src/Acf/Parser/Accepted.antt =====
-- What `AcfSubsetParser` of src/access_control.cpp makes of a written policy, where it accepts it.
use redis_pvxs_ioc.Prelude.{◌≡◌, List, ◌∷◌, ◌++◌}
use redis_pvxs_ioc.Prelude.Bytes.{Bytes}
use redis_pvxs_ioc.Acf.Parser.{GroupKind}
use redis_pvxs_ioc.Acf.Parser.Policy.{Definition, groups_named}

-- A name stands in a list.
abbrev pub Has : Bytes → List Bytes → Type 0
Has n names = (before : List Bytes) × (after : List Bytes) × (names ≡ before ++ n ∷ after)

-- The reference is to a group of its kind in the policy.
abbrev pub Refers : List Definition → GroupKind × Bytes → Type 0
Refers policy r = Has r.1 (groups_named r.0 policy)
