-- ===== src/Rbac/Staging.antt =====
-- The loops over ChangedFields of applyUpdateOrganization and applyUpdateTeam
-- (internal/cluster/raft/fsm_rbac.go): the first refuses a bad name or description, the second
-- stages the new name, and refuses one that is taken.
use iot_edge_db.Prelude.{
  ite, Bool, true, false, not, ◌&&◌, Option, none, some, List, [], ◌∷◌, if◌then◌else◌, GoString,
  str_dec, bytes, ℤ, is_zero,
}
use iot_edge_db.Types.{UpdateNamedPayload, Error, ◌>>◌}
use iot_edge_db.Rbac.State.{check_name, check_description}

-- field == s
abbrev pub is_field : GoString → GoString → Bool
is_field s field = ite (str_dec field s) true false

-- The body of the first loop.
abbrev pub check_changed : UpdateNamedPayload → GoString → Option Error
check_changed p field =
    (if is_field (bytes "name") field then check_name p.name else none)
    >> (if is_field (bytes "description") field then check_description p.description else none)

unfoldable pub check_all_changed : UpdateNamedPayload → List GoString → Option Error
check_all_changed p [] = none
check_all_changed p (field ∷ rest) = check_changed p field >> check_all_changed p rest

-- What `updated` and `nameChanged` hold while the second loop runs.
pub record Staged : Type 0 where
  pub name : GoString
  pub description : GoString
  pub enabled : Bool
  pub name_changed : Bool

-- The case "name": `taken` says that the index has the new name.
abbrev pub stage_name : UpdateNamedPayload → GoString → Bool → Staged → Option Staged
stage_name p old_name taken s =
    if ite (str_dec p.name old_name) false true && not s.name_changed
    then (if taken then none else some (record s { name = p.name; name_changed = true }))
    else some s

-- The body of the second loop.
abbrev pub stage_field : UpdateNamedPayload → GoString → Bool → GoString → Staged → Option Staged
stage_field p old_name taken field s =
    if is_field (bytes "name") field
    then stage_name p old_name taken s
    else if is_field (bytes "description") field
    then some (record s { description = p.description })
    else if is_field (bytes "enabled") field
    then some (record s { enabled = p.enabled })
    else some s

abbrev pub and_then : Option Staged → (Staged → Option Staged) → Option Staged
and_then none k = none
and_then (some s) k = k s

unfoldable pub stage_all :
    UpdateNamedPayload → GoString → Bool → List GoString → Staged → Option Staged
stage_all p old_name taken [] s = some s
stage_all p old_name taken (field ∷ rest) s =
    and_then (stage_field p old_name taken field s) (stage_all p old_name taken rest)

-- `if p.UpdatedAtUnixNano != 0`
abbrev pub newer : ℤ → ℤ → ℤ
newer new old = if is_zero new then old else new
