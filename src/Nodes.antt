-- ===== src/Nodes.antt =====
-- The nodes of the cluster, the primary writer and the compactor lease: the part of ClusterFSM and
-- the apply functions of internal/cluster/raft/fsm.go that keep them. `none` is a payload that
-- json.Unmarshal refuses. The FSM holds pointers to nodes and writes through them; the model puts
-- the changed node back under its key.
pub mod Writers
pub mod Promotion
use iot_edge_db.Prelude.{
  ite, Bool, true, false, Option, none, some, [], ◌∷◌, ◌&&◌, not, if◌then◌else◌, GoString, str_dec,
  bytes, is_empty_string,
}
use iot_edge_db.GoMap.{Map, get, put, remove, empty, str_key}
use iot_edge_db.Types.{
  NodeInfo, AddNodePayload, RemoveNodePayload, UpdateNodePayload, UpdateNodeStatePayload,
  PromoteWriterPayload, DemoteWriterPayload, AssignCompactorPayload, Outcome, fail, succeed,
  unmarshal_failed, node_id_required, wrong_role, node_not_found, node_added, node_updated,
  node_removed, writer_promoted, compactor_assigned,
}

pub record NodeTable : Type 0 where
  pub nodes : Map GoString NodeInfo
  pub primary_writer_id : GoString
  pub active_compactor_id : GoString

abbrev pub new_node_table : NodeTable
new_node_table = record { nodes = empty; primary_writer_id = []; active_compactor_id = [] }

abbrev pub writer_role : GoString
writer_role = bytes "writer"

abbrev pub primary : GoString
primary = bytes "primary"

abbrev pub standby : GoString
standby = bytes "standby"

-- s == t
abbrev pub same : GoString → GoString → Bool
same s t = ite (str_dec s t) true false

unfoldable pub apply_add_node : NodeTable → Option AddNodePayload → Outcome NodeTable
apply_add_node f none = fail f unmarshal_failed
apply_add_node f (some p) =
    succeed (record f { nodes = put f.nodes p.node.id p.node }) (node_added p.node ∷ [])

unfoldable pub apply_remove_node : NodeTable → Option RemoveNodePayload → Outcome NodeTable
apply_remove_node f none = fail f unmarshal_failed
apply_remove_node f (some p) =
    succeed (record f { nodes = remove f.nodes p.node_id }) (node_removed p.node_id ∷ [])

unfoldable pub apply_update_node : NodeTable → Option UpdateNodePayload → Outcome NodeTable
apply_update_node f none = fail f unmarshal_failed
apply_update_node f (some p) =
    succeed (record f { nodes = put f.nodes p.node.id p.node }) (node_updated p.node ∷ [])

abbrev pub set_state : NodeTable → UpdateNodeStatePayload → Option NodeInfo → Outcome NodeTable
set_state f p none = fail f node_not_found
set_state f p (some node) =
    let changed : NodeInfo = record node { state = p.new_state } in
    succeed (record f { nodes = put f.nodes p.node_id changed }) (node_updated changed ∷ [])

unfoldable pub apply_update_node_state :
    NodeTable → Option UpdateNodeStatePayload → Outcome NodeTable
apply_update_node_state f none = fail f unmarshal_failed
apply_update_node_state f (some p) = set_state f p (get f.nodes p.node_id)

abbrev pub with_writer_state :
    Map GoString NodeInfo → GoString → GoString → Option NodeInfo → Map GoString NodeInfo
with_writer_state nodes id s none = nodes
with_writer_state nodes id s (some node) = put nodes id (record node { writer_state = s })

-- `if n, exists := f.nodes[id]; exists { n.WriterState = s }`
unfoldable pub set_writer_state :
    Map GoString NodeInfo → GoString → GoString → Map GoString NodeInfo
set_writer_state nodes id s = with_writer_state nodes id s (get nodes id)

-- The node exists and is no writer.
abbrev pub has_wrong_role : Option NodeInfo → Bool
has_wrong_role none = false
has_wrong_role (some node) = not (same node.role writer_role)

-- The nodes after the old primary, if there is one and it is another node, has stepped down.
unfoldable pub demote_old : NodeTable → GoString → Map GoString NodeInfo
unfolding set_writer_state
demote_old f id =
    if not (is_empty_string f.primary_writer_id) && not (same f.primary_writer_id id)
    then set_writer_state f.nodes f.primary_writer_id standby
    else f.nodes

abbrev pub promoted : NodeTable → GoString → GoString → Option NodeInfo → Outcome NodeTable
promoted f id old_primary_id none = fail f node_not_found
promoted f id old_primary_id (some node) = succeed f (writer_promoted id old_primary_id ∷ [])

-- A node that is not there is refused only after the old primary has stepped down and the id is
-- recorded. The mismatch of OldPrimaryID is only logged.
unfoldable pub apply_promote_writer : NodeTable → Option PromoteWriterPayload → Outcome NodeTable
unfolding demote_old
apply_promote_writer f none = fail f unmarshal_failed
apply_promote_writer f (some p) =
    if is_empty_string p.node_id
    then fail f node_id_required
    else if has_wrong_role (get f.nodes p.node_id)
    then fail f wrong_role
    else let nodes = demote_old f p.node_id in
      promoted
        (record f {
          nodes = set_writer_state nodes p.node_id primary;
          primary_writer_id = p.node_id;
        })
        p.node_id f.primary_writer_id (get nodes p.node_id)

abbrev pub demoted : NodeTable → Option NodeInfo → Outcome NodeTable
demoted f none = fail f node_not_found
demoted f (some node) = succeed f []

unfoldable pub apply_demote_writer : NodeTable → Option DemoteWriterPayload → Outcome NodeTable
unfolding set_writer_state
apply_demote_writer f none = fail f unmarshal_failed
apply_demote_writer f (some p) =
    if is_empty_string p.node_id
    then fail f node_id_required
    else demoted
        (record f {
          nodes = set_writer_state f.nodes p.node_id standby;
          primary_writer_id =
              if same f.primary_writer_id p.node_id then [] else f.primary_writer_id;
        })
        (get f.nodes p.node_id)

unfoldable pub apply_assign_compactor :
    NodeTable → Option AssignCompactorPayload → Outcome NodeTable
apply_assign_compactor f none = fail f unmarshal_failed
apply_assign_compactor f (some p) =
    if is_empty_string p.node_id
    then fail f node_id_required
    else succeed (record f { active_compactor_id = p.node_id })
        (compactor_assigned p.node_id f.active_compactor_id ∷ [])
