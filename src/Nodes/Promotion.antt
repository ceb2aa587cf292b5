-- ===== src/Nodes/Promotion.antt =====
-- What a successful promotion does (applyPromoteWriter, internal/cluster/raft/fsm.go).
use iot_edge_db.Prelude.{
  ◌≡◌, refl, ◌≢◌, inl, inr, true, Bool-cases, Option, none, some, arith, GoString, is_empty_string,
  is_some,
}
use iot_edge_db.GoMap.{get, str_key}
use iot_edge_db.Types.{NodeInfo, PromoteWriterPayload}
use iot_edge_db.Nodes.{
  NodeTable, primary, standby, has_wrong_role, set_writer_state, demote_old, promoted,
  apply_promote_writer,
}
use iot_edge_db.Nodes.Writers.{restated, get-set_writer_state}

-- The table that a promotion writes.
abbrev promoted_table : NodeTable → GoString → NodeTable
promoted_table f id = record f {
  nodes = set_writer_state (demote_old f id) id primary;
  primary_writer_id = id;
}

get-demote_old_self : (f : NodeTable) (id : GoString) → get (demote_old f id) id ≡ get f.nodes id
unfolding demote_old
get-demote_old_self f id =
    ground (arith, get-set_writer_state f.nodes f.primary_writer_id standby id)

get-demote_old_ne :
    (f : NodeTable) (id j : GoString)
    → j ≢ f.primary_writer_id
    → get (demote_old f id) j ≡ get f.nodes j
unfolding demote_old
get-demote_old_ne f id j n =
    ground (arith, get-set_writer_state f.nodes f.primary_writer_id standby j)

promoted_success :
    (f : NodeTable) (id old : GoString) (o : Option NodeInfo)
    → (promoted f id old o).error ≡ none
    → ((promoted f id old o).state ≡ f) × (is_some o ≡ true)
promoted_success f id old none h = cc
promoted_success f id old (some n) h = (refl, refl)

promote_success :
    (f : NodeTable) (p : PromoteWriterPayload)
    → (apply_promote_writer f (some p)).error ≡ none
    → ((apply_promote_writer f (some p)).state ≡ promoted_table f p.node_id)
      × (is_some (get (demote_old f p.node_id) p.node_id) ≡ true)
unfolding apply_promote_writer
promote_success f p h = elim (Bool-cases (is_empty_string p.node_id)) [
  | inl e ↦ cc (rw e at h)
  | inr e ↦ elim (Bool-cases (has_wrong_role (get f.nodes p.node_id))) [
    | inl r ↦ cc (rw (e, r) at h)
    | inr r ↦ rw (e, r) (promoted_success _ p.node_id f.primary_writer_id _ (rw (e, r) at h))
  ]
]

-- A promotion that returns no error leaves the promoted node, and every field of it but the writer
-- state, in place as the primary, and records its id; no other node than it and the old primary is
-- changed.
pub promote-effect :
    (f : NodeTable) (p : PromoteWriterPayload)
    → let r = apply_promote_writer f (some p) in
      r.error ≡ none
      → (r.state.primary_writer_id ≡ p.node_id)
        × (get r.state.nodes p.node_id ≡ restated primary (get f.nodes p.node_id))
        × (is_some (get f.nodes p.node_id) ≡ true)
        × ((j : GoString)
            → j ≢ p.node_id
            → j ≢ f.primary_writer_id
            → get r.state.nodes j ≡ get f.nodes j)
promote-effect f p h =
    let (s, e) = promote_success f p h in
    rw s (
      refl,
      ground (
        arith,
        get-set_writer_state (demote_old f p.node_id) p.node_id primary p.node_id,
        get-demote_old_self f p.node_id,
      ),
      rw (get-demote_old_self f p.node_id) at e,
      λ j n o. ground (
        arith,
        get-set_writer_state (demote_old f p.node_id) p.node_id primary j,
        get-demote_old_ne f p.node_id j o,
      ),
    )
