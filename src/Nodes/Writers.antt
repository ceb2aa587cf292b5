-- ===== src/Nodes/Writers.antt =====
-- The writer states of the nodes and the recorded primary (internal/cluster/raft/fsm.go).
use iot_edge_db.Prelude.{
  ◌≡◌, refl, ite, inl, inr, Bool, true, false, Bool-cases, if◌then◌else◌, Option, none, some, [],
  arith, GoString, str_dec, is_empty_string,
}
use iot_edge_db.GoMap.{get-empty, Map, get, put, get-put, get-remove, str_key}
use iot_edge_db.Types.{
  AssignCompactorPayload, NodeInfo, PromoteWriterPayload, DemoteWriterPayload, AddNodePayload,
  UpdateNodePayload, RemoveNodePayload, UpdateNodeStatePayload,
}
use iot_edge_db.Nodes.{
  apply_assign_compactor, new_node_table, NodeTable, primary, standby, same, has_wrong_role,
  set_writer_state, with_writer_state, demote_old, promoted, demoted, set_state,
  apply_promote_writer, apply_demote_writer, apply_add_node, apply_update_node, apply_remove_node,
  apply_update_node_state,
}

-- The node with this id calls itself primary.
abbrev pub is_primary : Option NodeInfo → Bool
is_primary none = false
is_primary (some n) = same n.writer_state primary

-- Every node that calls itself primary is the one that the cluster has recorded, and none does
-- while no id is recorded.
pub record IsSinglePrimary (f : NodeTable) : Type 0 where
  pub recorded :
      (id : GoString)
      → is_primary (get f.nodes id) ≡ true
      → (id ≡ f.primary_writer_id) × (is_empty_string id ≡ false)

abbrev pub restated : GoString → Option NodeInfo → Option NodeInfo
restated s none = none
restated s (some n) = some (record n { writer_state = s })

-- Writing a writer state changes the node of that id, if there is one, and nothing else.
pub get-set_writer_state :
    (nodes : Map GoString NodeInfo) (id s j : GoString)
    → get (set_writer_state nodes id s) j
      ≡ ite (str_dec id j) (restated s (get nodes j)) (get nodes j)
unfolding set_writer_state
get-set_writer_state nodes id s j = written (get nodes id) refl
  where
    written :
        (o : Option NodeInfo)
        → get nodes id ≡ o
        → get (with_writer_state nodes id s o) j
          ≡ ite (str_dec id j) (restated s (get nodes j)) (get nodes j)
    written none e = ground arith
    written (some n) e = ground (arith, get-put nodes id (record n { writer_state = s }) j)

is_primary-restated : (o : Option NodeInfo) → is_primary (restated standby o) ≡ false
unfolding str_dec
is_primary-restated none = refl
is_primary-restated (some n) = refl

module _ {f : NodeTable} (c : IsSinglePrimary f) (id : GoString) where
  -- Once the old primary has stepped down, only `id` may still be primary.
  demote_old-primary :
      (j : GoString)
      → is_primary (get (demote_old f id) j) ≡ true
      → (j ≡ id) × (is_empty_string id ≡ false)
  unfolding demote_old
  demote_old-primary j h = ground (
    arith,
    get-set_writer_state f.nodes f.primary_writer_id standby j,
    is_primary-restated (get f.nodes j),
    c.recorded j,
  )

  promoted-IsSinglePrimary :
      is_empty_string id ≡ false
      → IsSinglePrimary (record f {
        nodes = set_writer_state (demote_old f id) id primary;
        primary_writer_id = id;
      })
  promoted-IsSinglePrimary e = record {
    recorded = λ j h.
        ground (arith, get-set_writer_state (demote_old f id) id primary j, demote_old-primary j);
  }

  demoted-IsSinglePrimary : IsSinglePrimary (record f {
    nodes = set_writer_state f.nodes id standby;
    primary_writer_id = if same f.primary_writer_id id then [] else f.primary_writer_id;
  })
  demoted-IsSinglePrimary = record {
    recorded = λ j h. ground (
      arith,
      get-set_writer_state f.nodes id standby j,
      is_primary-restated (get f.nodes j),
      c.recorded j,
    );
  }

state_of-promoted :
    (f : NodeTable) (id old : GoString) (o : Option NodeInfo) → (promoted f id old o).state ≡ f
state_of-promoted f id old none = refl
state_of-promoted f id old (some n) = refl

state_of-demoted : (f : NodeTable) (o : Option NodeInfo) → (demoted f o).state ≡ f
state_of-demoted f none = refl
state_of-demoted f (some n) = refl

module _ {f : NodeTable} (c : IsSinglePrimary f) where
  -- A promotion keeps it that every node that calls itself primary is the one recorded, so that there is
  -- one at most: when it is refused, and when the node is not there, too.
  pub promote-IsSinglePrimary :
      (o : Option PromoteWriterPayload) → IsSinglePrimary (apply_promote_writer f o).state
  unfolding apply_promote_writer
  promote-IsSinglePrimary none = c
  promote-IsSinglePrimary (some p) = elim (Bool-cases (is_empty_string p.node_id)) [
    | inl e ↦ rw e c
    | inr e ↦ rw e (elim (Bool-cases (has_wrong_role (get f.nodes p.node_id))) [
      | inl r ↦ rw r c
      | inr r ↦ rw (r, state_of-promoted) (promoted-IsSinglePrimary c p.node_id e)
    ])
  ]

  -- A demotion keeps it that every node that calls itself primary is the one recorded.
  pub demote-IsSinglePrimary :
      (o : Option DemoteWriterPayload) → IsSinglePrimary (apply_demote_writer f o).state
  unfolding apply_demote_writer
  demote-IsSinglePrimary none = c
  demote-IsSinglePrimary (some p) = elim (Bool-cases (is_empty_string p.node_id)) [
    | inl e ↦ rw e c
    | inr e ↦ rw (e, state_of-demoted) (demoted-IsSinglePrimary c p.node_id)
  ]

  pub remove-IsSinglePrimary :
      (o : Option RemoveNodePayload) → IsSinglePrimary (apply_remove_node f o).state
  unfolding apply_remove_node
  remove-IsSinglePrimary none = c
  remove-IsSinglePrimary (some p) = record {
    recorded = λ j h. ground (arith, get-remove f.nodes p.node_id j, c.recorded j);
  }

  -- A node that does not call itself primary may take any id.
  put-IsSinglePrimary :
      (n : NodeInfo)
      → same n.writer_state primary ≡ false
      → IsSinglePrimary (record f { nodes = put f.nodes n.id n })
  put-IsSinglePrimary n h = record {
    recorded = λ j k. ground (arith, get-put f.nodes n.id n j, c.recorded j);
  }

  pub add-IsSinglePrimary :
      (o : Option AddNodePayload)
      → ((p : AddNodePayload) → o ≡ some p → same p.node.writer_state primary ≡ false)
      → IsSinglePrimary (apply_add_node f o).state
  unfolding apply_add_node
  add-IsSinglePrimary none h = c
  add-IsSinglePrimary (some p) h = put-IsSinglePrimary p.node (h p refl)

  pub update-IsSinglePrimary :
      (o : Option UpdateNodePayload)
      → ((p : UpdateNodePayload) → o ≡ some p → same p.node.writer_state primary ≡ false)
      → IsSinglePrimary (apply_update_node f o).state
  unfolding apply_update_node
  update-IsSinglePrimary none h = c
  update-IsSinglePrimary (some p) h = put-IsSinglePrimary p.node (h p refl)

  set_state-IsSinglePrimary :
      (p : UpdateNodeStatePayload) (o : Option NodeInfo)
      → get f.nodes p.node_id ≡ o
      → IsSinglePrimary (set_state f p o).state
  set_state-IsSinglePrimary p none e = c
  set_state-IsSinglePrimary p (some n) e = record {
    recorded = λ j k.
        ground
          (arith, get-put f.nodes p.node_id (record n { state = p.new_state }) j, c.recorded j);
  }

  pub update_state-IsSinglePrimary :
      (o : Option UpdateNodeStatePayload) → IsSinglePrimary (apply_update_node_state f o).state
  unfolding apply_update_node_state
  update_state-IsSinglePrimary none = c
  update_state-IsSinglePrimary (some p) = set_state-IsSinglePrimary p (get f.nodes p.node_id) refl

  pub assign-IsSinglePrimary :
      (o : Option AssignCompactorPayload) → IsSinglePrimary (apply_assign_compactor f o).state
  unfolding apply_assign_compactor
  assign-IsSinglePrimary none = c
  assign-IsSinglePrimary (some p) = elim (Bool-cases (is_empty_string p.node_id)) [
    | inl e ↦ rw e c
    | inr e ↦ rw e (record { recorded = c.recorded })
  ]

pub new_node_table-IsSinglePrimary : IsSinglePrimary new_node_table
new_node_table-IsSinglePrimary = record {
  recorded = λ j h. ground (arith, get-empty {V = NodeInfo} j);
}
