-- ===== src/Tests/History.antt =====
-- The states after an organization, a team, a role, a measurement permission, a token and a membership
-- are created, one after the other.
use iot_edge_db.Prelude.{elem, int_dec, str_dec, refl, int64}
use iot_edge_db.GoMap.{get, put, remove, at, add, empty, int_key, str_key}
use iot_edge_db.Tokens.Permissions.{validate_permission_string}
use iot_edge_db.Tokens.State.{apply_create_token}
use iot_edge_db.Rbac.Organizations.{apply_create_organization}
use iot_edge_db.Rbac.Teams.{apply_create_team}
use iot_edge_db.Rbac.Roles.{apply_create_role}
use iot_edge_db.Rbac.Members.{apply_create_measurement_permission, apply_add_token_to_team}
use iot_edge_db.Fsm.Commands.{command_type_from}
use iot_edge_db.Fsm.State.{ClusterFsm, dispatch, new_cluster_fsm, apply}
use iot_edge_db.Fsm.Consistent.{
  IsAuthConsistent, IsFresh, apply-IsAuthConsistent, new_cluster_fsm-IsAuthConsistent,
}
use iot_edge_db.Tests.Data.{sample_codec, entry}

unfoldable pub state_1 : ClusterFsm
unfolding apply dispatch command_type_from int64 get put remove at add empty int_dec str_dec
    apply_create_organization apply_create_team apply_create_role
    apply_create_measurement_permission apply_create_token apply_add_token_to_team
    validate_permission_string elem
state_1 = (apply sample_codec new_cluster_fsm (entry 1 17)).state

unfoldable pub state_2 : ClusterFsm
unfolding state_1
state_2 = (apply sample_codec state_1 (entry 2 20)).state

unfoldable pub state_3 : ClusterFsm
unfolding state_2
state_3 = (apply sample_codec state_2 (entry 3 23)).state

unfoldable pub state_4 : ClusterFsm
unfolding state_3
state_4 = (apply sample_codec state_3 (entry 4 26)).state

unfoldable pub state_5 : ClusterFsm
unfolding state_4
state_5 = (apply sample_codec state_4 (entry 5 12)).state

unfoldable pub state_6 : ClusterFsm
unfolding state_5
state_6 = (apply sample_codec state_5 (entry 6 28)).state

pub new_cluster_fsm-IsFresh : IsFresh new_cluster_fsm (int64 1)
unfolding get empty int64
new_cluster_fsm-IsFresh = record {
  token = refl;
  rbac = record {
    organization = refl;
    team = refl;
    role = refl;
    permission = refl;
    membership = refl;
  };
}

pub state_1-IsFresh : IsFresh state_1 (int64 2)
unfolding state_1
state_1-IsFresh = record {
  token = refl;
  rbac = record {
    organization = refl;
    team = refl;
    role = refl;
    permission = refl;
    membership = refl;
  };
}

pub state_2-IsFresh : IsFresh state_2 (int64 3)
unfolding state_2
state_2-IsFresh = record {
  token = refl;
  rbac = record {
    organization = refl;
    team = refl;
    role = refl;
    permission = refl;
    membership = refl;
  };
}

pub state_3-IsFresh : IsFresh state_3 (int64 4)
unfolding state_3
state_3-IsFresh = record {
  token = refl;
  rbac = record {
    organization = refl;
    team = refl;
    role = refl;
    permission = refl;
    membership = refl;
  };
}

pub state_4-IsFresh : IsFresh state_4 (int64 5)
unfolding state_4
state_4-IsFresh = record {
  token = refl;
  rbac = record {
    organization = refl;
    team = refl;
    role = refl;
    permission = refl;
    membership = refl;
  };
}

pub state_5-IsFresh : IsFresh state_5 (int64 6)
unfolding state_5
state_5-IsFresh = record {
  token = refl;
  rbac = record {
    organization = refl;
    team = refl;
    role = refl;
    permission = refl;
    membership = refl;
  };
}

pub state_6-IsFresh : IsFresh state_6 (int64 7)
unfolding state_6
state_6-IsFresh = record {
  token = refl;
  rbac = record {
    organization = refl;
    team = refl;
    role = refl;
    permission = refl;
    membership = refl;
  };
}

pub state_1-IsAuthConsistent : IsAuthConsistent state_1
unfolding state_1
state_1-IsAuthConsistent =
    apply-IsAuthConsistent sample_codec new_cluster_fsm (entry 1 17)
      new_cluster_fsm-IsAuthConsistent new_cluster_fsm-IsFresh

pub state_2-IsAuthConsistent : IsAuthConsistent state_2
unfolding state_2
state_2-IsAuthConsistent =
    apply-IsAuthConsistent sample_codec state_1 (entry 2 20) state_1-IsAuthConsistent
      state_1-IsFresh

pub state_3-IsAuthConsistent : IsAuthConsistent state_3
unfolding state_3
state_3-IsAuthConsistent =
    apply-IsAuthConsistent sample_codec state_2 (entry 3 23) state_2-IsAuthConsistent
      state_2-IsFresh

pub state_4-IsAuthConsistent : IsAuthConsistent state_4
unfolding state_4
state_4-IsAuthConsistent =
    apply-IsAuthConsistent sample_codec state_3 (entry 4 26) state_3-IsAuthConsistent
      state_3-IsFresh

pub state_5-IsAuthConsistent : IsAuthConsistent state_5
unfolding state_5
state_5-IsAuthConsistent =
    apply-IsAuthConsistent sample_codec state_4 (entry 5 12) state_4-IsAuthConsistent
      state_4-IsFresh

pub state_6-IsAuthConsistent : IsAuthConsistent state_6
unfolding state_6
state_6-IsAuthConsistent =
    apply-IsAuthConsistent sample_codec state_5 (entry 6 28) state_5-IsAuthConsistent
      state_5-IsFresh
