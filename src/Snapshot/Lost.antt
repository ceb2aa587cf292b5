-- ===== src/Snapshot/Lost.antt =====
-- A token update (applyUpdateToken), the snapshot after it and its Restore
-- (internal/cluster/raft/fsm.go).
use iot_edge_db.Prelude.{
  ℕ, ℤ, ◌≡◌, refl, ap, true, false, Option, none, some, [], ◌∷◌, arith, bytes, is_some, is_zero,
  pos, elem, str_dec,
}
use iot_edge_db.GoMap.{
  get, get-put, copied, sift-IsPart, sift_passed, get_of_copied, str_key, int_key,
}
use iot_edge_db.Types.{TokenEntry, UpdateTokenPayload}
use iot_edge_db.Tokens.State.{Tokens, validate_token_entry, apply_update_token, updated_token}
use iot_edge_db.Fsm.State.{ClusterFsm}
use iot_edge_db.Snapshot.{snapshot}
use iot_edge_db.Snapshot.Restore.{accepts_token, unmarked, restored_tokens, restore, restore_tokens}

-- A token that does not pass the validation is not restored.
restored_token-invalid :
    (f : ClusterFsm) (id : ℤ) (e : TokenEntry) (o : Option TokenEntry)
    → get f.auth.tokens id ≡ some e
    → is_some (validate_token_entry e) ≡ true
    → get (restored_tokens (snapshot f)).kept id ≡ o
    → o ≡ none
unfolding restored_tokens snapshot
restored_token-invalid f id e none h v k = refl
restored_token-invalid f id e (some x) h v k =
    let m = copied some f.auth.tokens in
    ground (
      arith,
      sift_passed m accepts_token unmarked id x k,
      get_of_copied f.auth.tokens id x (sift-IsPart m accepts_token unmarked tt id x k),
    )

nameless-invalid : (e : TokenEntry) → e.name ≡ [] → is_some (validate_token_entry e) ≡ true
unfolding validate_token_entry
nameless-invalid e h = ground arith

-- The update that sets only the name, to the empty string.
abbrev pub nameless : ℤ → UpdateTokenPayload
nameless id = record {
  id = id;
  name = [];
  description = [];
  permissions = [];
  expires_at_unix_nano = pos 0;
  changed_fields = bytes "name" ∷ [];
}

update_nameless :
    (f : Tokens) (id : ℤ) (old : TokenEntry) (i : ℕ)
    → is_zero id ≡ false
    → get f.tokens id ≡ some old
    → get f.tokens_by_name [] ≡ none
    → let r = apply_update_token f (some (nameless id)) i in
      (r.error ≡ none) × (get r.state.tokens id ≡ some (updated_token old (nameless id) i))
unfolding apply_update_token elem str_dec
update_nameless f id old i n h free = rw n (
    rw h
      (rw free (refl, ground (arith, get-put f.tokens id (updated_token old (nameless id) i) id))))

nameless_lem : (id : ℤ) (old : TokenEntry) (i : ℕ) → (updated_token old (nameless id) i).name ≡ []
unfolding elem str_dec
nameless_lem id old i = refl

-- An update that sets only the name of a token that is there, to the empty string that no token
-- bears, is applied without an error; but once the state after it goes through a snapshot, the
-- token is gone from the restored state: Restore refuses a name that the update does not check.
pub update_token-lost :
    (g f : ClusterFsm) (id : ℤ) (old : TokenEntry) (i : ℕ)
    → is_zero id ≡ false
    → get f.auth.tokens id ≡ some old
    → get f.auth.tokens_by_name [] ≡ none
    → let r = apply_update_token f.auth (some (nameless id)) i in
      (r.error ≡ none)
      × (is_some (get r.state.tokens id) ≡ true)
      × (get (restore g (some (snapshot (record f { auth = r.state })))).state.auth.tokens id
          ≡ none)
unfolding restore restore_tokens
update_token-lost g f id old i n h free =
    let r = apply_update_token f.auth (some (nameless id)) i in
    let f' : ClusterFsm = record f { auth = r.state } in
    let e = updated_token old (nameless id) i in
    let u = update_nameless f.auth id old i n h free in
    (
      u.0,
      ap is_some u.1,
      restored_token-invalid f' id e (get (restored_tokens (snapshot f')).kept id) u.1
          (nameless-invalid e (nameless_lem id old i)) refl,
    )
