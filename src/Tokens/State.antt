-- ===== src/Tokens/State.antt =====
-- The state of the tokens, their validation, and the apply functions of the five token commands.
-- `none` is a payload that json.Unmarshal refuses.
use iot_edge_db.Prelude.{
  ℕ, ◌+◌, ite, Bool, true, false, ◌&&◌, Option, none, some, List, [], ◌∷◌, ltb, if◌then◌else◌,
  GoString, bytes, str_dec, is_empty_string, length, elem, ℤ, int_dec, int64, is_zero,
}
use iot_edge_db.GoMap.{Map, get, put, remove, empty, str_key, int_key}
use iot_edge_db.Types.{
  TokenEntry, CreateTokenPayload, UpdateTokenPayload, IdPayload, RotateTokenPayload, Error, Outcome,
  fail, succeed, ◌>>◌, unmarshal_failed, id_required, name_required, name_too_long, name_exists,
  hash_required, hash_too_long, prefix_required, prefix_too_long, created_at_required,
  token_created, token_updated, token_revoked, token_deleted, token_rotated,
}
use iot_edge_db.Tokens.Prefixes.{add_prefix, drop_prefix}
use iot_edge_db.Tokens.Permissions.{validate_permission_string}

pub record Tokens : Type 0 where
  pub tokens : Map ℤ TokenEntry
  pub tokens_by_prefix : Map GoString (List ℤ)
  pub tokens_by_name : Map GoString ℤ
  pub rejected_tokens : ℕ

abbrev pub new_tokens : Tokens
new_tokens = record {
  tokens = empty;
  tokens_by_prefix = empty;
  tokens_by_name = empty;
  rejected_tokens = 0;
}

abbrev pub inc_rejected_tokens : Tokens → Tokens
inc_rejected_tokens f = record f { rejected_tokens = f.rejected_tokens + 1 }

abbrev pub reject_token : Tokens → Error → Outcome Tokens
reject_token f e = fail (inc_rejected_tokens f) e

abbrev pub check : Bool → Error → Option Error
check true e = some e
check false e = none

unfoldable pub validate_token_hash_and_prefix : GoString → GoString → Option Error
validate_token_hash_and_prefix hash prefix =
    check (is_empty_string hash) hash_required
    >> check (ltb 512 (length hash)) hash_too_long
    >> check (is_empty_string prefix) prefix_required
    >> check (ltb 256 (length prefix)) prefix_too_long

unfoldable pub validate_token_entry : TokenEntry → Option Error
unfolding validate_token_hash_and_prefix
validate_token_entry entry =
    check (is_empty_string entry.name) name_required
    >> check (ltb 256 (length entry.name)) name_too_long
    >> validate_token_hash_and_prefix entry.token_hash entry.token_prefix
    >> validate_permission_string entry.permissions

abbrev pub insert_token : Tokens → TokenEntry → Option ℤ → Outcome Tokens
insert_token f entry (some other) = reject_token f name_exists
insert_token f entry none =
    succeed
      (record f {
        tokens = put f.tokens entry.id entry;
        tokens_by_prefix = add_prefix f.tokens_by_prefix entry.token_prefix entry.id;
        tokens_by_name = put f.tokens_by_name entry.name entry.id;
      })
      (token_created entry ∷ [])

-- The entry that is stored has the log index as its id, and is enabled.
abbrev pub stamped : TokenEntry → ℕ → TokenEntry
stamped token log_index = record token { id = int64 log_index; enabled = true; lsn = log_index }

abbrev pub create_validated : Tokens → TokenEntry → ℕ → Option Error → Outcome Tokens
create_validated f token log_index (some e) = reject_token f e
create_validated f token log_index none =
    if is_zero token.created_at_unix_nano
    then reject_token f created_at_required
    else insert_token f (stamped token log_index) (get f.tokens_by_name token.name)

unfoldable pub apply_create_token : Tokens → Option CreateTokenPayload → ℕ → Outcome Tokens
unfolding validate_token_entry add_prefix
apply_create_token f none log_index = fail f unmarshal_failed
apply_create_token f (some p) log_index =
    create_validated f p.token log_index (validate_token_entry p.token)

abbrev pub changed : GoString → UpdateTokenPayload → Bool
changed field p = elem str_dec field p.changed_fields

-- The loop over ChangedFields validates the permissions as often as they are named.
abbrev pub check_changed_permissions : UpdateTokenPayload → Option Error
check_changed_permissions p =
    if changed (bytes "permissions") p then validate_permission_string p.permissions else none

-- Another token has the new name.
abbrev pub taken : Option ℤ → ℤ → Bool
taken none id = false
taken (some other) id = ite (int_dec other id) false true

abbrev pub updated_token : TokenEntry → UpdateTokenPayload → ℕ → TokenEntry
updated_token entry p log_index = record entry {
  name = if changed (bytes "name") p then p.name else entry.name;
  description = if changed (bytes "description") p then p.description else entry.description;
  permissions = if changed (bytes "permissions") p then p.permissions else entry.permissions;
  expires_at_unix_nano =
      if changed (bytes "expires_at") p then p.expires_at_unix_nano else entry.expires_at_unix_nano;
  lsn = log_index;
}

abbrev pub update_found : Tokens → UpdateTokenPayload → ℕ → Option TokenEntry → Outcome Tokens
update_found f p log_index none = succeed (inc_rejected_tokens f) []
update_found f p log_index (some entry) =
    if changed (bytes "name") p && taken (get f.tokens_by_name p.name) p.id
    then reject_token f name_exists
    else succeed
        (record f {
          tokens = put f.tokens p.id (updated_token entry p log_index);
          tokens_by_name =
              if changed (bytes "name") p
              then put (remove f.tokens_by_name entry.name) p.name entry.id
              else f.tokens_by_name;
        })
        (token_updated (updated_token entry p log_index) ∷ [])

abbrev pub update_checked : Tokens → UpdateTokenPayload → ℕ → Option Error → Outcome Tokens
update_checked f p log_index (some e) = reject_token f e
update_checked f p log_index none = update_found f p log_index (get f.tokens p.id)

unfoldable pub apply_update_token : Tokens → Option UpdateTokenPayload → ℕ → Outcome Tokens
apply_update_token f none log_index = fail f unmarshal_failed
apply_update_token f (some p) log_index =
    if is_zero p.id
    then reject_token f id_required
    else update_checked f p log_index (check_changed_permissions p)

abbrev pub revoke_found : Tokens → ℤ → ℕ → Option TokenEntry → Outcome Tokens
revoke_found f id log_index none = succeed f []
revoke_found f id log_index (some entry) =
    succeed
      (record f { tokens = put f.tokens id (record entry { enabled = false; lsn = log_index }) })
      (token_revoked id ∷ [])

unfoldable pub apply_revoke_token : Tokens → Option IdPayload → ℕ → Outcome Tokens
apply_revoke_token f none log_index = fail f unmarshal_failed
apply_revoke_token f (some p) log_index =
    if is_zero p.id
    then reject_token f id_required
    else revoke_found f p.id log_index (get f.tokens p.id)

-- The part of applyDeleteToken that is about the tokens.
abbrev pub delete_found : Tokens → ℤ → Option TokenEntry → Outcome Tokens
delete_found f id none = succeed f []
delete_found f id (some entry) =
    succeed
      (record f {
        tokens = remove f.tokens id;
        tokens_by_prefix = drop_prefix f.tokens_by_prefix entry.token_prefix id;
        tokens_by_name = remove f.tokens_by_name entry.name;
      })
      (token_deleted id ∷ [])

unfoldable pub delete_token : Tokens → Option IdPayload → Outcome Tokens
unfolding drop_prefix
delete_token f none = fail f unmarshal_failed
delete_token f (some p) =
    if is_zero p.id then reject_token f id_required else delete_found f p.id (get f.tokens p.id)

abbrev pub moved_prefix : Tokens → TokenEntry → RotateTokenPayload → Map GoString (List ℤ)
moved_prefix f entry p =
    ite (str_dec entry.token_prefix p.new_prefix) f.tokens_by_prefix
      (add_prefix (drop_prefix f.tokens_by_prefix entry.token_prefix p.id) p.new_prefix p.id)

abbrev pub rotate_found : Tokens → RotateTokenPayload → ℕ → Option TokenEntry → Outcome Tokens
rotate_found f p log_index none = succeed f []
rotate_found f p log_index (some entry) =
    succeed
      (record f {
        tokens = put f.tokens p.id (record entry {
          token_hash = p.new_hash;
          token_prefix = p.new_prefix;
          lsn = log_index;
        });
        tokens_by_prefix = moved_prefix f entry p;
      })
      (token_rotated p.id p.new_hash p.new_prefix log_index ∷ [])

abbrev pub rotate_validated : Tokens → RotateTokenPayload → ℕ → Option Error → Outcome Tokens
rotate_validated f p log_index (some e) = reject_token f e
rotate_validated f p log_index none = rotate_found f p log_index (get f.tokens p.id)

unfoldable pub apply_rotate_token : Tokens → Option RotateTokenPayload → ℕ → Outcome Tokens
unfolding validate_token_hash_and_prefix add_prefix drop_prefix
apply_rotate_token f none log_index = fail f unmarshal_failed
apply_rotate_token f (some p) log_index =
    if is_zero p.id
    then reject_token f id_required
    else rotate_validated f p log_index (validate_token_hash_and_prefix p.new_hash p.new_prefix)
