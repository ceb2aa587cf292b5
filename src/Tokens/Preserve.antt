-- ===== src/Tokens/Preserve.antt =====
-- The token commands (internal/cluster/raft/fsm.go) and the invariant of the tokens.
use iot_edge_db.Prelude.{
  ℕ, ◌≡◌, refl, inl, inr, false, Bool-cases, Option, none, some, List, arith, bytes, ◌&&◌, elem, ℤ,
  int64, is_zero,
}
use iot_edge_db.GoMap.{get, get-put, get-remove, get-empty, str_key, remove, int_key}
use iot_edge_db.Types.{
  TokenEntry, CreateTokenPayload, UpdateTokenPayload, IdPayload, RotateTokenPayload, Error, ◌>>◌,
}
use iot_edge_db.Tokens.Permissions.{validate_permission_string}
use iot_edge_db.Tokens.Prefixes.{elem-add_prefix, elem-drop_prefix, drop_prefix, prefix_ids}
use iot_edge_db.Tokens.State.{
  Tokens, new_tokens, validate_token_hash_and_prefix, validate_token_entry, check, stamped,
  create_validated, apply_create_token, changed, check_changed_permissions, taken, updated_token,
  update_found, update_checked, apply_update_token, revoke_found, apply_revoke_token, delete_found,
  delete_token, rotate_found, rotate_validated, apply_rotate_token,
}
use iot_edge_db.Tokens.Consistent.{
  IsConsistent, inc_rejected_tokens-IsConsistent, insert_token-IsConsistent,
}

-- A chain of validations that returns nil has passed its second and its third.
>>-parts : (a b d : Option Error) → ((a >> b) >> d) ≡ none → (b ≡ none) × (d ≡ none)
>>-parts none none none h = (refl, refl)
>>-parts none none (some e) h = cc
>>-parts none (some e) d h = cc
>>-parts (some e) b d h = cc

-- Validation of the whole entry is also validation of its hash and permissions.
validated_parts :
    (e : TokenEntry)
    → validate_token_entry e ≡ none
    → (validate_token_hash_and_prefix e.token_hash e.token_prefix ≡ none)
      × (validate_permission_string e.permissions ≡ none)
unfolding validate_token_entry
validated_parts e h =
    >>-parts (check _ _ >> check _ _) (validate_token_hash_and_prefix e.token_hash e.token_prefix)
      (validate_permission_string e.permissions) h

module _ {f : Tokens} (c : IsConsistent f) where
  create_validated-IsConsistent :
      (token : TokenEntry) (n : ℕ) (o : Option Error)
      → validate_token_entry token ≡ o
      → get f.tokens (int64 n) ≡ none
      → IsConsistent (create_validated f token n o).state
  create_validated-IsConsistent token n (some e) v fresh = inc_rejected_tokens-IsConsistent c
  create_validated-IsConsistent token n none v fresh =
      elim (Bool-cases (is_zero token.created_at_unix_nano)) [
        | inl z ↦ rw z (inc_rejected_tokens-IsConsistent c)
        | inr z ↦ rw z (
            insert_token-IsConsistent c (stamped token n) _ refl fresh (validated_parts token v).0
              (validated_parts token v).1)
      ]

  update_found-IsConsistent :
      (p : UpdateTokenPayload) (n : ℕ) (o : Option TokenEntry)
      → get f.tokens p.id ≡ o
      → check_changed_permissions p ≡ none
      → IsConsistent (update_found f p n o).state
  update_found-IsConsistent p n none e v = inc_rejected_tokens-IsConsistent c
  update_found-IsConsistent p n (some t) e v =
      elim (Bool-cases (changed (bytes "name") p && taken (get f.tokens_by_name p.name) p.id)) [
        | inl r ↦ rw r (inc_rejected_tokens-IsConsistent c)
        | inr r ↦ rw r (record {
          keyed = λ id x k.
              ground (
                arith,
                get-put f.tokens p.id (updated_token t p n) id,
                c.keyed id x,
                c.keyed p.id t,
              );
          named = λ q id. ground (
            arith,
            get-put f.tokens p.id (updated_token t p n) id,
            get-put (remove f.tokens_by_name t.name) p.name t.id q,
            get-remove f.tokens_by_name t.name q,
            c.named q id,
            c.named t.name id,
            c.named t.name p.id,
            c.named p.name id,
            c.named p.name p.id,
            c.keyed p.id t,
          );
          prefixed = λ q id.
              ground (arith, get-put f.tokens p.id (updated_token t p n) id, c.prefixed q id);
          hashed = λ id x k. ground (
            arith,
            get-put f.tokens p.id (updated_token t p n) id,
            c.hashed id x,
            c.hashed p.id t,
          );
          permitted = λ id x k. ground (
            arith,
            get-put f.tokens p.id (updated_token t p n) id,
            c.permitted id x,
            c.permitted p.id t,
          );
        })
      ]

  update_checked-IsConsistent :
      (p : UpdateTokenPayload) (n : ℕ) (o : Option Error)
      → check_changed_permissions p ≡ o
      → IsConsistent (update_checked f p n o).state
  update_checked-IsConsistent p n none v = update_found-IsConsistent p n _ refl v
  update_checked-IsConsistent p n (some e) v = inc_rejected_tokens-IsConsistent c

  revoke_found-IsConsistent :
      (id : ℤ) (n : ℕ) (o : Option TokenEntry)
      → get f.tokens id ≡ o
      → IsConsistent (revoke_found f id n o).state
  revoke_found-IsConsistent i n none e = c
  revoke_found-IsConsistent i n (some t) e =
      let t' : TokenEntry = record t { enabled = false; lsn = n } in
      record {
        keyed = λ id x k. ground (arith, get-put f.tokens i t' id, c.keyed id x, c.keyed i t);
        named = λ q id. ground (arith, get-put f.tokens i t' id, c.named q id);
        prefixed = λ q id. ground (arith, get-put f.tokens i t' id, c.prefixed q id);
        hashed = λ id x k. ground (arith, get-put f.tokens i t' id, c.hashed id x, c.hashed i t);
        permitted =
            λ id x k. ground (arith, get-put f.tokens i t' id, c.permitted id x, c.permitted i t);
      }

  delete_found-IsConsistent :
      (id : ℤ) (o : Option TokenEntry)
      → get f.tokens id ≡ o
      → IsConsistent (delete_found f id o).state
  delete_found-IsConsistent i none e = c
  delete_found-IsConsistent i (some t) e = record {
    keyed = λ id x k. ground (arith, get-remove f.tokens i id, c.keyed id x);
    named = λ q id. ground (
      arith,
      get-remove f.tokens i id,
      get-remove f.tokens_by_name t.name q,
      c.named q id,
      c.named q i,
    );
    prefixed = λ q id. ground (
      arith,
      get-remove f.tokens i id,
      elem-drop_prefix id i f.tokens_by_prefix t.token_prefix q,
      c.prefixed q id,
    );
    hashed = λ id x k. ground (arith, get-remove f.tokens i id, c.hashed id x);
    permitted = λ id x k. ground (arith, get-remove f.tokens i id, c.permitted id x);
  }

  rotate_found-IsConsistent :
      (p : RotateTokenPayload) (n : ℕ) (o : Option TokenEntry)
      → get f.tokens p.id ≡ o
      → validate_token_hash_and_prefix p.new_hash p.new_prefix ≡ none
      → IsConsistent (rotate_found f p n o).state
  rotate_found-IsConsistent p n none e v = c
  rotate_found-IsConsistent p n (some t) e v =
      let t' : TokenEntry = record t {
        token_hash = p.new_hash;
        token_prefix = p.new_prefix;
        lsn = n;
      } in
      record {
        keyed = λ id x k. ground (arith, get-put f.tokens p.id t' id, c.keyed id x, c.keyed p.id t);
        named = λ q id. ground (arith, get-put f.tokens p.id t' id, c.named q id);
        prefixed = λ q id. ground (
          arith,
          get-put f.tokens p.id t' id,
          elem-add_prefix id p.id (drop_prefix f.tokens_by_prefix t.token_prefix p.id) p.new_prefix
              q,
          elem-drop_prefix id p.id f.tokens_by_prefix t.token_prefix q,
          c.prefixed q id,
        );
        hashed = λ id x k. ground (arith, get-put f.tokens p.id t' id, c.hashed id x);
        permitted = λ id x k.
            ground (arith, get-put f.tokens p.id t' id, c.permitted id x, c.permitted p.id t);
      }

  rotate_validated-IsConsistent :
      (p : RotateTokenPayload) (n : ℕ) (o : Option Error)
      → validate_token_hash_and_prefix p.new_hash p.new_prefix ≡ o
      → IsConsistent (rotate_validated f p n o).state
  rotate_validated-IsConsistent p n none v = rotate_found-IsConsistent p n _ refl v
  rotate_validated-IsConsistent p n (some e) v = inc_rejected_tokens-IsConsistent c

  -- Creating a token keeps consistent tokens consistent, when the log index, which becomes its id, is the
  -- id of no token.
  pub create_token-IsConsistent :
      (o : Option CreateTokenPayload) (n : ℕ)
      → get f.tokens (int64 n) ≡ none
      → IsConsistent (apply_create_token f o n).state
  unfolding apply_create_token
  create_token-IsConsistent none n fresh = c
  create_token-IsConsistent (some p) n fresh = create_validated-IsConsistent p.token n _ refl fresh

  -- Updating a token keeps consistent tokens consistent, whatever fields the command names: a new name
  -- moves the index by name, and is refused when another token has it.
  pub update_token-IsConsistent :
      (o : Option UpdateTokenPayload) (n : ℕ) → IsConsistent (apply_update_token f o n).state
  unfolding apply_update_token
  update_token-IsConsistent none n = c
  update_token-IsConsistent (some p) n = elim (Bool-cases (is_zero p.id)) [
    | inl z ↦ rw z (inc_rejected_tokens-IsConsistent c)
    | inr z ↦ rw z (update_checked-IsConsistent p n _ refl)
  ]

  pub revoke_token-IsConsistent :
      (o : Option IdPayload) (n : ℕ) → IsConsistent (apply_revoke_token f o n).state
  unfolding apply_revoke_token
  revoke_token-IsConsistent none n = c
  revoke_token-IsConsistent (some p) n = elim (Bool-cases (is_zero p.id)) [
    | inl z ↦ rw z (inc_rejected_tokens-IsConsistent c)
    | inr z ↦ rw z (revoke_found-IsConsistent p.id n _ refl)
  ]

  -- Deleting a token keeps consistent tokens consistent: both indices forget it.
  pub delete_token-IsConsistent : (o : Option IdPayload) → IsConsistent (delete_token f o).state
  unfolding delete_token
  delete_token-IsConsistent none = c
  delete_token-IsConsistent (some p) = elim (Bool-cases (is_zero p.id)) [
    | inl z ↦ rw z (inc_rejected_tokens-IsConsistent c)
    | inr z ↦ rw z (delete_found-IsConsistent p.id _ refl)
  ]

  -- Rotating a token keeps consistent tokens consistent: its new hash and prefix are valid, and the index
  -- by prefix has it under the new prefix only.
  pub rotate_token-IsConsistent :
      (o : Option RotateTokenPayload) (n : ℕ) → IsConsistent (apply_rotate_token f o n).state
  unfolding apply_rotate_token
  rotate_token-IsConsistent none n = c
  rotate_token-IsConsistent (some p) n = elim (Bool-cases (is_zero p.id)) [
    | inl z ↦ rw z (inc_rejected_tokens-IsConsistent c)
    | inr z ↦ rw z (rotate_validated-IsConsistent p n _ refl)
  ]

pub new_tokens-IsConsistent : IsConsistent new_tokens
unfolding elem prefix_ids
new_tokens-IsConsistent = record {
  keyed = λ id x k. ground (arith, get-empty {V = TokenEntry} id);
  named = λ q id. ground (arith, get-empty {V = TokenEntry} id, get-empty {V = ℤ} q);
  prefixed = λ q id. ground (arith, get-empty {V = TokenEntry} id, get-empty {V = List ℤ} q);
  hashed = λ id x k. ground (arith, get-empty {V = TokenEntry} id);
  permitted = λ id x k. ground (arith, get-empty {V = TokenEntry} id);
}
