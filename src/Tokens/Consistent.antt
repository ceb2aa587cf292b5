-- ===== src/Tokens/Consistent.antt =====
-- The invariant of the tokens between two commands (internal/cluster/raft/fsm.go).
use iot_edge_db.Prelude.{
  ◌≡◌, ite, Bool, true, false, Option, none, some, arith, GoString, str_dec, elem, ℤ, int_dec,
}
use iot_edge_db.GoMap.{get, get-put, str_key, int_key}
use iot_edge_db.Types.{TokenEntry}
use iot_edge_db.Tokens.Permissions.{validate_permission_string}
use iot_edge_db.Tokens.Prefixes.{prefix_ids, elem-add_prefix}
use iot_edge_db.Tokens.State.{
  Tokens, inc_rejected_tokens, validate_token_hash_and_prefix, insert_token,
}

-- The index holds this id.
abbrev pub points_to : ℤ → Option ℤ → Bool
points_to id none = false
points_to id (some x) = ite (int_dec x id) true false

abbrev pub has_name : GoString → Option TokenEntry → Bool
has_name q none = false
has_name q (some e) = ite (str_dec e.name q) true false

abbrev pub has_prefix : GoString → Option TokenEntry → Bool
has_prefix q none = false
has_prefix q (some e) = ite (str_dec e.token_prefix q) true false

-- Both indices say exactly which token has which name and which prefix. So no two tokens share a
-- name.
pub record IsConsistent (f : Tokens) : Type 0 where
  pub keyed : (id : ℤ) (e : TokenEntry) → get f.tokens id ≡ some e → e.id ≡ id
  pub named :
      (q : GoString) (id : ℤ) → points_to id (get f.tokens_by_name q) ≡ has_name q (get f.tokens id)
  pub prefixed :
      (q : GoString) (id : ℤ)
      → elem int_dec id (prefix_ids f.tokens_by_prefix q) ≡ has_prefix q (get f.tokens id)
  pub hashed :
      (id : ℤ) (e : TokenEntry)
      → get f.tokens id ≡ some e
      → validate_token_hash_and_prefix e.token_hash e.token_prefix ≡ none
  pub permitted :
      (id : ℤ) (e : TokenEntry)
      → get f.tokens id ≡ some e
      → validate_permission_string e.permissions ≡ none

module _ {f : Tokens} (c : IsConsistent f) where
  pub inc_rejected_tokens-IsConsistent : IsConsistent (inc_rejected_tokens f)
  inc_rejected_tokens-IsConsistent = record {
    keyed = c.keyed;
    named = c.named;
    prefixed = c.prefixed;
    hashed = c.hashed;
    permitted = c.permitted;
  }

  pub insert_token-IsConsistent :
      (e : TokenEntry) (o : Option ℤ)
      → get f.tokens_by_name e.name ≡ o
      → get f.tokens e.id ≡ none
      → validate_token_hash_and_prefix e.token_hash e.token_prefix ≡ none
      → validate_permission_string e.permissions ≡ none
      → IsConsistent (insert_token f e o).state
  insert_token-IsConsistent e (some x) h fresh v w = inc_rejected_tokens-IsConsistent
  insert_token-IsConsistent e none h fresh v w = record {
    keyed = λ id x k. ground (arith, get-put f.tokens e.id e id, c.keyed id x);
    named = λ q id.
        ground
          (arith, get-put f.tokens e.id e id, get-put f.tokens_by_name e.name e.id q, c.named q id);
    prefixed = λ q id. ground (
      arith,
      get-put f.tokens e.id e id,
      elem-add_prefix id e.id f.tokens_by_prefix e.token_prefix q,
      c.prefixed q id,
    );
    hashed = λ id x k. ground (arith, get-put f.tokens e.id e id, c.hashed id x);
    permitted = λ id x k. ground (arith, get-put f.tokens e.id e id, c.permitted id x);
  }
