-- ===== src/Tokens/Unused.antt =====
-- Which ids of tokens the token commands (internal/cluster/raft/fsm.go) use.
use iot_edge_db.Prelude.{
  ◌≡◌, refl, ◌≢◌, ◌&&◌, Option, none, some, arith, ℕ, ℤ, int64, is_zero, Bool-cases, inl, inr,
  bytes,
}
use iot_edge_db.GoMap.{Map, get, put, get-put, get-remove, int_key, str_key}
use iot_edge_db.Types.{
  TokenEntry, CreateTokenPayload, UpdateTokenPayload, RotateTokenPayload, IdPayload, Error,
}
use iot_edge_db.Tokens.State

put_unused :
    (m : Map ℤ TokenEntry) (i k : ℤ) (old v : TokenEntry)
    → get m i ≡ some old
    → get m k ≡ none
    → get (put m i v) k ≡ none
put_unused m i k old v h u = ground (arith, get-put m i v k)

module _ (f : State.Tokens) (k : ℤ) (u : get f.tokens k ≡ none) where
  insert_unused :
      (e : TokenEntry) (o : Option ℤ)
      → e.id ≢ k
      → get (State.insert_token f e o).state.tokens k ≡ none
  insert_unused e (some x) ne = u
  insert_unused e none ne = ground (arith, get-put f.tokens e.id e k)

  created_unused :
      (t : TokenEntry) (i : ℕ) (v : Option Error)
      → int64 i ≢ k
      → get (State.create_validated f t i v).state.tokens k ≡ none
  created_unused t i (some x) ne = u
  created_unused t i none ne = elim (Bool-cases (is_zero t.created_at_unix_nano)) [
    | inl h ↦ rw h u
    | inr h ↦ rw h (insert_unused (State.stamped t i) _ ne)
  ]

  pub create_token_unused :
      (p : Option CreateTokenPayload) (i : ℕ)
      → int64 i ≢ k
      → get (State.apply_create_token f p i).state.tokens k ≡ none
  unfolding State.apply_create_token
  create_token_unused none i ne = u
  create_token_unused (some p) i ne = created_unused p.token i _ ne

  update_found_unused :
      (p : UpdateTokenPayload) (i : ℕ) (o : Option TokenEntry)
      → get f.tokens p.id ≡ o
      → get (State.update_found f p i o).state.tokens k ≡ none
  update_found_unused p i none h = u
  update_found_unused p i (some e) h =
      elim (Bool-cases
        (State.changed (bytes "name") p && State.taken (get f.tokens_by_name p.name) p.id)) [
          | inl t ↦ rw t u
          | inr t ↦ rw t (put_unused f.tokens p.id k e _ h u)
        ]

  update_checked_unused :
      (p : UpdateTokenPayload) (i : ℕ) (v : Option Error)
      → get (State.update_checked f p i v).state.tokens k ≡ none
  update_checked_unused p i (some x) = u
  update_checked_unused p i none = update_found_unused p i _ refl

  pub update_token_unused :
      (p : Option UpdateTokenPayload) (i : ℕ)
      → get (State.apply_update_token f p i).state.tokens k ≡ none
  unfolding State.apply_update_token
  update_token_unused none i = u
  update_token_unused (some p) i = elim (Bool-cases (is_zero p.id)) [
    | inl h ↦ rw h u
    | inr h ↦ rw h (update_checked_unused p i _)
  ]

  revoke_found_unused :
      (id : ℤ) (i : ℕ) (o : Option TokenEntry)
      → get f.tokens id ≡ o
      → get (State.revoke_found f id i o).state.tokens k ≡ none
  revoke_found_unused id i none h = u
  revoke_found_unused id i (some e) h = put_unused f.tokens id k e _ h u

  pub revoke_token_unused :
      (p : Option IdPayload) (i : ℕ) → get (State.apply_revoke_token f p i).state.tokens k ≡ none
  unfolding State.apply_revoke_token
  revoke_token_unused none i = u
  revoke_token_unused (some p) i = elim (Bool-cases (is_zero p.id)) [
    | inl h ↦ rw h u
    | inr h ↦ rw h (revoke_found_unused p.id i _ refl)
  ]

  rotate_found_unused :
      (p : RotateTokenPayload) (i : ℕ) (o : Option TokenEntry)
      → get f.tokens p.id ≡ o
      → get (State.rotate_found f p i o).state.tokens k ≡ none
  rotate_found_unused p i none h = u
  rotate_found_unused p i (some e) h = put_unused f.tokens p.id k e _ h u

  rotate_validated_unused :
      (p : RotateTokenPayload) (i : ℕ) (v : Option Error)
      → get (State.rotate_validated f p i v).state.tokens k ≡ none
  rotate_validated_unused p i (some x) = u
  rotate_validated_unused p i none = rotate_found_unused p i _ refl

  pub rotate_token_unused :
      (p : Option RotateTokenPayload) (i : ℕ)
      → get (State.apply_rotate_token f p i).state.tokens k ≡ none
  unfolding State.apply_rotate_token
  rotate_token_unused none i = u
  rotate_token_unused (some p) i = elim (Bool-cases (is_zero p.id)) [
    | inl h ↦ rw h u
    | inr h ↦ rw h (rotate_validated_unused p i _)
  ]

  delete_found_unused :
      (id : ℤ) (o : Option TokenEntry) → get (State.delete_found f id o).state.tokens k ≡ none
  delete_found_unused id none = u
  delete_found_unused id (some e) = ground (arith, get-remove f.tokens id k)

  pub delete_token_unused :
      (p : Option IdPayload) → get (State.delete_token f p).state.tokens k ≡ none
  unfolding State.delete_token
  delete_token_unused none = u
  delete_token_unused (some p) = elim (Bool-cases (is_zero p.id)) [
    | inl h ↦ rw h u
    | inr h ↦ rw h (delete_found_unused p.id _)
  ]
