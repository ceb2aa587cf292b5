-- ===== src/Nonces/Replay.antt =====
-- Replays of a message whose nonce was tracked (internal/cluster/security/nonce_cache.go).
use iot_edge_db.Prelude.{
  ℕ, ◌≡◌, refl, ap, ◌∙◌, ◌+◌, ◌<◌, Bool, true, false, ◌&&◌, some, List, [], ◌∷◌, arith, ltb,
  Bool-cases, inl, inr, GoString, str_dec,
}
use iot_edge_db.GoMap.{Map, get, put, get-put, get-remove, fold_map-keeps, str_key}
use iot_edge_db.Nonces.{
  NonceCache, nonce_cache_evict_interval, evict_entry, evict_expired, nonce_key, is_replay,
  evict_due, track,
}

-- A call of Track: when, the node and the nonce.
pub record Call : Type 0 where
  pub at : ℕ
  pub node_id : GoString
  pub nonce : GoString

unfoldable pub track_all : List Call → NonceCache → NonceCache
unfolding track
track_all [] c = c
track_all (call ∷ calls) c = track_all calls (track call.at call.node_id call.nonce c).1

unfoldable pub all_before : ℕ → List Call → Bool
all_before end' [] = true
all_before end' (call ∷ calls) = let rest = all_before end' calls in ltb call.at end' && rest

-- An entry that has not expired survives the eviction.
evict_expired-live :
    (now : ℕ) (m : Map GoString ℕ) (key : GoString) (expiry : ℕ)
    → now < expiry
    → get m key ≡ some expiry
    → get (evict_expired now m) key ≡ some expiry
unfolding evict_expired
evict_expired-live now m key expiry lt h =
    fold_map-keeps (evict_entry now) m (λ acc. get acc key ≡ some expiry)
      (λ acc k v e g. elim (str_dec k key) [
        | yes p ↦ ground (arith, get-remove acc k key, ap (get m) p)
        | no n ↦ ground (arith, get-remove acc k key)
      ])
      m h

module _ (key : GoString) (expiry : ℕ) where
  evict_due-live :
      (now : ℕ) (c : NonceCache)
      → now < expiry
      → get c.entries key ≡ some expiry
      → get (evict_due now c).entries key ≡ some expiry
  evict_due-live now c lt h =
      elim (Bool-cases (ltb (c.last_evict + nonce_cache_evict_interval) now)) [
        | inl t ↦ rw t (evict_expired-live now c.entries key expiry lt h)
        | inr t ↦ rw t h
      ]

  track-live :
      (now : ℕ) (node_id nonce : GoString) (c : NonceCache)
      → now < expiry
      → get c.entries key ≡ some expiry
      → get (track now node_id nonce c).1.entries key ≡ some expiry
  unfolding track
  track-live now node_id nonce c lt h =
      let k = nonce_key node_id nonce in
      let stored : NonceCache = record c { entries = put c.entries k (now + c.ttl) } in
      elim (Bool-cases (is_replay now (get c.entries k))) [
        | inl t ↦ rw t h
        | inr t ↦ rw t (
            evict_due-live now stored lt (elim (str_dec k key) [
              | yes p ↦ absurd (ground (arith, t, ap (get c.entries) p, h, lt))
              | no n ↦ ground (arith, get-put c.entries k (now + c.ttl) key, h)
            ]))
      ]

  track_all-live :
      (calls : List Call) (c : NonceCache)
      → all_before expiry calls ≡ true
      → get c.entries key ≡ some expiry
      → get (track_all calls c).entries key ≡ some expiry
  unfolding track_all all_before
  track_all-live [] c b h = h
  track_all-live (call ∷ calls) c b h =
      track_all-live calls (track call.at call.node_id call.nonce c).1 (ground (arith, b))
        (track-live call.at call.node_id call.nonce c (ground (arith, b)) h)

-- A call of Track that answers true has stored its key.
track-stores :
    (now : ℕ) (node_id nonce : GoString) (c : NonceCache)
    → 0 < c.ttl
    → (track now node_id nonce c).0 ≡ true
    → get (track now node_id nonce c).1.entries (nonce_key node_id nonce) ≡ some (now + c.ttl)
unfolding track
track-stores now node_id nonce c lt h =
    let k = nonce_key node_id nonce in
    let stored : NonceCache = record c { entries = put c.entries k (now + c.ttl) } in
    elim (Bool-cases (is_replay now (get c.entries k))) [
      | inl t ↦ absurd (let refused : false ≡ true = rw t at h in ground (arith, refused))
      | inr t ↦ rw t (
          evict_due-live k (now + c.ttl) now stored (omega arith)
            (ground (arith, get-put c.entries k (now + c.ttl) k)))
    ]

-- Once Track has accepted a nonce of a node, it refuses the same nonce of the same node at any time before the
-- entry expires, whatever calls come in between, as long as they too come before that time.
pub track-replay :
    (now later : ℕ) (node_id nonce : GoString) (c : NonceCache) (calls : List Call)
    → 0 < c.ttl
    → (track now node_id nonce c).0 ≡ true
    → all_before (now + c.ttl) calls ≡ true
    → later < now + c.ttl
    → (track later node_id nonce (track_all calls (track now node_id nonce c).1)).0 ≡ false
unfolding track
track-replay now later node_id nonce c calls lt h b l =
    let key = nonce_key node_id nonce in
    let expiry = now + c.ttl in
    let live =
      track_all-live key expiry calls (track now node_id nonce c).1 b
        (track-stores now node_id nonce c lt h) in
    let replay : is_replay later (get (track_all calls (track now node_id nonce c).1).entries key)
        ≡ true =
      ap (is_replay later) live ∙ ground (arith, l) in
    rw replay refl
