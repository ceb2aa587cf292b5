-- ===== src/Nonces.antt =====
-- The cache that refuses replayed messages (internal/cluster/security/nonce_cache.go). Times are in nanoseconds;
-- each call is given the one reading of the clock that it makes.
pub mod Replay
use iot_edge_db.Prelude.{
  ℕ, ◌+◌, Bool, true, false, Option, none, some, [], ◌∷◌, ◌++◌, ltb, leb, if◌then◌else◌, GoString,
}
use iot_edge_db.GoMap.{Map, empty, get, put, remove, fold_map, str_key}

-- `entries` maps a key to the time when it expires.
pub record NonceCache : Type 0 where
  pub entries : Map GoString ℕ
  pub ttl : ℕ
  pub last_evict : ℕ

abbrev pub nonce_cache_evict_interval : ℕ
nonce_cache_evict_interval = 60000000000

abbrev pub new_nonce_cache : ℕ → ℕ → NonceCache
new_nonce_cache now ttl = record { entries = empty; ttl = ttl; last_evict = now }

abbrev pub evict_entry : ℕ → Map GoString ℕ → GoString → ℕ → Map GoString ℕ
evict_entry now m key expiry = if leb expiry now then remove m key else m

-- evictExpiredLocked
unfoldable pub evict_expired : ℕ → Map GoString ℕ → Map GoString ℕ
unfolding fold_map
evict_expired now m = fold_map (evict_entry now) m m

-- nodeID + "\x00" + nonce
abbrev pub nonce_key : GoString → GoString → GoString
nonce_key node_id nonce = node_id ++ 0 ∷ nonce

abbrev pub is_replay : ℕ → Option ℕ → Bool
is_replay now none = false
is_replay now (some expiry) = ltb now expiry

abbrev pub evict_due : ℕ → NonceCache → NonceCache
evict_due now c =
    if ltb (c.last_evict + nonce_cache_evict_interval) now
    then record c { entries = evict_expired now c.entries; last_evict = now }
    else c

-- The answer of Track, and the cache after it.
unfoldable pub track : ℕ → GoString → GoString → NonceCache → Bool × NonceCache
unfolding evict_expired
track now node_id nonce c =
    let key = nonce_key node_id nonce in
    if is_replay now (get c.entries key)
    then (false, c)
    else (true, evict_due now (record c { entries = put c.entries key (now + c.ttl) }))
