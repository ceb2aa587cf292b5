-- ===== src/Tests/Nonces.antt =====
-- The theorem about replays, at a concrete cache.
use iot_edge_db.Prelude.{List, ◌≡◌, refl, false, [], ◌∷◌, bytes, arith}
use iot_edge_db.GoMap.{empty, get, str_key}
use iot_edge_db.Nonces.{new_nonce_cache, track}
use iot_edge_db.Nonces.Replay.{Call, track_all, all_before, track-replay}

-- Another node uses the same nonce, and the cache is swept.
abbrev between : List Call
between = record { at = 61000000020; node_id = bytes "n2"; nonce = bytes "x" } ∷ []

track-replay_example :
    (track 200000000000
      (bytes "n1")
      (bytes "x")
      (track_all between (track 5 (bytes "n1") (bytes "x") (new_nonce_cache 1 300000000000)).1)).0
    ≡ false
unfolding track get empty all_before
track-replay_example =
    track-replay 5 200000000000 (bytes "n1") (bytes "x") (new_nonce_cache 1 300000000000) between
      (omega arith) refl refl (omega arith)
