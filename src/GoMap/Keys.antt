-- ===== src/GoMap/Keys.antt =====
-- The key types of the program's maps: strings and int64 ids.
use iot_edge_db.Prelude.{GoString, str_dec, ℤ, int_dec}
use iot_edge_db.GoMap.Base.{Key}

instance abbrev pub str_key : Key GoString
str_key = record { dec = str_dec }

instance abbrev pub int_key : Key ℤ
int_key = record { dec = int_dec }
