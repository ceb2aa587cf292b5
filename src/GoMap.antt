-- ===== src/GoMap.antt =====
-- Go's `map`: lookup, assignment, `delete`, `len(m) == 0` and the keys that `range` visits. Proofs
-- elsewhere use the laws, and only tests compute. Go visits the keys of a map in an order of its own;
-- `keys` fixes one, and the theorems about loops hold whatever it is.
mod Assoc
mod Base
mod Nested
mod Keys
mod Loops
mod Every
mod Range
mod Sift
mod Sifted
unfoldable pub use Base.*
unfoldable pub use Nested.*
unfoldable pub use Keys.*
unfoldable pub use Loops.*
unfoldable pub use Sift.*
unfoldable pub use Sifted.*
unfoldable pub use Range.*
unfoldable pub use Every.*
