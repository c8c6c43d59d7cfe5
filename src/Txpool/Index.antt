-- ===== src/Txpool/Index.antt =====
-- txpool/lookup_map.go: the transactions of the pool by their hash.
pub mod Laws
use nxchain.Base.{Bool, true, false, Option, List, [], ◌∷◌, if◌then◌else◌}
use nxchain.Base.Dict.{Dict, lookup, contains, insert, erase}
use nxchain.Types.{Transaction, Hash}

abbrev pub LookupMap : Type 0
LookupMap = Dict Transaction

-- False, and no change, if the hash is known.
unfoldable pub add : Transaction → LookupMap → Bool × LookupMap
add tx m = if contains tx.hash m then (false, m) else (true, insert tx.hash tx m)

unfoldable pub remove : List Transaction → LookupMap → LookupMap
remove [] m = m
remove (tx ∷ txs) m = remove txs (erase tx.hash m)

unfoldable pub get : Hash → LookupMap → Option Transaction
get hash m = lookup hash m
