-- ===== src/Txpool/Index/Laws.antt =====
-- What the index answers after it changed.
use nxchain.Base.{
  ◌⊎◌, ◌≡◌, ◌≢◌, Bool, true, false, ◌||◌, none, some, List, [], ◌∷◌, arith, if◌then◌else◌, ◌==◌,
  refl,
}
use nxchain.Base.Dict.{lookup-insert, lookup-erase, erase}
use nxchain.Types.{Transaction, Hash}
use nxchain.Txpool.Index.{LookupMap, add, remove, get}

-- Some transaction of the list has the hash.
pub mentions : Hash → List Transaction → Bool
mentions h [] = false
mentions h (tx ∷ txs) = tx.hash == h || mentions h txs

-- add refuses a known hash and changes nothing; else it finds the transaction under its hash, and
-- every other hash as before.
pub get-add :
    (tx : Transaction) (m : LookupMap) (h : Hash)
    → ((add tx m).0 ≡ false) × (get tx.hash m ≢ none) × ((add tx m).1 ≡ m)
      ⊎ ((add tx m).0 ≡ true)
        × (get tx.hash m ≡ none)
        × (get h (add tx m).1 ≡ (if tx.hash == h then some tx else get h m))
unfolding add get
get-add tx m h = ground (arith, lookup-insert tx.hash h tx m)

-- remove forgets exactly the hashes of the list.
pub get-remove :
    (txs : List Transaction) (m : LookupMap) (h : Hash)
    → get h (remove txs m) ≡ (if mentions h txs then none else get h m)
unfolding get remove mentions
get-remove [] m h = refl
get-remove (tx ∷ txs) m h =
    ground (arith, get-remove txs (erase tx.hash m) h, lookup-erase tx.hash h m)
