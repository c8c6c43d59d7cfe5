-- ===== src/Txpool/Pool/Following.antt =====
-- The whole of processEvent keeps the pool's invariant, and does not panic.
use nxchain.Base.{
  ◌≡◌, refl, ap, List, [], ◌∷◌, arith, Yields, yields, Yields-then, Yields-test, Option-cases, inl,
  inr,
}
use nxchain.Base.Dict.{Dict, erase}
use nxchain.Types.{Transaction, Hash}
use nxchain.Txpool.World.{World}
use nxchain.Txpool.Index
use nxchain.Txpool.Pool.{Pool}
use nxchain.Txpool.Pool.Sync.{
  process_event, reset_with_headers, new_chain, note_block, note_tx, EventState, add_back,
  old_chain,
}
use nxchain.Txpool.Pool.Invariant.{IsPool}
use nxchain.Txpool.Pool.Syncing.{reset_accounts-IsPool}
use nxchain.Txpool.Pool.Cleaning.{skips-IsPool}

note_tx-old :
    (w : World) (tx : Transaction) (s : EventState) → s.old_txs ≡ [] → (note_tx w tx s).old_txs ≡ []
unfolding note_tx
note_tx-old w tx s h = ground (arith, ap (λ (m : Dict Transaction). erase tx.hash m) h)

note_block-old :
    (w : World) (txs : List Transaction) (s : EventState)
    → s.old_txs ≡ []
    → (note_block w txs s).old_txs ≡ []
unfolding note_block
note_block-old w [] s h = h
note_block-old w (tx ∷ txs) s h = note_block-old w txs (note_tx w tx s) (note_tx-old w tx s h)

new_chain-keeps :
    (w : World) (headers : List Hash) (s : EventState) (p : Pool)
    → s.old_txs ≡ []
    → IsPool p
    → ((new_chain w headers s p).0.old_txs ≡ []) × IsPool (new_chain w headers s p).1
unfolding new_chain
new_chain-keeps w [] s p o h = (o, h)
new_chain-keeps w (b ∷ headers) s p o h = elim (Option-cases (w.get_block_by_hash b)) [
  | inl unknown ↦ rw (unknown, new_chain) (new_chain-keeps w headers s p o h)
  | inr (txs, e) ↦
      rw (e, new_chain)
        (new_chain-keeps w headers (note_block w txs s)
          (record p { index = Index.remove txs p.index }) (note_block-old w txs s o)
          (record { book = h.book; height = h.height; executables = h.executables }))
]

-- On a pool that holds its invariant, ResetWithHeaders does not panic, whatever the chain and the
-- headers, and the pool holds its invariant again.
pub reset_with_headers-IsPool :
    (w : World) (headers : List Hash) (p : Pool)
    → IsPool p
    → Yields IsPool (reset_with_headers w headers p)
unfolding reset_with_headers process_event old_chain add_back
reset_with_headers-IsPool w headers p h =
    let start : EventState = record { nonces = []; old_txs = [] } in
    let s = (new_chain w headers start p).0 in
    let k = new_chain-keeps w headers start p refl h in
    rw (k.0, add_back)
      (Yields-then (reset_accounts-IsPool s.nonces (new_chain w headers start p).1 k.1)
        λ q t. Yields-test q.sealing (λ validator. yields q t) (λ other. skips-IsPool s.nonces q t))
