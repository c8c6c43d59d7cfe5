-- ===== src/Evm/Gas/Data.antt =====
-- The instructions of Instructions/Data, as frames.
use nxchain.Base.{ℕ, ◌≤◌, ◌+◌, some, List, arith, ltb, leb, ◌==◌, length, ◌&&◌, ◌||◌}
use nxchain.Chain.{ForksInTime}
use nxchain.Types.{Hash, u64_mod}
use nxchain.State.Runtime.{VmError, StorageStatus, Host}
use nxchain.Evm.{State, store, slice}
use nxchain.Evm.Instructions.Values.{pushing}
use nxchain.Evm.Instructions.Data.{
  mload, mstore, mstore8, copy_from, copy_return_data, return_data_copied, returndatacopy, sha3,
  extcodecopy, sstore_cost, sstore,
}
use nxchain.Evm.Gas.{
  Frame, Ends, Frame-refl, Frame-weaken, Yields, Yields-if, Yields-any, popping-Yields, done, kept,
  pushed, exited, paying-Frame, allocating-Frame, getting-Frame,
}

module _ {W : Type 0} where
  Frame-memory :
      {n : ℕ} {c c' : State W} (m : List ℕ) → Frame n c c' → Frame n c (record c' { memory = m })
  Frame-memory m f = record {
    config = f.config;
    code = f.code;
    bitmap = f.bitmap;
    ip = f.ip;
    spent = f.spent;
  }

  pub Frame-world :
      {n : ℕ} {c c' : State W} (w : W) → Frame n c c' → Frame n c (record c' { world = w })
  Frame-world w f = record {
    config = f.config;
    code = f.code;
    bitmap = f.bitmap;
    ip = f.ip;
    spent = f.spent;
  }

  store-Frame :
      {n m : ℕ} {c c' : State W} (at : ℕ) (bytes : List ℕ)
      → Frame m c c'
      → n ≤ m
      → Yields (Ends n c) (store at bytes c')
  unfolding store
  store-Frame at bytes f le =
      Yields-if _ Yields.panics (Yields.yields (Ends.spends (Frame-memory _ (Frame-weaken le f))))

  module _ (c : State W) where
    pub mload-Frame : Yields (Ends 0 c) (mload c)
    unfolding mload pushing
    mload-Frame =
        popping-Yields _ _ (Frame-refl c)
          λ a s t. getting-Frame _ _ _ t λ bytes s' t'. pushed _ t' (omega arith)

    pub mstore-Frame : Yields (Ends 0 c) (mstore c)
    unfolding mstore
    mstore-Frame = popping-Yields _ _ (Frame-refl c) λ a s t.
        popping-Yields _ _ t
          λ v s' t'. allocating-Frame _ _ _ t' λ s'' t''. store-Frame _ _ t'' (omega arith)

    pub mstore8-Frame : Yields (Ends 0 c) (mstore8 c)
    unfolding mstore8
    mstore8-Frame = popping-Yields _ _ (Frame-refl c) λ a s t.
        popping-Yields _ _ t
          λ v s' t'. allocating-Frame _ _ _ t' λ s'' t''. store-Frame _ _ t'' (omega arith)

    pub copy_from-Frame : (input : State W → List ℕ) → Yields (Ends 0 c) (copy_from input c)
    unfolding copy_from
    copy_from-Frame input = popping-Yields _ _ (Frame-refl c) λ a s t.
        popping-Yields _ _ t λ b s' t'. popping-Yields _ _ t' λ len s'' t''.
          allocating-Frame _ _ _ t'' λ u v.
            paying-Frame _ _ v
              λ u' v'. Yields-if (len == 0) (kept v') (store-Frame _ _ v' (omega arith))

    copy_return_data-Frame :
        {m : ℕ} {c' : State W} (at low high : ℕ)
        → Frame m c c'
        → Yields (Ends 0 c) (copy_return_data at low high c')
    unfolding copy_return_data
    copy_return_data-Frame {c' = c'} at low high f =
        Yields-any {A = List ℕ} (slice low high c'.return_data) λ bytes.
          Yields-if _ Yields.panics
            (Yields.yields (Ends.spends (Frame-memory _ (Frame-weaken (omega arith) f))))

    return_data_copied-Frame :
        {c' : State W} (at low len : ℕ)
        → Frame 0 c c'
        → Yields (Ends 0 c) (return_data_copied at low len c')
    unfolding return_data_copied
    return_data_copied-Frame {c' = c'} at low len f =
        Yields-if (leb u64_mod low) (exited VmError.gas_uint_overflow f) (
          paying-Frame _ _ f λ s t.
            Yields-if (leb u64_mod (low + len) || ltb (length s.return_data) (low + len))
              (exited VmError.return_data_out_of_bounds t) (copy_return_data-Frame _ _ _ t))

    pub returndatacopy-Frame : Yields (Ends 0 c) (returndatacopy c)
    unfolding returndatacopy
    returndatacopy-Frame = popping-Yields _ _ (Frame-refl c) λ a s t.
        popping-Yields _ _ t λ b s' t'.
          popping-Yields _ _ t'
            λ len s'' t''. allocating-Frame a len _ t'' λ u v. return_data_copied-Frame a b len v

    pub sha3-Frame : (keccak256 : List ℕ → Hash) → Yields (Ends 0 c) (sha3 keccak256 c)
    unfolding sha3 pushing
    sha3-Frame keccak256 = popping-Yields _ _ (Frame-refl c) λ a s t.
        popping-Yields _ _ t λ len s' t'.
          getting-Frame _ _ _ t' λ bytes u v. paying-Frame _ _ v λ u' v'. pushed _ v' (omega arith)

    module _ (h : Host W) where
      pub extcodecopy-Frame : Yields (Ends 1 c) (extcodecopy h c)
      unfolding extcodecopy
      extcodecopy-Frame = popping-Yields _ _ (Frame-refl c) λ addr s t.
          popping-Yields _ _ t λ a s' t'. popping-Yields _ _ t' λ b s'' t''.
            popping-Yields _ _ t'' λ len s3 t3. allocating-Frame _ _ _ t3 λ u v.
              paying-Frame _ _ v λ u' v'. paying-Frame _ _ v' λ u'' v''.
                Yields-if (len == 0) (done v'' (ground arith)) (store-Frame _ _ v'' (ground arith))

sstore_cost_pos : (f : ForksInTime) (s : StorageStatus) → 1 ≤ sstore_cost f s
unfolding sstore_cost
sstore_cost_pos f StorageStatus.unchanged = ground arith
sstore_cost_pos f StorageStatus.modified = omega arith
sstore_cost_pos f StorageStatus.modified_again = ground arith
sstore_cost_pos f StorageStatus.added = omega arith
sstore_cost_pos f StorageStatus.deleted = omega arith

pub sstore-Frame : {W : Type 0} (c : State W) (h : Host W) → Yields (Ends 1 c) (sstore h c)
unfolding sstore
sstore-Frame c h = Yields-if c.msg.static (exited VmError.write_protection (Frame-refl c)) (
    Yields-if (c.config.istanbul && leb c.gas 2300) (exited VmError.out_of_gas (Frame-refl c)) (
      popping-Yields _ _ (Frame-refl c) λ key s t. popping-Yields _ _ t λ val s' t'.
        let status = (h.set_storage s'.msg.address key val s'.config s'.world).0 in
        paying-Frame (sstore_cost s'.config status) (λ u. some u) (Frame-world _ t')
          λ u v. done v (omega (arith, sstore_cost_pos s'.config status))))
