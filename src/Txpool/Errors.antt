-- ===== src/Txpool/Errors.antt =====
-- The error values of txpool/txpool.go and state/executor.go that the pool returns. `none` in an
-- `Option PoolError` is the nil error.
pub data PoolError : Type 0 where
  intrinsic_gas block_limit_exceeded negative_value extract_signature : PoolError
  invalid_sender tx_pool_overflow underpriced nonce_too_low : PoolError
  insufficient_funds invalid_account_state already_known oversized_data : PoolError
  max_enqueued_limit_reached reject_future_tx smart_contract_restricted : PoolError
  intrinsic_gas_overflow : PoolError
