-- ===== src/Store/Retries.antt =====
-- The delays between the attempts of an execution: `CompleteExecution` of
-- backend/internal/store/workflow.go.
use razorpay_ai_revenue_reco.Base.{ℕ, zero, suc, ◌*◌, ◌≤◌, arith}
use razorpay_ai_revenue_reco.Store.Execution.{retry_delay, capped, pred}

-- A retry is due after at least a minute and at most 64 minutes.
pub retry_delay-bounds :
    (n : ℕ) → (60000000000 ≤ retry_delay n) × (retry_delay n ≤ 64 * 60000000000)
unfolding retry_delay capped pred
retry_delay-bounds zero = ground arith
retry_delay-bounds (suc zero) = ground arith
retry_delay-bounds (suc (suc zero)) = ground arith
retry_delay-bounds (suc (suc (suc zero))) = ground arith
retry_delay-bounds (suc (suc (suc (suc zero)))) = ground arith
retry_delay-bounds (suc (suc (suc (suc (suc zero))))) = ground arith
retry_delay-bounds (suc (suc (suc (suc (suc (suc zero)))))) = ground arith
retry_delay-bounds (suc (suc (suc (suc (suc (suc (suc n))))))) = ground arith
