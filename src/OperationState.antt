-- ===== src/OperationState.antt =====
-- src/app/operation_state: the durable queues of the operation-state database. Times are
-- microseconds since an epoch; the retry ladder and the lease are those of `_base.py`.
pub mod NavDispatch
pub mod Dispatch
pub mod Retry
pub mod Receipts
pub mod ReceiptOutbox
pub mod EventInbox
pub mod CashFlowInbox
pub mod FutuRefresh
pub mod NavReceipts
pub mod HoldingMonitor
pub mod HoldingCases
pub mod HoldingInbox
pub mod AgentNames
pub mod FxConfirmations
