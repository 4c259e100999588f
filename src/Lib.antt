-- ===== src/Lib.antt =====
-- Portfolio management: the durable queues, the reconciliation cases, the compensation of partial writes, the NAV history
-- index, the comparison of successive observations of the holdings and the business calendar.
--
-- The program keeps accounts' holdings, cash flows and net asset values (NAVs) in a remote table
-- service, and its own progress in one SQLite file. Everything that must survive a crash goes through
-- that file's queues: events that the table service delivers are accepted into inboxes and claimed by
-- workers, refreshes of the broker's balances are requested and settled, and what users are told is
-- written to receipt outboxes in the transaction of the work that it reports. Writes to several
-- records that stop half-way leave a compensation task in an event log, and are retried from there.
--
-- Files, and the code that each models:
--   Common/…                        lists, results, dicts, and tables with their statements; in JsonText
--                                   src/app/_json.py
--   OperationState/Retry            the retry ladder and claim lease of src/app/operation_state/_base.py
--   OperationState/Receipts         src/app/operation_state/_receipt_tx.py: the receipt rows and the inserts
--   OperationState/ReceiptOutbox    src/app/operation_state/_operation_receipt_mixin.py
--   OperationState/Dispatch         src/app/operation_receipt_outbox_service.py
--   OperationState/NavReceipts      src/app/operation_state/_nav_receipt_mixin.py
--   OperationState/NavDispatch      src/app/nav_receipt_outbox_service.py
--   OperationState/EventInbox       the statements that the two event inboxes share
--   OperationState/CashFlowInbox    src/app/operation_state/_cash_flow_event_mixin.py
--   OperationState/HoldingInbox     src/app/operation_state/_holding_event_mixin.py
--   OperationState/HoldingMonitor   src/app/operation_state/_holding_monitor_mixin.py
--   OperationState/HoldingCases     src/app/operation_state/_holding_case_mixin.py, and in Contract
--                                   src/app/holding_case_contract.py
--   OperationState/AgentNames       src/app/operation_state/_agent_name_mixin.py
--   OperationState/FxConfirmations  src/app/operation_state/_fx_confirmation_mixin.py
--   OperationState/FutuRefresh      src/app/operation_state/_futu_refresh_mixin.py
--   Compensation/Contract           src/domain/compensation_contracts.py
--   Compensation/Log, Service, Retry  src/app/compensation_service.py
--   Holdings/Changes                src/domain/holding_changes.py
--   Nav/HistoryIndex                src/domain/nav_history_index.py
--   Calendar                        src/app/business_calendar_service.py
--   Tests/…                         runs at concrete inputs
--
-- A method is the function of its name. A table is the list of its rows in the order of insertion,
-- and a function of a queue takes it and returns it; a transaction that raises is rolled back, so it
-- returns an error and no table. UPDATE, SELECT and ORDER BY are `update`, `fetch_one`, `keep` and
-- `order_by` of Common.Table, with the WHERE clause as a Boolean test of a row; `rowcount` is
-- `row_count`. A sequence of operations is a list of pairs of a time and an operation, so every
-- interleaving of workers, whose transactions SQLite serializes, is one such list. The compensation
-- log is only appended to, so a call that raises still returns what it had appended.
-- An exception carries its kind and the fixed part of its text; the values that the code appends are
-- left out. Errors of the database and of files are runtime errors.
--
-- Times are numbers of microseconds since an epoch; ISO texts of one zone have their order. Counters
-- are natural numbers, as Python's integers do not overflow. JSON columns that are only compared or
-- passed on are their canonical texts; an event's outcome keeps the keys that the stores write, and what
-- the code reads back from a case is a value of `Json`. SHA-256 is a parameter, a function on texts. A
-- fresh uuid and the clock's reading are arguments. The only loop with a bound is the calendar's,
-- over the 366 days of the code; the other recursions are on lists.
--
-- Not modelled: the SQLite connection, the schema's migrations and the status pages' counts (I/O);
-- applying one compensation target, the remote mirror and the quote service's trading days, which
-- are parameters; the projection of a raw holding, which parses decimals; holdings mutations,
-- cash-flow effects, pricing, NAV arithmetic and recording, the Feishu client, the HTTP service and
-- the command line.
pub mod Common
pub mod OperationState
pub mod Nav
pub mod Holdings
pub mod Compensation
pub mod Calendar
mod Tests
