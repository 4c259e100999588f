-- ===== src/Tests.antt =====
-- Runs of the models at concrete inputs, and an instance of each theorem that has hypotheses.
mod NavDispatches
mod Dispatches
mod Settlements
mod Changes
mod Receipts
mod CashFlows
mod Refreshes
mod NavReceipts
mod Navs
mod Compensations
mod Holdings
mod Cases
mod Previews
mod Texts
mod Calendars
