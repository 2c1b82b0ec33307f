-- ===== src/Tests.antt =====
-- Runs of the code at concrete inputs, among them an input for each theorem of the library.
mod Bits
mod Replacer
mod Records
mod Device
mod Managers
mod Pools
mod Transactions
mod Texts
mod Files
mod IndexPages
mod Index
mod Filters
