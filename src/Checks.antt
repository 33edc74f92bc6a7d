-- ===== src/Checks.antt =====
-- Runs on concrete inputs, and the theorems at inputs that meet their hypotheses.
mod Thrift
mod Export
mod Compact
mod Fanout
mod Footer
mod Run
mod Binding
mod Bench
mod Lane
mod Walker
mod Service
mod Quick
mod Requests
mod PageIndex
mod Rows
mod Commas
