-- ===== src/Tests.antt =====
-- A concrete platform, runs of the modelled code on it, and the theorems at concrete inputs.
mod Machine
mod Protocol
mod Names
mod Selection
mod Upload
mod Registration
mod Crypto
mod Main
mod Exchange
mod Delivery
mod Answered
mod Batch
