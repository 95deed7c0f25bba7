-- ===== src/Tests.antt =====
-- Tests: the theorems on concrete inputs.
mod Samples
mod Validator
mod Cache
mod Storage
mod Access
mod Routes
mod Sessions
mod Settings
mod Admission
mod System
mod Strict
mod Concurrent
mod Arrivals
mod Emulator
