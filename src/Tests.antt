-- ===== src/Tests.antt =====
-- The theorems at concrete inputs.
mod Api
mod Sort
mod Validation
mod Jobs
mod Transitions
mod Race
mod Completion
mod Manager
mod System
mod Client
mod Dax
