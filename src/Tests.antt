-- ===== src/Tests.antt =====
-- Tests on concrete inputs, and each theorem at an input that meets its hypotheses.
mod Statuses
mod Trusted
mod Admissions
mod Workers
mod Readings
mod Placements
mod Issued
mod Redriven
mod Limits
mod Registered
mod Authenticated
