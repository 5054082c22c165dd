-- ===== src/Tests.antt =====
-- Theorems at concrete inputs, and runs of the definitions.
mod Host
mod Names
mod Jobs
mod Listing
mod Api
mod Paging
mod Service
mod Uploads
mod Cache
mod Reading
