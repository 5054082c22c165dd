-- ===== src/Uploads.antt =====
-- src/immich_on_demand/uploads.py: the durable queue of local writes that wait for upload.
pub mod Payload
pub mod Manifest
pub mod Validate
pub mod Disk
pub mod Equality
pub mod Queue
pub mod Listing
pub mod Draft
pub mod Attempt
pub mod Cleanup
pub mod Machine
