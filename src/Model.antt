-- ===== src/Model.antt =====
-- src/immich_on_demand/model.py
pub mod Names
pub mod Asset
pub mod Api
