-- ===== src/Memory.antt =====
-- src/payops/memory: what the service remembers of incidents.
pub mod Incidents
