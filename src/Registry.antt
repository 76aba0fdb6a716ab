-- ===== src/Registry.antt =====
-- The identity registry of src/world/registry.hpp: the slots of entity handles, the index of
-- persistent UUIDs and the content registry with its manifest.
pub mod Slots
pub mod Bindings
pub mod Content
mod Examples
