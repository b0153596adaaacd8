-- ===== src/Stores.antt =====
-- The stores of frontend/lib/store/toast-store.ts and frontend/lib/store/create-entity-store.ts.
pub mod Entities
pub mod Toasts
mod Tests
