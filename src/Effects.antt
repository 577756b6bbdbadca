-- ===== src/Effects.antt =====
-- Code with effects, as functions of the world that they change.
pub mod Action
pub mod Program
