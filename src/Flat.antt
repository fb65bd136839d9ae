-- ===== src/Flat.antt =====
-- ayatori/src/flat_representation: the rules that a protocol's graph is flattened into, and the
-- conditions under which they fire.
pub mod Conditions
pub mod Actions
pub mod Rules
pub mod Ruleset
