-- ===== src/Flat/Rules.antt =====
-- ayatori/src/flat_representation/rules.rs: the kinds of rules. A rule fires an action once its
-- conditions hold; a rule over a mapping fires once for each party.
pub mod Scalar
pub mod Collect
pub mod Mapping
pub mod SendBc
pub mod SendDm
