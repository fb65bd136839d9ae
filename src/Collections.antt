-- ===== src/Collections.antt =====
-- `BTreeSet` and `BTreeMap` of the standard library, which the program's state is made of: lists of
-- the entries in the order of iteration.
pub mod Order
pub mod BTreeSet
pub mod BTreeMap
