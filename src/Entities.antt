-- ===== src/Entities.antt =====
-- ayatori/src/entities: the names and tags of the values, the groups of parties, the values and the
-- messages that carry them, the errors, and the functions of a protocol.
pub mod Tags
pub mod Errors
pub mod Params
pub mod Party
pub mod Message
pub mod Value
pub mod Function
pub mod Display
