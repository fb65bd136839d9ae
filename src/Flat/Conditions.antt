-- ===== src/Flat/Conditions.antt =====
-- ayatori/src/flat_representation/conditions.rs: the conditions of a rule, and their states.
pub mod Scalar
pub mod Element
pub mod Quorum
use ayatori.Prelude.{List, [], ◌∷◌}
use ayatori.Collections.BTreeMap.{values}
use ayatori.Entities.Tags.{ScalarTag, MappingTag, AnyTag, scalar, mapping}
use ayatori.Graph.Nodes.{ComputeMappingKind, simple, third_party_attributable, with_reveal}

-- The scalar tags, and the mapping tags, among the tags of some arguments.
pub scalars_of : List AnyTag → List ScalarTag
scalars_of [] = []
scalars_of (scalar t ∷ ts) = t ∷ scalars_of ts
scalars_of (mapping t ∷ ts) = scalars_of ts

pub mappings_of : List AnyTag → List MappingTag
mappings_of [] = []
mappings_of (scalar t ∷ ts) = mappings_of ts
mappings_of (mapping t ∷ ts) = t ∷ mappings_of ts

pub verification_args : ComputeMappingKind → List AnyTag
verification_args simple = []
verification_args third_party_attributable = []
verification_args (with_reveal args) = values args
