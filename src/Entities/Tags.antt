-- ===== src/Entities/Tags.antt =====
-- ayatori/src/entities/specific_tags.rs and union_tags.rs: the names of the slots that values are
-- stored in. A tag type that wraps a full name (`ComputedScalarTag`, `SentDMTag` and so on) is that
-- name; the unions tell them apart by their constructors. A reference to a tag (`ScalarTagRef` and
-- the like) is the tag.
use ayatori.Prelude.{
  ℕ, String, String_discrete, List, [], ◌∷◌, ◌++◌, Option, Bool, false, ◌||◌, ite,
}
use ayatori.Collections.Order.{
  Ord, nat_ord, string_ord, string_less, list_less, option_less, less_then,
}

pub record FullName : Type 0 where
  pub prefix : List String
  pub name : String

-- `FullName::new`, and so `new` of the tags that wrap a name.
unfoldable pub new_name : String → FullName
new_name name = record { prefix = []; name = name }

unfoldable pub with_added_prefix : FullName → String → FullName
with_added_prefix n prefix = record n { prefix = n.prefix ++ prefix ∷ [] }

unfoldable pub FullName_discrete : Discrete FullName
unfolding String_discrete
FullName_discrete = hlevel String_discrete

unfoldable pub prefixes_discrete : Discrete (List String)
unfolding String_discrete
prefixes_discrete = hlevel String_discrete

unfoldable pub full_name_less : FullName → FullName → Bool
unfolding list_less string_less String_discrete prefixes_discrete
full_name_less m n =
    list_less string_ord m.prefix n.prefix
    || (ite (prefixes_discrete m.prefix n.prefix) (string_less m.name n.name) false)

instance abbrev pub full_name_ord : Ord FullName
full_name_ord = record { dec = FullName_discrete; less = full_name_less }

pub data MappingTag : Type 0 where
  computed sent received local_signed remote_signed : FullName → MappingTag

unfoldable pub mapping_with_added_prefix : MappingTag → String → MappingTag
mapping_with_added_prefix (computed n) prefix = computed (with_added_prefix n prefix)
mapping_with_added_prefix (sent n) prefix = sent (with_added_prefix n prefix)
mapping_with_added_prefix (received n) prefix = received (with_added_prefix n prefix)
mapping_with_added_prefix (local_signed n) prefix = local_signed (with_added_prefix n prefix)
mapping_with_added_prefix (remote_signed n) prefix = remote_signed (with_added_prefix n prefix)

-- The position of the variant in the declaration, by which `derive(Ord)` compares first.
mapping_variant : MappingTag → ℕ
mapping_variant (computed n) = 0
mapping_variant (sent n) = 1
mapping_variant (received n) = 2
mapping_variant (local_signed n) = 3
mapping_variant (remote_signed n) = 4

mapping_name : MappingTag → FullName
mapping_name (computed n) = n
mapping_name (sent n) = n
mapping_name (received n) = n
mapping_name (local_signed n) = n
mapping_name (remote_signed n) = n

unfoldable pub MappingTag_discrete : Discrete MappingTag
unfolding FullName_discrete
MappingTag_discrete = hlevel FullName_discrete

unfoldable pub mapping_less : MappingTag → MappingTag → Bool
unfolding mapping_variant mapping_name full_name_less
mapping_less s t =
    less_then nat_ord (mapping_variant s) (mapping_variant t)
      (full_name_less (mapping_name s) (mapping_name t))

instance abbrev pub mapping_tag_ord : Ord MappingTag
mapping_tag_ord = record { dec = MappingTag_discrete; less = mapping_less }

pub record CollectedTag : Type 0 where
  pub collected_from : MappingTag
  pub disambiguator : Option String

unfoldable pub collected_with_added_prefix : CollectedTag → String → CollectedTag
collected_with_added_prefix c prefix = record c {
  collected_from = mapping_with_added_prefix c.collected_from prefix;
}

-- `MappingTagRef::to_collected`.
unfoldable pub to_collected : MappingTag → Option String → CollectedTag
to_collected tag disambiguator = record { collected_from = tag; disambiguator = disambiguator }

unfoldable pub CollectedTag_discrete : Discrete CollectedTag
unfolding MappingTag_discrete String_discrete
CollectedTag_discrete = hlevel (MappingTag_discrete, String_discrete)

unfoldable pub collected_less : CollectedTag → CollectedTag → Bool
unfolding mapping_less option_less string_less
collected_less c d =
    less_then mapping_tag_ord c.collected_from d.collected_from
      (option_less string_ord c.disambiguator d.disambiguator)

pub data ScalarTag : Type 0 where
  computed local_signed sent merged argument : FullName → ScalarTag
  collected : CollectedTag → ScalarTag
  sent_all : FullName → ScalarTag

unfoldable pub ScalarTag_discrete : Discrete ScalarTag
unfolding FullName_discrete CollectedTag_discrete
ScalarTag_discrete = hlevel (FullName_discrete, CollectedTag_discrete)

scalar_variant : ScalarTag → ℕ
scalar_variant (computed n) = 0
scalar_variant (local_signed n) = 1
scalar_variant (sent n) = 2
scalar_variant (merged n) = 3
scalar_variant (argument n) = 4
scalar_variant (collected c) = 5
scalar_variant (sent_all n) = 6

-- The name in a tag that wraps one; a collected tag is compared by `collected_less`.
scalar_name : ScalarTag → FullName
scalar_name (computed n) = n
scalar_name (local_signed n) = n
scalar_name (sent n) = n
scalar_name (merged n) = n
scalar_name (argument n) = n
scalar_name (collected c) = mapping_name c.collected_from
scalar_name (sent_all n) = n

same_variant_less : ScalarTag → ScalarTag → Bool
unfolding full_name_less collected_less
same_variant_less (collected c) (collected d) = collected_less c d
same_variant_less s t = full_name_less (scalar_name s) (scalar_name t)

unfoldable pub scalar_less : ScalarTag → ScalarTag → Bool
unfolding scalar_variant scalar_name same_variant_less
scalar_less s t = less_then nat_ord (scalar_variant s) (scalar_variant t) (same_variant_less s t)

instance abbrev pub scalar_tag_ord : Ord ScalarTag
scalar_tag_ord = record { dec = ScalarTag_discrete; less = scalar_less }

pub data AnyTag : Type 0 where
  scalar : ScalarTag → AnyTag
  mapping : MappingTag → AnyTag

unfoldable pub AnyTag_discrete : Discrete AnyTag
unfolding ScalarTag_discrete MappingTag_discrete
AnyTag_discrete = hlevel (ScalarTag_discrete, MappingTag_discrete)
