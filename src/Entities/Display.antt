-- ===== src/Entities/Display.antt =====
-- ayatori/src/entities/specific_tags.rs and union_tags.rs: the text of a tag, which the tag of a merged
-- scalar is made of.
use Prim.Native.String.{◌++◌ as append}
use ayatori.Prelude.{String, List, [], ◌∷◌, Option, none, some}
use ayatori.Entities.Tags.{FullName, MappingTag, CollectedTag, ScalarTag}

unfoldable pub display_prefixes : List String → String → String
display_prefixes [] name = name
display_prefixes (prefix ∷ prefixes) name =
    append prefix (append "/" (display_prefixes prefixes name))

unfoldable pub display_name : FullName → String
display_name n = display_prefixes (n.prefix) (n.name)

unfoldable pub parenthesized : String → String → String
parenthesized word text = append word (append "(" (append text ")"))

unfoldable pub display_mapping : MappingTag → String
display_mapping (MappingTag.computed n) = display_name n
display_mapping (MappingTag.sent n) = parenthesized "sent-dm" (display_name n)
display_mapping (MappingTag.received n) = parenthesized "received" (display_name n)
display_mapping (MappingTag.local_signed n) = parenthesized "signed-dm-local" (display_name n)
display_mapping (MappingTag.remote_signed n) = parenthesized "signed-remote" (display_name n)

unfoldable pub display_disambiguator : Option String → String
display_disambiguator none = ""
display_disambiguator (some disambiguator) = append ", " disambiguator

unfoldable pub display_collected : CollectedTag → String
display_collected c =
    parenthesized "collected"
      (append (display_mapping (c.collected_from)) (display_disambiguator (c.disambiguator)))

unfoldable pub display_scalar : ScalarTag → String
display_scalar (ScalarTag.computed n) = display_name n
display_scalar (ScalarTag.local_signed n) = parenthesized "signed-bc-local" (display_name n)
display_scalar (ScalarTag.sent n) = parenthesized "sent-bc" (display_name n)
display_scalar (ScalarTag.merged n) = parenthesized "merged" (display_name n)
display_scalar (ScalarTag.argument n) = parenthesized "arg" (display_name n)
display_scalar (ScalarTag.collected c) = display_collected c
display_scalar (ScalarTag.sent_all n) = parenthesized "sent-all" (display_name n)

-- The name of a merged scalar.
unfoldable pub display_or : ScalarTag → ScalarTag → String
display_or left right = append (display_scalar left) (append "-or-" (display_scalar right))
