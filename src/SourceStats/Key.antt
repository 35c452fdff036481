-- ===== src/SourceStats/Key.antt =====
-- The keys of the table: a type and a name, or the address, with a colon between them.
use Prim.Native.String.{String, [], ◌∷◌, ◌++◌}
use togo.Common.{Option, none, some, if◌then◌else◌, str_eq, or_text}

-- `_source_stats_key`
abbrev pub source_stats_key : String → String → String → String
source_stats_key type_of_source name url = type_of_source ++ ":" ++ or_text name (or_text url "未知源")

abbrev after_first : String → Option (String × String) → Option (String × String)
after_first c none = none
after_first c (some (left, right)) = some (c ++ left, right)

-- `value.split(":", 1)`, or nothing when there is no colon.
unfoldable pub split_colon : String → Option (String × String)
split_colon [] = none
split_colon (c ∷ s) =
    let rest = after_first (c ∷ []) (split_colon s) in
    if str_eq (c ∷ []) ":" then some ("", s) else rest
