-- ===== src/QueryCache/Key.antt =====
-- The keys of the cache: two texts with the character NUL between them.
use Prim.Native.String.{String, [], ◌∷◌, ◌++◌}
use togo.Common.{Bool, true, ◌&&◌, str_eq}

-- `_key`
unfoldable pub cache_key : (String → String) → String → String → String
cache_key strip source query = strip source ++ "\0" ++ strip query

-- `not key.strip("\0")`: the key has no other character.
unfoldable pub is_blank : String → Bool
is_blank [] = true
is_blank (c ∷ s) = str_eq (c ∷ []) "\0" && is_blank s
