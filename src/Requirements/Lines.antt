-- ===== src/Requirements/Lines.antt =====
-- One line of a requirements file: the comment, the spaces, and `pkg==version`.
use Prim.Native.Char.{Char, code}
use pyscript.Base.{
  String, ◌==◌, nat_key, string_key, Bool, false, ◌&&◌, ◌||◌, ◌≡◌, refl, Option, none, some, List,
  [], ◌∷◌, if◌then◌else◌, leb,
}

-- `UNPINNED_VERSION`
abbrev pub unpinned_version : String
unpinned_version = "_unpinned_version"

-- `pkg[:pkg.find("#")]`, or all of it
unfoldable pub without_comment : String → String
without_comment String.[] = String.[]
without_comment (String.◌∷◌ c s) =
    let rest = without_comment s in if code c == b'#' then String.[] else String.◌∷◌ c rest

-- the spaces of ASCII, and the line ends
abbrev pub is_space : Char → Bool
is_space c = code c == 32 || (leb 9 (code c) && leb (code c) 13)

abbrev pub put_unless_end : Char → String → String
put_unless_end c String.[] = if is_space c then String.[] else String.◌∷◌ c String.[]
put_unless_end c (String.◌∷◌ d s) = String.◌∷◌ c (String.◌∷◌ d s)

-- `s.rstrip()`, `s.lstrip()`
unfoldable pub rstrip : String → String
rstrip String.[] = String.[]
rstrip (String.◌∷◌ c s) = put_unless_end c (rstrip s)

unfoldable pub lstrip : String → String
lstrip String.[] = String.[]
lstrip (String.◌∷◌ c s) = let rest = lstrip s in if is_space c then rest else String.◌∷◌ c s

abbrev pub onto : Char → List String → List String
onto c [] = String.◌∷◌ c String.[] ∷ []
onto c (p ∷ ps) = String.◌∷◌ c p ∷ ps

-- `pkg.split("==")`
unfoldable pub split_version : String → List String
split_version String.[] = String.[] ∷ []
split_version (String.◌∷◌ c String.[]) = String.◌∷◌ c String.[] ∷ []
split_version (String.◌∷◌ c (String.◌∷◌ d s)) =
    let rest = split_version s in
    let next = split_version (String.◌∷◌ d s) in
    if code c == b'=' && code d == b'=' then String.[] ∷ rest else onto c next

-- one of the characters that a requirement must not have
unfoldable pub has_relation : String → Bool
has_relation String.[] = false
has_relation (String.◌∷◌ c s) = code c == b',' || code c == b'>' || code c == b'<' || has_relation s

abbrev pub named_version : List String → Option (String × String)
named_version (name ∷ []) = some (name, unpinned_version)
named_version (name ∷ version ∷ []) = some (name, version)
named_version _ = none

-- The package and the version of a line, or nothing where the line is skipped.
unfoldable pub parse_line : String → Option (String × String)
unfolding without_comment rstrip lstrip split_version has_relation
parse_line line =
    let pkg = rstrip (lstrip (without_comment line)) in
    if pkg == "" || has_relation pkg then none else named_version (split_version pkg)

parse_line_test : parse_line "  foo==1.2 # why" ≡ some ("foo", "1.2")
unfolding parse_line
parse_line_test = refl

parse_line_unpinned_test : parse_line "foo" ≡ some ("foo", "_unpinned_version")
unfolding parse_line
parse_line_unpinned_test = refl
