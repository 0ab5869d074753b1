-- ===== src/Layers/Paths.antt =====
-- splitPath, with filepath.Clean and filepath.Split of the standard library, on slash separators.
use bb_action_router.Base.{
  Text, codes, same, strip_prefix, split_slash, Bool, false, ◌||◌, List, [], ◌∷◌, reverse, ◌==◌,
  if◌then◌else◌,
}

abbrev pub is_rooted : Text → Bool
is_rooted [] = false
is_rooted (c ∷ s) = c == b'/'

-- One element of a path, against those before it, the last first.
unfoldable pub clean_part : Bool → Text → List Text → List Text
clean_part rooted part stack =
    if same part [] || same part (codes ".")
    then stack
    else if same part (codes "..")
    then elim stack [
      | [] ↦ if rooted then [] else codes ".." ∷ []
      | (top ∷ rest) ↦ if same top (codes "..") then codes ".." ∷ top ∷ rest else rest
    ]
    else part ∷ stack

unfoldable pub clean_parts : Bool → List Text → List Text → List Text
clean_parts rooted [] stack = reverse stack
clean_parts rooted (part ∷ parts) stack = clean_parts rooted parts (clean_part rooted part stack)

-- The elements of filepath.Clean(path) without the leading slash; a path that is cleaned to "",
-- "." or ".." has none.
unfoldable pub split_path : Text → List Text
split_path path = elim (clean_parts (is_rooted path) (split_slash path) []) [
  | [] ↦ []
  | (part ∷ parts) ↦ elim parts [
    | [] ↦ if same part (codes "..") then [] else part ∷ []
    | (next ∷ rest) ↦ part ∷ next ∷ rest
  ]
]

-- filepath.Split: up to the last slash, and what follows it.
unfoldable pub split_file : Text → Text × Text
split_file [] = ([], [])
split_file (c ∷ s) =
    let r = split_file s in
    if same r.0 [] then (if c == b'/' then (c ∷ [], s) else ([], c ∷ s)) else (c ∷ r.0, r.1)

abbrev pub starts_with : Text → Text → Bool
starts_with prefix s = (strip_prefix prefix s).0
