-- ===== src/Client/Paths.antt =====
-- `safeUrlPath` of frontend/src/shared/apiClient.js, on texts as lists of code units: the path of a URL
-- is ASCII. The URL parser is the parameter `pathname`; `none` is its exception.
use ai_routing_panel.Prelude.{
  length, map, ◌&&◌, zero, some, suc, leb, ◌==◌, if◌then◌else◌, true, none, [], ◌++◌, Option, List,
  ◌∷◌, ℕ, Bool,
}

abbrev pub Text : Type 0
Text = List ℕ

abbrev pub slash : ℕ
slash = 47

-- `split("/")`: `push_unit` puts a unit before the first part.
unfoldable pub push_unit : ℕ → List Text → List Text
push_unit c [] = (c ∷ []) ∷ []
push_unit c (s ∷ ss) = (c ∷ s) ∷ ss

unfoldable pub split : Text → List Text
split [] = [] ∷ []
split (c ∷ cs) = let rest = split cs in if c == slash then [] ∷ rest else push_unit c rest

-- `join("/")`
unfoldable pub join_parts : List Text → Text
join_parts [] = []
join_parts (s ∷ []) = s
join_parts (s ∷ t ∷ ss) = s ++ (slash ∷ join_parts (t ∷ ss))

-- `slice(0, n)`
unfoldable pub slice : ℕ → Text → Text
slice zero cs = []
slice (suc n) [] = []
slice (suc n) (c ∷ cs) = c ∷ slice n cs

-- `/^\d+$/` on a text that is not empty
unfoldable pub is_digits : Text → Bool
is_digits [] = true
is_digits (c ∷ cs) = leb 48 c && leb c 57 && is_digits cs

-- ":id", ":redacted" and "unknown"
abbrev pub id_text : Text
id_text = 58 ∷ 105 ∷ 100 ∷ []

abbrev pub redacted_text : Text
redacted_text = 58 ∷ 114 ∷ 101 ∷ 100 ∷ 97 ∷ 99 ∷ 116 ∷ 101 ∷ 100 ∷ []

abbrev pub unknown_url_path : Text
unknown_url_path = 117 ∷ 110 ∷ 107 ∷ 110 ∷ 111 ∷ 119 ∷ 110 ∷ []

unfoldable pub mask : Text → Text
mask [] = []
mask (c ∷ cs) =
    if is_digits (c ∷ cs)
    then id_text
    else if leb 24 (length (c ∷ cs))
    then redacted_text
    else c ∷ cs

unfoldable pub safe_url_path : (Text → Option Text) → Text → Text
safe_url_path pathname url = elim (pathname url) [
  | none ↦ unknown_url_path
  | some path ↦ slice 300 (join_parts (map mask (split path)))
]
