-- ===== src/Text/Unicode.antt =====
-- What package strings does to white space and to letters: exactly for ASCII, and by parameter for a
-- text with a byte above 127.
use s3_registry.Prelude.{
  ℕ, ◌+◌, Bool, true, ◌&&◌, ◌||◌, List, [], ◌∷◌, ◌++◌, map, if◌then◌else◌, eqb, leb,
}
use s3_registry.Text.{Str}

-- strings.TrimSpace, Fields and ToLower on a text that is not ASCII
pub record Unicode : Type 0 where
  pub trim : Str → Str
  pub fields : Str → List Str
  pub to_lower : Str → Str

unfoldable pub all_ascii : Str → Bool
all_ascii [] = true
all_ascii (c ∷ s) = leb c 127 && all_ascii s

unfoldable pub is_space : ℕ → Bool
is_space c = eqb c 32 || (leb 9 c && leb c 13)

unfoldable pub trim_left : Str → Str
unfolding is_space
trim_left [] = []
trim_left (c ∷ s) = let rest = trim_left s in if is_space c then rest else c ∷ s

-- A space is dropped where nothing but spaces follows.
abbrev pub push_back : ℕ → Str → Str
push_back c [] = if is_space c then [] else c ∷ []
push_back c (d ∷ s) = c ∷ d ∷ s

unfoldable pub trim_right : Str → Str
unfolding is_space
trim_right [] = []
trim_right (c ∷ s) = push_back c (trim_right s)

-- strings.TrimSpace
unfoldable pub trim_space : Unicode → Str → Str
unfolding all_ascii trim_left trim_right
trim_space u s = if all_ascii s then trim_right (trim_left s) else u.trim s

-- A field that is read, ended by a space; `[]` is no field.
abbrev pub end_field : Str → List Str → List Str
end_field [] rest = rest
end_field (c ∷ w) rest = (c ∷ w) ∷ rest

unfoldable pub fields_from : Str → Str → List Str
unfolding is_space
fields_from w [] = end_field w []
fields_from w (c ∷ s) =
    let ended = fields_from [] s in
    let more = fields_from (w ++ c ∷ []) s in if is_space c then end_field w ended else more

-- strings.Fields
unfoldable pub fields : Unicode → Str → List Str
unfolding all_ascii fields_from
fields u s = if all_ascii s then fields_from [] s else u.fields s

unfoldable pub lower_byte : ℕ → ℕ
lower_byte c = if leb 65 c && leb c 90 then c + 32 else c

-- strings.ToLower
unfoldable pub to_lower : Unicode → Str → Str
unfolding all_ascii lower_byte
to_lower u s = if all_ascii s then map lower_byte s else u.to_lower s
