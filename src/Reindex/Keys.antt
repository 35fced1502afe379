-- ===== src/Reindex/Keys.antt =====
-- The keys that publish writes, read by parseArtifactKey.
use s3_registry.Prelude.{
  ℕ, ◌≡◌, refl, sym, subst, ap, ◌∙◌, Bool, true, false, ◌||◌, some, List, [], ◌∷◌, ◌++◌, arith, eqb,
  append_assoc, All, Bool-cases, inl, inr, Option-cases, ◌↔◌,
}
use s3_registry.Text.{Str, codes, ◌==◌, eq_iff, strip_prefix-eq, strip_prefix-append}
use s3_registry.Publish.{artifact_key}
use s3_registry.Reindex.{
  split_cons, split_slash, has_dash, three_parts, below_tool, parse_artifact_key,
}

unfoldable pub has_slash : Str → Bool
has_slash [] = false
has_slash (c ∷ s) = eqb c 47 || has_slash s

split_slash-plain : (s : Str) → has_slash s ≡ false → split_slash s ≡ s ∷ []
unfolding split_slash has_slash
split_slash-plain [] h = refl
split_slash-plain (c ∷ s) h = ground (arith, split_slash-plain s)

split_slash-append :
    (s t : Str) → has_slash s ≡ false → split_slash (s ++ codes "/" ++ t) ≡ s ∷ split_slash t
unfolding split_slash has_slash
split_slash-append [] t h = refl
split_slash-append (c ∷ s) t h = ground (arith, split_slash-append s t)

abbrev join_slash : List Str → Str
join_slash [] = []
join_slash (p ∷ []) = p
join_slash (p ∷ q ∷ ps) = p ++ codes "/" ++ join_slash (q ∷ ps)

split_slash-cons : (s : Str) → (p : Str) × (ps : List Str) × (split_slash s ≡ p ∷ ps)
unfolding split_slash
split_slash-cons [] = ([], [], refl)
split_slash-cons (c ∷ s) =
    let (p, ps, e) = split_slash-cons s in
    elim (Bool-cases (eqb c 47)) [
      | inl y ↦ ([], split_slash s, rw y refl)
      | inr n ↦ (c ∷ p, ps, rw (n, e) refl)
    ]

join_slash-nil :
    (ps : List Str) (p : Str) (qs : List Str)
    → ps ≡ p ∷ qs
    → join_slash ([] ∷ ps) ≡ 47 ∷ join_slash ps
join_slash-nil ps p qs e = rw e refl

join_slash-split_cons : (c : ℕ) (ps : List Str) → join_slash (split_cons c ps) ≡ c ∷ join_slash ps
join_slash-split_cons c [] = refl
join_slash-split_cons c (p ∷ []) = refl
join_slash-split_cons c (p ∷ q ∷ ps) = refl

join_slash-split_slash : (s : Str) → join_slash (split_slash s) ≡ s
unfolding split_slash
join_slash-split_slash [] = refl
join_slash-split_slash (c ∷ s) =
    let (p, ps, e) = split_slash-cons s in
    elim (Bool-cases (eqb c 47)) [
      | inl y ↦
          rw y (join_slash-nil (split_slash s) p ps e ∙ ground (arith, join_slash-split_slash s))
      | inr n ↦
          rw n
            (join_slash-split_cons c (split_slash s) ∙ ap (λ t. c ∷ t) (join_slash-split_slash s))
    ]

split_cons-Plain :
    (c : ℕ) (ps : List Str)
    → eqb c 47 ≡ false
    → All (λ p. has_slash p ≡ false) ps
    → All (λ p. has_slash p ≡ false) (split_cons c ps)
unfolding has_slash
split_cons-Plain c [] n h = (ground arith, tt)
split_cons-Plain c (p ∷ ps) n (h, hs) = (ground arith, hs)

split_slash-Plain : (s : Str) → All (λ p. has_slash p ≡ false) (split_slash s)
unfolding split_slash has_slash
split_slash-Plain [] = (refl, tt)
split_slash-Plain (c ∷ s) = elim (Bool-cases (eqb c 47)) [
  | inl y ↦ rw y (refl, split_slash-Plain s)
  | inr n ↦ rw n (split_cons-Plain c (split_slash s) n (split_slash-Plain s))
]

three_parts-eq :
    (ps : List Str) (version os_arch : Str)
    → three_parts ps ≡ some (version, os_arch)
    → (name : Str) × (ps ≡ version ∷ os_arch ∷ name ∷ []) × (has_dash os_arch ≡ true)
three_parts-eq [] version os_arch h = absurd (cc)
three_parts-eq (v ∷ []) version os_arch h = absurd (cc)
three_parts-eq (v ∷ oa ∷ []) version os_arch h = absurd (cc)
three_parts-eq (v ∷ oa ∷ n ∷ []) version os_arch h = elim (Bool-cases (has_dash oa)) [
  | inl y ↦ (n, ground (arith, y), ground (arith, y))
  | inr m ↦ absurd (ground (arith, m))
]
three_parts-eq (v ∷ oa ∷ n ∷ m ∷ ps) version os_arch h = absurd (cc)

-- A key that publish writes for the tool, of parts without a slash and an os-arch with a dash.
abbrev pub IsKeyOf : Str → Str → Str → Str → Type 0
IsKeyOf tool key version os_arch =
    (name : Str) × (key ≡ artifact_key tool version os_arch name)
    × (has_slash version ≡ false)
    × (has_slash os_arch ≡ false)
    × (has_slash name ≡ false)
    × (has_dash os_arch ≡ true)

-- The part of such a key below the tool.
abbrev below : Str → Str → Str → Str
below version os_arch name = version ++ codes "/" ++ (os_arch ++ codes "/" ++ name)

artifact_key-below :
    (tool version os_arch name : Str)
    → artifact_key tool version os_arch name ≡ tool ++ codes "/" ++ below version os_arch name
unfolding artifact_key
artifact_key-below tool version os_arch name = simp append_assoc

below_key :
    (tool version os_arch name : Str)
    → below_tool tool (artifact_key tool version os_arch name) ≡ some (below version os_arch name)
unfolding below_tool
below_key tool version os_arch name =
    ap (λ k. below_tool tool k) (artifact_key-below tool version os_arch name)
    ∙ strip_prefix-append (tool ++ codes "/") (below version os_arch name)

split_three :
    (version os_arch name : Str)
    → has_slash version ≡ false
    → has_slash os_arch ≡ false
    → has_slash name ≡ false
    → split_slash (below version os_arch name) ≡ version ∷ os_arch ∷ name ∷ []
split_three version os_arch name v o n =
    split_slash-append version (os_arch ++ codes "/" ++ name) v
    ∙ ap (λ ps. version ∷ ps)
        (split_slash-append os_arch name o ∙ ap (λ ps. os_arch ∷ ps) (split_slash-plain name n))

index_plain : split_slash (codes "index.json") ≡ codes "index.json" ∷ []
unfolding split_slash
index_plain = refl

not_index :
    (rest a b : Str) (ps : List Str)
    → split_slash rest ≡ a ∷ b ∷ ps
    → rest == codes "index.json" ≡ false
not_index rest a b ps h = elim (Bool-cases (rest == codes "index.json")) [
  | inl y ↦ absurd (cc (h, index_plain, (eq_iff rest (codes "index.json")).0 y))
  | inr n ↦ n
]

parsed :
    (tool key rest : Str)
    → below_tool tool key ≡ some rest
    → rest == codes "index.json" ≡ false
    → parse_artifact_key tool key ≡ three_parts (split_slash rest)
unfolding parse_artifact_key
parsed tool key rest e n = rw (e, n, parse_artifact_key) refl

below_strip :
    (tool key rest : Str) → below_tool tool key ≡ some rest → key ≡ tool ++ codes "/" ++ rest
unfolding below_tool
below_strip tool key rest e = strip_prefix-eq key (tool ++ codes "/") rest e

-- The parts that split a text without a slash in each.
joined :
    (rest version os_arch name : Str)
    → split_slash rest ≡ version ∷ os_arch ∷ name ∷ []
    → (rest ≡ below version os_arch name)
      × (has_slash version ≡ false)
      × (has_slash os_arch ≡ false)
      × (has_slash name ≡ false)
joined rest version os_arch name e =
    let (v, (o, (n, _))) = subst (All (λ p. has_slash p ≡ false)) e (split_slash-Plain rest) in
    (sym (join_slash-split_slash rest) ∙ ap join_slash e, v, o, n)

forth :
    (tool key version os_arch : Str)
    → parse_artifact_key tool key ≡ some (version, os_arch)
    → IsKeyOf tool key version os_arch
unfolding parse_artifact_key
forth tool key version os_arch h = elim (Option-cases (below_tool tool key)) [
  | inl e ↦ absurd (ground (arith, e))
  | inr (rest, e) ↦ elim (Bool-cases (rest == codes "index.json")) [
    | inl y ↦ absurd (ground (arith, e, y))
    | inr n ↦
        let (name, parts, d) =
          three_parts-eq (split_slash rest) version os_arch (sym (parsed tool key rest e n) ∙ h) in
        let (at, v, o, p) = joined rest version os_arch name parts in
        (
          name,
          below_strip tool key rest e
              ∙ ap (λ r. tool ++ codes "/" ++ r) at
              ∙ sym (artifact_key-below tool version os_arch name),
          v,
          o,
          p,
          d,
        )
  ]
]

-- parseArtifactKey accepts exactly the keys that publish writes for the tool from a version, an os-arch
-- and a file name without a slash, the os-arch with a dash, and returns that version and os-arch.
pub parse_artifact_key_iff :
    (tool key version os_arch : Str)
    → (parse_artifact_key tool key ≡ some (version, os_arch)) ↔ IsKeyOf tool key version os_arch
unfolding parse_artifact_key
parse_artifact_key_iff tool key version os_arch = (forth tool key version os_arch, back)
  where
    back : IsKeyOf tool key version os_arch → parse_artifact_key tool key ≡ some (version, os_arch)
    back (name, e, v, o, n, d) =
        let s = split_three version os_arch name v o n in
        ap (λ k. parse_artifact_key tool k) e
        ∙ parsed tool (artifact_key tool version os_arch name) (below version os_arch name)
            (below_key tool version os_arch name)
            (not_index (below version os_arch name) version os_arch (name ∷ []) s)
        ∙ ap three_parts s
        ∙ rw d refl
