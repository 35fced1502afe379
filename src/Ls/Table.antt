-- ===== src/Ls/Table.antt =====
-- The table of cmd/s3reg/ls.go, whatever the order of a version's map.
use mathlib.Core.List.{Permᴰ}
use s3_registry.Prelude.{
  ℕ, ◌≤◌, ◌≡◌, refl, sym, subst, ap, ◌∙◌, true, false, none, some, List, [], ◌∷◌, ◌++◌, map, arith,
  if◌then◌else◌, length, take, All, Bool-cases, Option-cases, inl, inr, zero, suc, ltb,
}
use s3_registry.Text.{Str, ◌==◌, eq_iff, count, contains, contains-All, contains-eq-count}
use s3_registry.Text.Sorting.{
  sort_strings, sort_strings-Permᴰ, IsAscending, sort_strings-IsAscending, count-sort_strings,
}
use s3_registry.Dict.{Dict, lookup, NodupKeys}
use s3_registry.Result.{ok}
use s3_registry.Index.{Artifact, Version, Index, entries}
use s3_registry.Index.View.{is_some}
use s3_registry.Store.{Service, Codec, get_index}
use s3_registry.Ls.{table, run_ls, Row, keys, shorten, row_of, rows_of, all_rows}

-- A map in another order has each key once as well, and reads the same.
Reads : Dict Artifact → Dict Artifact → Type 0
Reads m n = NodupKeys n × ((k : Str) → lookup k m ≡ lookup k n)

read-Permᴰ : {m n : Dict Artifact} → Permᴰ m n → NodupKeys m → Reads m n
unfolding lookup Reads
read-Permᴰ Permᴰ.nil h = (tt, λ k. refl)
read-Permᴰ (Permᴰ.cons {a = p} {b = q} {l₂ = n} e d) (u, h) =
    let (v, same) = read-Permᴰ d h in
    (
      (subst (λ (r : Str × Artifact). lookup r.0 n ≡ none) e (sym (same p.0) ∙ u), v),
      λ k.
          ap (λ o. if p.0 == k then some p.1 else o) (same k)
          ∙ ap (λ (r : Str × Artifact). if r.0 == k then some r.1 else lookup k n) e,
    )
read-Permᴰ (Permᴰ.swap {a = p} {b = q} {a' = q'} {b' = p'} {l = l} e f) (u, (w, h)) = (
  subst (λ (r : Str × Artifact). NodupKeys (q' ∷ r ∷ l)) e
      (subst (λ (r : Str × Artifact). NodupKeys (r ∷ p ∷ l)) f apart),
  λ k.
      swapped k
      ∙ ap (λ (r : Str × Artifact). lookup k (q ∷ r ∷ l)) e
      ∙ ap (λ (r : Str × Artifact). lookup k (r ∷ p' ∷ l)) f,
)
  where
    swapped : (k : Str) → lookup k (p ∷ q ∷ l) ≡ lookup k (q ∷ p ∷ l)
    swapped k = ground (arith, u, eq_iff q.0 p.0, eq_iff p.0 k, eq_iff q.0 k)

    apart : NodupKeys (q ∷ p ∷ l)
    apart = ground (arith, u, w, h, eq_iff q.0 p.0, eq_iff p.0 q.0)
read-Permᴰ (Permᴰ.trans d f) h =
    let (u, same) = read-Permᴰ d h in let (v, again) = read-Permᴰ f u in (v, λ k. same k ∙ again k)

keys-Permᴰ : {m n : Dict Artifact} → Permᴰ m n → Permᴰ (keys m) (keys n)
keys-Permᴰ Permᴰ.nil = Permᴰ.nil
keys-Permᴰ (Permᴰ.cons e d) = Permᴰ.cons (ap (λ (r : Str × Artifact). r.0) e) (keys-Permᴰ d)
keys-Permᴰ (Permᴰ.swap e f) =
    Permᴰ.swap (ap (λ (r : Str × Artifact). r.0) e) (ap (λ (r : Str × Artifact). r.0) f)
keys-Permᴰ (Permᴰ.trans d f) = Permᴰ.trans (keys-Permᴰ d) (keys-Permᴰ f)

map-row_of :
    (version : Str) (m n : Dict Artifact) (ks : List Str)
    → ((k : Str) → lookup k m ≡ lookup k n)
    → map (row_of version m) ks ≡ map (row_of version n) ks
unfolding row_of
map-row_of version m n [] h = refl
map-row_of version m n (k ∷ ks) h = rw (h k, map-row_of version m n ks h) refl

-- The same versions, with the entries of each map in another order.
abbrev pub Reordered : List Version → List Version → Type 0
Reordered [] [] = Unit
Reordered [] (w ∷ ws) = ⊥
Reordered (v ∷ vs) [] = ⊥
Reordered (v ∷ vs) (w ∷ ws) =
    (v.version ≡ w.version)
    × NodupKeys (entries v.artifacts)
    × Permᴰ (entries v.artifacts) (entries w.artifacts)
    × Reordered vs ws

rows_of-Permᴰ :
    (v w : Version)
    → v.version ≡ w.version
    → NodupKeys (entries v.artifacts)
    → Permᴰ (entries v.artifacts) (entries w.artifacts)
    → rows_of v ≡ rows_of w
unfolding rows_of Reads
rows_of-Permᴰ v w e u d =
    map-row_of v.version (entries v.artifacts) (entries w.artifacts) _ (read-Permᴰ d u).1
    ∙ ap (λ x. map (row_of x (entries w.artifacts)) (sort_strings (keys (entries v.artifacts)))) e
    ∙ ap (map (row_of w.version (entries w.artifacts))) (sort_strings-Permᴰ (keys-Permᴰ d))

-- The table does not depend on the order in which `range` takes the entries of the maps.
pub all_rows-Reordered : (vs ws : List Version) → Reordered vs ws → all_rows vs ≡ all_rows ws
unfolding all_rows
all_rows-Reordered [] [] h = refl
all_rows-Reordered [] (w ∷ ws) h = absurd h
all_rows-Reordered (v ∷ vs) [] h = absurd h
all_rows-Reordered (v ∷ vs) (w ∷ ws) (e, u, d, h) =
    ap (λ r. r ++ all_rows vs) (rows_of-Permᴰ v w e u d)
    ∙ ap (λ r. rows_of w ++ r) (all_rows-Reordered vs ws h)

-- A row shows the artifact that its version has for its os-arch, with twelve bytes of the digest at most.
abbrev pub Shows : Version → Row → Type 0
Shows v r =
    (a : Artifact) × (lookup r.os_arch (entries v.artifacts) ≡ some a)
    × (r.version ≡ v.version)
    × (r.size ≡ a.size)
    × (r.short ≡ take 12 a.sha256)

abbrev os_arches : List Row → List Str
os_arches = map (λ (r : Row). r.os_arch)

-- The rows of a version: a row for each os-arch, ascending.
pub record IsTableOf (v : Version) (rows : List Row) : Type 0 where
  pub shown : All (Shows v) rows
  pub ascending : IsAscending (os_arches rows)
  pub complete : (k : Str) → count k (os_arches rows) ≡ count k (keys (entries v.artifacts))

take-all : (n : ℕ) (s : Str) → length s ≤ n → take n s ≡ s
take-all zero [] h = refl
take-all zero (c ∷ s) h = absurd (omega arith)
take-all (suc n) [] h = refl
take-all (suc n) (c ∷ s) h = ap (λ r. c ∷ r) (take-all n s (omega arith))

shorten-take : (s : Str) → shorten s ≡ take 12 s
unfolding shorten
shorten-take s = elim (Bool-cases (ltb 12 (length s))) [
  | inl y ↦ rw (y, shorten) refl
  | inr n ↦ rw (n, shorten) (sym (take-all 12 s (ground (arith, n))))
]

has_key : (k : Str) (m : Dict Artifact) → contains k (keys m) ≡ is_some (lookup k m)
unfolding contains lookup
has_key k [] = refl
has_key k (e ∷ m) = ground (arith, has_key k m)

row_of-Shows :
    (v : Version) (k : Str)
    → contains k (keys (entries v.artifacts)) ≡ true
    → Shows v (row_of v.version (entries v.artifacts) k)
unfolding row_of
row_of-Shows v k h = elim (Option-cases (lookup k (entries v.artifacts))) [
  | inl e ↦ absurd (ground (arith, has_key k (entries v.artifacts), e, h))
  | inr (a, e) ↦ (a, e, refl, rw e refl, rw e (shorten-take a.sha256))
]

os_arches-row_of :
    (version : Str) (m : Dict Artifact) (ks : List Str) → os_arches (map (row_of version m) ks) ≡ ks
unfolding row_of
os_arches-row_of version m [] = refl
os_arches-row_of version m (k ∷ ks) = ap (λ r. k ∷ r) (os_arches-row_of version m ks)

All-row_of :
    (v : Version) (ks : List Str)
    → All (λ k. contains k (keys (entries v.artifacts)) ≡ true) ks
    → All (Shows v) (map (row_of v.version (entries v.artifacts)) ks)
All-row_of v [] h = tt
All-row_of v (k ∷ ks) (h, hs) = (row_of-Shows v k h, All-row_of v ks hs)

rows_of-IsTableOf : (v : Version) → IsTableOf v (rows_of v)
unfolding rows_of
rows_of-IsTableOf v = record {
  shown = All-row_of v sorted (contains-All _ sorted (λ k h. held k h));
  ascending =
      subst IsAscending (sym (os_arches-row_of v.version (entries v.artifacts) sorted))
        (sort_strings-IsAscending ks);
  complete = λ k.
      ap (count k) (os_arches-row_of v.version (entries v.artifacts) sorted)
      ∙ count-sort_strings k ks;
}
  where
    ks : List Str
    ks = keys (entries v.artifacts)

    sorted : List Str
    sorted = sort_strings ks

    held : (k : Str) → contains k sorted ≡ true → contains k ks ≡ true
    held k h =
        contains-eq-count k ks
        ∙ ap (λ n. ltb 0 n) (sym (count-sort_strings k ks))
        ∙ sym (contains-eq-count k sorted)
        ∙ h

-- The table consists of the rows of each version in the order of the index.
abbrev pub IsTable : List Version → List Row → Type 0
IsTable [] rows = rows ≡ []
IsTable (v ∷ vs) rows =
    (front : List Row) × (rest : List Row) × (rows ≡ front ++ rest)
    × IsTableOf v front
    × IsTable vs rest

all_rows-IsTable : (vs : List Version) → IsTable vs (all_rows vs)
unfolding all_rows
all_rows-IsTable [] = refl
all_rows-IsTable (v ∷ vs) = (rows_of v, all_rows vs, refl, rows_of-IsTableOf v, all_rows-IsTable vs)

-- `ls` for a tool prints, version by version in the order of its index, one row for each of the
-- version's os-arches, ascending, with the size of its artifact and the first twelve bytes of the digest.
pub run_ls-IsTable :
    (S : Service) (C : Codec) (fuel : ℕ) (tool etag : Str) (idx : Index) (b : S.Bucket)
    → tool == [] ≡ false
    → get_index S C tool b ≡ ok (idx, etag)
    → (rows : List Row) × (run_ls S C fuel tool b ≡ some (ok (table rows)))
      × IsTable idx.versions rows
unfolding run_ls
run_ls-IsTable S C fuel tool etag idx b n g =
    (all_rows idx.versions, rw (n, g) refl, all_rows-IsTable idx.versions)
