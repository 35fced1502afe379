-- ===== src/Index.antt =====
-- internal/index/index.go: a tool's index.json and the operations on it. The JSON form itself is the
-- codec of the store.
pub mod View
pub mod Merging
pub mod Folding
pub mod Collecting
pub mod Sorted
pub mod Distinct
pub mod Placing
pub mod Upsert
pub mod Shadowed
pub mod Dropping
pub mod Removal
pub mod Remove
pub mod Resolution
pub mod Kept
pub mod Made
use s3_registry.Prelude.{
  ℕ, zero, suc, Bool, true, false, not, ◌&&◌, ◌||◌, Option, none, some, List, [], ◌∷◌, ◌++◌, map,
  length, if◌then◌else◌,
}
use s3_registry.Prelude.Int.{ℤ}
use s3_registry.Text.{Str, ◌==◌, contains}
use s3_registry.Dict.{Dict, lookup, insert, erase}
use s3_registry.Result.{Result, ok, err, panic, version_not_found, no_artifact, ◌>>=◌, must}
use s3_registry.Instant.{Instant, zero_time, is_zero, before}
use s3_registry.Semver.{Library, sort_ascending, resolve}

pub record Artifact : Type 0 where
  pub key : Str
  pub sha256 : Str
  pub size : ℤ

-- `none` is the nil map, which a `null` in the JSON gives.
pub record Version : Type 0 where
  pub version : Str
  pub created : Instant
  pub artifacts : Option (Dict Artifact)

pub record Release : Type 0 where
  pub version : Str
  pub created : Instant

pub record Index : Type 0 where
  pub name : Str
  pub updated : Instant
  pub versions : List Version

-- A read of a nil map finds nothing.
abbrev pub entries : Option (Dict Artifact) → Dict Artifact
entries none = []
entries (some m) = m

-- New
unfoldable pub new : Str → Index
new name = record { name = name; updated = zero_time; versions = [] }

-- findVersion; -1 is `none`.
unfoldable pub find_version : Str → List Version → Option ℕ
find_version v [] = none
find_version v (x ∷ xs) =
    if x.version == v
    then some 0
    else elim (find_version v xs) [ none ↦ none | some n ↦ some (suc n) ]

-- i.Versions[n], read and written; out of range is a panic.
unfoldable pub at : ℕ → List Version → Result Version
at n [] = err panic
at zero (x ∷ xs) = ok x
at (suc n) (x ∷ xs) = at n xs

unfoldable pub modify : ℕ → (Version → Version) → List Version → Result (List Version)
modify n f [] = err panic
modify zero f (x ∷ xs) = ok (f x ∷ xs)
modify (suc n) f (x ∷ xs) = do rest ← modify n f xs; ok (x ∷ rest)

-- append(i.Versions[:n], i.Versions[n+1:]...)
unfoldable pub cut : ℕ → List Version → Result (List Version)
cut n [] = err panic
cut zero (x ∷ xs) = ok xs
cut (suc n) (x ∷ xs) = do rest ← cut n xs; ok (x ∷ rest)

-- The loop `m.Artifacts[oa] = a` over the artifacts of a version.
unfoldable pub copy_into : Dict Artifact → Dict Artifact → Dict Artifact
copy_into [] m = m
copy_into ((oa, a) ∷ rest) m = insert oa a (copy_into rest m)

-- One entry merged into what is known of its version.
unfoldable pub absorb : Option Version → Version → Version
unfolding copy_into
absorb none v = record {
  version = v.version;
  created = v.created;
  artifacts = some (copy_into (entries v.artifacts) []);
}
absorb (some m) v = record {
  version = m.version;
  created =
      if not (is_zero v.created) && (is_zero m.created || before v.created m.created)
      then v.created
      else m.created;
  artifacts = some (copy_into (entries v.artifacts) (entries m.artifacts));
}

-- The variables of the first loop of SortVersions.
pub record Merge : Type 0 where
  pub merged : Dict Version
  pub seen : List Str

unfoldable pub merge_one : Version → Merge → Merge
unfolding absorb
merge_one v s =
    let m = lookup v.version s.merged in
    record {
      merged = insert v.version (absorb m v) s.merged;
      seen = elim m [ none ↦ s.seen ++ v.version ∷ [] | some _ ↦ s.seen ];
    }

unfoldable pub merge_all : List Version → Merge → Merge
unfolding merge_one
merge_all [] s = s
merge_all (v ∷ vs) s = merge_all vs (merge_one v s)

-- out = append(out, *merged[vs]) for each of the texts
unfoldable pub collect : Dict Version → List Str → Result (List Version)
collect merged [] = ok []
collect merged (k ∷ ks) = do v ← must (lookup k merged); rest ← collect merged ks; ok (v ∷ rest)

-- The texts that are not among the sorted ones.
unfoldable pub not_in : List Str → List Str → List Str
not_in sorted [] = []
not_in sorted (k ∷ ks) = let rest = not_in sorted ks in if contains k sorted then rest else k ∷ rest

-- Upsert's lookup: the position of the version, appended at the end if it is missing.
unfoldable pub locate : Instant → Str → List Version → List Version × ℕ
unfolding find_version
locate now version vs = elim (find_version version vs) [
  | some n ↦ (vs, n)
  | none ↦ (vs ++ record { version = version; created = now; artifacts = some [] } ∷ [], length vs)
]

-- i.Versions[n].Artifacts[osArch] = art, with a map made where it is nil
unfoldable pub put_artifact : Str → Artifact → Version → Version
put_artifact os_arch art v = record v {
  artifacts = some (insert os_arch art (entries v.artifacts));
}

module _ (L : Library) where
  -- SortVersions
  unfoldable pub sort_versions : Index → Result Index
  unfolding merge_all collect not_in
  sort_versions i =
      let s = merge_all i.versions (record { merged = []; seen = [] }) in
      let sorted = sort_ascending L s.seen in
      do
        front ← collect s.merged sorted
        back ← collect s.merged (not_in sorted s.seen)
        ok (record i { versions = front ++ back })

  -- Upsert; `now` is time.Now().UTC()
  unfoldable pub upsert : Instant → Str → Str → Artifact → Index → Result Index
  unfolding locate put_artifact modify
  upsert now version os_arch art i =
      let (vs, n) = locate now version i.versions in
      do
        vs' ← modify n (put_artifact os_arch art) vs
        sort_versions (record i { updated = now; versions = vs' })

-- SetCreated
unfoldable pub set_created : Str → Instant → Index → Result (Index × Bool)
unfolding find_version modify
set_created version t i = elim (find_version version i.versions) [
  | none ↦ ok (i, false)
  | some n ↦ do
    vs ← modify n (λ v. record v { created = t }) i.versions
    ok (record i { versions = vs }, true)
]

-- delete(i.Versions[n].Artifacts, osArch)
unfoldable pub delete_artifact : Str → Version → Version
delete_artifact os_arch v = record v {
  artifacts = elim v.artifacts [ none ↦ none | some m ↦ some (erase os_arch m) ];
}

-- The version is dropped if its last artifact went.
unfoldable pub drop_if_empty : ℕ → List Version → Result (List Version)
unfolding at cut
drop_if_empty n vs = do v ← at n vs; elim (entries v.artifacts) [ [] ↦ cut n vs | _ ∷ _ ↦ ok vs ]

-- Remove with an os-arch, at the position of the version
unfoldable pub remove_artifact : Instant → Str → ℕ → Index → Result (Index × Bool)
unfolding at modify delete_artifact drop_if_empty
remove_artifact now os_arch n i = do
  v ← at n i.versions
  elim (lookup os_arch (entries v.artifacts)) [
    | none ↦ ok (i, false)
    | some _ ↦ do
      vs ← modify n (delete_artifact os_arch) i.versions
      vs' ← drop_if_empty n vs
      ok (record i { updated = now; versions = vs' }, true)
  ]

-- Remove
unfoldable pub remove : Instant → Str → Str → Index → Result (Index × Bool)
unfolding find_version cut remove_artifact
remove now version os_arch i = elim (find_version version i.versions) [
  | none ↦ ok (i, false)
  | some n ↦
      if os_arch == []
      then (do vs ← cut n i.versions; ok (record i { updated = now; versions = vs }, true))
      else remove_artifact now os_arch n i
]

-- versionStrings, VersionStrings
unfoldable pub version_strings : Index → List Str
version_strings i = map (λ (v : Version). v.version) i.versions

-- Releases
unfoldable pub releases : Index → List Release
releases i = map (λ (v : Version). record { version = v.version; created = v.created }) i.versions

-- ResolveVersion, from the version found on
unfoldable pub artifact_of : Str → Version → Result (Version × Artifact)
artifact_of os_arch ver = elim (lookup os_arch (entries ver.artifacts)) [
  | none ↦ err (no_artifact os_arch ver.version)
  | some art ↦ ok (ver, art)
]

module _ (L : Library) where
  -- ResolveVersion
  unfoldable pub resolve_version : Str → Str → Index → Result (Version × Artifact)
  unfolding version_strings find_version at artifact_of
  resolve_version constraint os_arch i = do
    resolved ← resolve L (version_strings i) constraint
    elim (find_version resolved i.versions) [
      | none ↦ err (version_not_found resolved)
      | some n ↦ do ver ← at n i.versions; artifact_of os_arch ver
    ]
