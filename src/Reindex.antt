-- ===== src/Reindex.antt =====
-- cmd/s3reg/reindex.go: the keys that it reads, the index that it builds from the objects, and the
-- loop that writes it.
pub mod Keys
pub mod Times
pub mod Objects
pub mod Rebuilt
pub mod Overwriting
pub mod Run
use s3_registry.Prelude.{
  ℕ, zero, suc, Bool, true, false, not, ◌&&◌, ◌||◌, Option, none, some, List, [], ◌∷◌, ◌++◌, eqb,
  if◌then◌else◌,
}
use s3_registry.Text.{Str, codes, ◌==◌, strip_prefix}
use s3_registry.Prelude.Int.{ℤ}
use s3_registry.Dict.{Dict, lookup, insert}
use s3_registry.Instant.{Instant, zero_time, is_zero, before}
use s3_registry.Result.{Result, ok, err, not_found, contention, ◌>>=◌}
use s3_registry.Semver.{Library}
use s3_registry.Index.{Artifact, Release, Index, new, upsert, set_created, releases, sort_versions}
use s3_registry.Store.{Service, Codec, get_index, put_index}
use s3_registry.Store.Listing.{Object, list_objects}
use s3_registry.Verify.{hash_object}
use mathlib.Core.Option
use s3_registry.Update.{Others, Attempt, returned, found_or_new, settle, next_round, max_attempts}

-- strings.Split at "/"
abbrev pub split_cons : ℕ → List Str → List Str
split_cons c [] = (c ∷ []) ∷ []
split_cons c (p ∷ ps) = (c ∷ p) ∷ ps

unfoldable pub split_slash : Str → List Str
split_slash [] = [] ∷ []
split_slash (c ∷ s) = let rest = split_slash s in if eqb c 47 then [] ∷ rest else split_cons c rest

-- strings.Contains(s, "-")
unfoldable pub has_dash : Str → Bool
has_dash [] = false
has_dash (c ∷ s) = eqb c 45 || has_dash s

-- three parts, of which the second is an os-arch
abbrev pub three_parts : List Str → Option (Str × Str)
three_parts (version ∷ os_arch ∷ file ∷ []) =
    if has_dash os_arch then some (version, os_arch) else none
three_parts _ = none

-- strings.TrimPrefix(key, tool+"/"), or `none` where that is the key itself
unfoldable pub below_tool : Str → Str → Option Str
unfolding strip_prefix
below_tool tool key = strip_prefix key (tool ++ codes "/")

-- parseArtifactKey; `none` is ok=false.
unfoldable pub parse_artifact_key : Str → Str → Option (Str × Str)
unfolding below_tool split_slash has_dash
parse_artifact_key tool key = elim (below_tool tool key) [
  | none ↦ none
  | some rest ↦ if rest == codes "index.json" then none else three_parts (split_slash rest)
]

-- the loop over the releases of the current index: the times of publication that it knows
unfoldable pub kept_times : List Release → Dict Instant → Dict Instant
unfolding is_zero
kept_times [] created = created
kept_times (r ∷ rs) created =
    kept_times rs (if is_zero r.created then created else insert r.version r.created created)

-- no current index has no times, and an error that is not ErrNotFound ends the run
unfoldable pub current_times : Result (Index × Str) → Result (Dict Instant)
unfolding kept_times releases
current_times (ok (idx, etag)) = ok (kept_times (releases idx) [])
current_times (err not_found) = ok []
current_times (err e) = err e

-- the update of `earliest` by the time of an object
abbrev pub is_earlier : Instant → Option Instant → Bool
is_earlier t none = true
is_earlier t (some e) = before t e

unfoldable pub note_time : Str → Instant → Dict Instant → Dict Instant
unfolding is_zero
note_time version t earliest =
    if not (is_zero t) && is_earlier t (lookup version earliest)
    then insert version t earliest
    else earliest

-- created[r.Version], or else earliest[r.Version], which is the zero time where it is missing
abbrev pub time_or_zero : Option Instant → Instant
time_or_zero none = zero_time
time_or_zero (some t) = t

unfoldable pub publish_time : Dict Instant → Dict Instant → Str → Instant
publish_time created earliest version = elim (lookup version created) [
  | some t ↦ t
  | none ↦ time_or_zero (lookup version earliest)
]

-- the loop over rebuilt.Releases()
unfoldable pub stamp_all : Dict Instant → Dict Instant → List Release → Index → Result Index
unfolding set_created publish_time
stamp_all created earliest [] i = ok i
stamp_all created earliest (r ∷ rs) i = do
  (j, found) ← set_created r.version (publish_time created earliest r.version) i
  stamp_all created earliest rs j

pub record Build : Type 0 where
  pub rebuilt : Index
  pub earliest : Dict Instant

-- `hash` is hashObject at the key of an object, and `clock` the time of each Upsert.
module _ (L : Library) (hash : Str → Result (Str × ℤ)) (clock : ℕ → Instant) (tool : Str) where
  unfoldable pub add_artifact : ℕ → Object → Str × Str → Build → Result Build
  unfolding upsert note_time
  add_artifact n obj (version, os_arch) s = do
    (sum, size) ← hash obj.key
    i ←
        upsert L (clock n) version os_arch (record { key = obj.key; sha256 = sum; size = size })
          s.rebuilt
    ok (record { rebuilt = i; earliest = note_time version obj.last_modified s.earliest })

  unfoldable pub add_object : ℕ → Object → Build → Result Build
  unfolding parse_artifact_key add_artifact
  add_object n obj s = elim (parse_artifact_key tool obj.key) [
    | none ↦ ok s
    | some p ↦ add_artifact n obj p s
  ]

  -- the loop over the objects
  unfoldable pub add_objects : ℕ → List Object → Build → Result Build
  unfolding add_object
  add_objects n [] s = ok s
  add_objects n (obj ∷ objs) s = do t ← add_object n obj s; add_objects (suc n) objs t

  -- runReindex, from the listed objects and the current index to SortVersions
  unfoldable pub rebuild : List Object → Result (Index × Str) → Result Index
  unfolding current_times add_objects stamp_all sort_versions
  rebuild objs current = do
    created ← current_times current
    s ← add_objects 0 objs (record { rebuilt = new tool; earliest = [] })
    i ← stamp_all created s.earliest (releases s.rebuilt) s.rebuilt
    sort_versions L i

-- the ETag of the current index; `found_or_new` gives a missing one the empty ETag
module _ (S : Service) (C : Codec) (others : Others S.Bucket) (tool : Str) (rebuilt : Index) where
  abbrev pub rewrite : ℕ → S.Bucket → Result (Index × Str) → S.Bucket × Attempt
  rewrite n b (err e) = (b, returned (err e))
  rewrite n b (ok (idx, etag)) =
      let (b', r) = put_index S C tool rebuilt etag (others.before_write n b) in (b', settle r)

  -- one round of the writing loop
  unfoldable pub write_round : ℕ → S.Bucket → S.Bucket × Attempt
  unfolding get_index put_index found_or_new settle
  write_round n b =
      let b0 = others.before_read n b in rewrite n b0 (found_or_new tool (get_index S C tool b0))

  -- the writing loop, with the rounds left and the number of this one
  unfoldable pub write_rounds : ℕ → ℕ → S.Bucket → S.Bucket × Result (Unit {0})
  unfolding write_round next_round
  write_rounds zero n b = (b, err (contention tool))
  write_rounds (suc left) n b = next_round (write_rounds left (suc n)) (write_round n b)

-- runReindex, on fuel for the pages of the listing; `none` is a listing still running. `digest` is
-- the hexadecimal SHA-256 of a text.
module _ (L : Library) (S : Service) (C : Codec) (digest : Str → Str) (others : Others S.Bucket)
    (clock : ℕ → Instant) (tool : Str) where
  -- from the first GetIndex on
  unfoldable pub reindex_listed : List Object → S.Bucket → S.Bucket × Result (Unit {0})
  unfolding rebuild write_rounds hash_object get_index
  reindex_listed objs b =
      elim (rebuild L (hash_object S digest b) clock tool objs (get_index S C tool b)) [
        | err e ↦ (b, err e)
        | ok idx ↦ write_rounds S C others tool idx max_attempts 0 b
      ]

  abbrev pub after_listing : S.Bucket → Result (List Object) → S.Bucket × Result (Unit {0})
  after_listing b (err e) = (b, err e)
  after_listing b (ok objs) = reindex_listed objs b

  unfoldable pub run_reindex : ℕ → S.Bucket → Option (S.Bucket × Result (Unit {0}))
  unfolding reindex_listed list_objects
  run_reindex fuel b =
      Option.map (after_listing b) (list_objects S fuel (tool ++ codes "/") none [] b)
