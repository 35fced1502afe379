-- ===== src/Reindex/Times.antt =====
-- The times of publication that reindex sets.
use s3_registry.Prelude.{
  sym, eqb, not, Option, none, some, ◌≡◌, refl, ap, ◌∙◌, Bool, true, false, ◌&&◌, ◌||◌, List, [],
  ◌∷◌, map, arith, if◌then◌else◌, Option-cases, Bool-cases, inl, inr,
}
use s3_registry.Text.{Str, ◌==◌, eq_iff, contains}
use s3_registry.Dict.{Dict, lookup, insert, lookup-insert}
use s3_registry.Instant.{Instant, zero_time, is_zero}
use s3_registry.Result.{Error, Result, ok, err, ok_inj, not_found}
use s3_registry.Index.{Version, Release, Index, find_version, set_created, releases}
use s3_registry.Index.View.{
  names, version_at, artifact_at, created_in, is_some-version_at, is_some-find_version,
}
use s3_registry.Index.Placing.{
  update_first, modify_first, names-update_first, version_at-update_first,
}
use s3_registry.Reindex.{kept_times, current_times, publish_time, stamp_all}

-- Only the time of one version differs.
pub record IsStamped (k : Str) (t : Instant) (i j : Index) : Type 0 where
  pub name : j.name ≡ i.name
  pub same : names j.versions ≡ names i.versions
  pub artifacts : (v x : Str) → artifact_at v x j.versions ≡ artifact_at v x i.versions
  pub created :
      (v : Str)
      → created_in (version_at v j.versions) ≡ (
          if k == v && contains v (names i.versions)
          then t
          else created_in (version_at v i.versions))

pub set_created_lem :
    (k : Str) (t : Instant) (i : Index)
    → (j : Index) × (done : Bool) × (set_created k t i ≡ ok (j, done))
      × (done ≡ contains k (names i.versions))
      × IsStamped k t i j
unfolding set_created
set_created_lem k t i = elim (Option-cases (find_version k i.versions)) [
  | inl e ↦ (
    i,
    false,
    rw (e, set_created) refl,
    ground (arith, e, is_some-find_version k i.versions, is_some-version_at k i.versions),
    record {
      name = refl;
      same = refl;
      artifacts = λ v x. refl;
      created = λ v. ground (
        arith,
        e,
        is_some-find_version k i.versions,
        is_some-version_at k i.versions,
        eq_iff k v,
      );
    },
  )
  | inr (n, e) ↦ (
    record i { versions = update_first k f i.versions },
    true,
    rw (e, set_created, modify_first k f i.versions n e) refl,
    ground (arith, e, is_some-find_version k i.versions, is_some-version_at k i.versions),
    record {
      name = refl;
      same = names-update_first k f i.versions (λ v. refl);
      artifacts =
          λ v x. ground (arith, version_at-update_first k v f i.versions (λ w. refl), eq_iff k v);
      created = λ v. ground (
        arith,
        version_at-update_first k v f i.versions (λ w. refl),
        is_some-version_at v i.versions,
        eq_iff k v,
      );
    },
  )
]
  where
    f : Version → Version
    f v = record v { created = t }

-- The time of publication that an index knows for a version: of its entries that have one the last
abbrev pub known_time : Str → List Version → Option Instant → Option Instant
known_time v [] t = t
known_time v (w ∷ vs) t =
    known_time v vs (if w.version == v && not (eqb w.created zero_time) then some w.created else t)

-- The times that the current index knows, where there is one
abbrev pub time_in : Result (Index × Str) → Str → Option Instant
time_in (ok (idx, etag)) v = known_time v idx.versions none
time_in (err e) v = none

kept_times_lem :
    (v : Str) (vs : List Version) (created : Dict Instant)
    → lookup v (
        kept_times
          (map (λ (w : Version). record { version = w.version; created = w.created }) vs)
          created)
      ≡ known_time v vs (lookup v created)
unfolding kept_times is_zero
kept_times_lem v [] created = refl
kept_times_lem v (w ∷ vs) created = elim (Bool-cases (eqb w.created zero_time)) [
  | inl y ↦ rw (y, kept_times) (kept_times_lem v vs created ∙ ground arith)
  | inr n ↦
      rw (n, kept_times)
        (kept_times_lem v vs (insert w.version w.created created)
          ∙ ap (known_time v vs) (lookup-insert w.version v w.created created ∙ ground (arith, n)))
]

pub current_times_lem :
    (current : Result (Index × Str)) (created : Dict Instant)
    → current_times current ≡ ok created
    → (v : Str) → lookup v created ≡ time_in current v
unfolding current_times releases lookup
current_times_lem (ok (idx, etag)) created h v =
    ap (lookup v) (sym (ok_inj h)) ∙ kept_times_lem v idx.versions []
current_times_lem (err e) created h v = no_times e h
  where
    no_times : (e : Error) → current_times (err e) ≡ ok created → lookup v created ≡ none
    no_times not_found k = ap (lookup v) (sym (ok_inj k))
    no_times e k = absurd (cc)

-- Some of the releases has the version.
abbrev pub is_listed : Str → List Release → Bool
is_listed v [] = false
is_listed v (r ∷ rs) = r.version == v || is_listed v rs

-- The times of some versions are set, and nothing else.
pub record AreStamped (time : Str → Instant) (rs : List Release) (i j : Index) : Type 0 where
  pub name : j.name ≡ i.name
  pub same : names j.versions ≡ names i.versions
  pub artifacts : (v x : Str) → artifact_at v x j.versions ≡ artifact_at v x i.versions
  pub created :
      (v : Str)
      → created_in (version_at v j.versions) ≡ (
          if is_listed v rs && contains v (names i.versions)
          then time v
          else created_in (version_at v i.versions))

same_time : (time : Str → Instant) (v w : Str) → v == w ≡ true → time v ≡ time w
same_time time v w h = ap time ((eq_iff v w).0 h)

pub stamp_all_lem :
    (created earliest : Dict Instant) (rs : List Release) (i : Index)
    → (j : Index) × (stamp_all created earliest rs i ≡ ok j)
      × AreStamped (publish_time created earliest) rs i j
unfolding stamp_all
stamp_all_lem created earliest [] i =
    (i, refl, record { name = refl; same = refl; artifacts = λ v x. refl; created = λ v. refl })
stamp_all_lem created earliest (r ∷ rs) i =
    let (k, done, run, _, one) =
      set_created_lem r.version (publish_time created earliest r.version) i in
    let (j, rest, many) = stamp_all_lem created earliest rs k in
    (
      j,
      rw run rest,
      record {
        name = many.name ∙ one.name;
        same = many.same ∙ one.same;
        artifacts = λ v x. many.artifacts v x ∙ one.artifacts v x;
        created = λ v. elim (Bool-cases (r.version == v)) [
          | inl y ↦ ground (
            arith,
            many.created v,
            one.created v,
            one.same,
            same_time (publish_time created earliest) r.version v,
            y,
          )
          | inr n ↦ ground (arith, many.created v, one.created v, one.same, n)
        ];
      },
    )

-- The releases of an index name its versions.
pub is_listed-releases :
    (v : Str) (i : Index) → is_listed v (releases i) ≡ contains v (names i.versions)
unfolding releases contains
is_listed-releases v i = go i.versions
  where
    go :
        (vs : List Version)
        → is_listed v
            (map (λ (w : Version). record { version = w.version; created = w.created }) vs)
          ≡ contains v (names vs)
    go [] = refl
    go (w ∷ vs) = rw (go vs) refl
