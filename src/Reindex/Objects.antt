-- ===== src/Reindex/Objects.antt =====
-- The loop of reindex over the objects of a tool.
use s3_registry.Prelude.{
  All, ℕ, suc, ◌≡◌, refl, sym, subst, ap, ◌∙◌, Bool, false, ◌&&◌, ◌||◌, Option, none, some, List,
  [], ◌∷◌, arith, if◌then◌else◌, Option-cases, Bool-cases, inl, inr,
}
use s3_registry.Prelude.Int.{ℤ}
use s3_registry.Text.{Str, ◌==◌, eq_iff, eq_refl, contains}
use s3_registry.Dict.{Dict, lookup, lookup-insert}
use s3_registry.Instant.{Instant, is_zero}
use s3_registry.Result.{Result, ok}
use s3_registry.Semver.{Library, IsLawful}
use s3_registry.Index.{Artifact}
use s3_registry.Index.View.{names, artifact_at, IsDistinct}
use s3_registry.Index.Folding.{earlier}
use s3_registry.Index.Upsert.{upsert_lem}
use s3_registry.Store.Listing.{Object}
use s3_registry.Reindex.{
  parse_artifact_key, note_time, time_or_zero, Build, add_artifact, add_object, add_objects,
}

-- No time in the map is the zero time.
abbrev pub NoZero : Dict Instant → Type 0
NoZero m = (v : Str) (t : Instant) → lookup v m ≡ some t → is_zero t ≡ false

note_time_self :
    (version : Str) (t : Instant) (m : Dict Instant)
    → NoZero m
    → time_or_zero (lookup version (note_time version t m))
      ≡ earlier (time_or_zero (lookup version m)) t
unfolding note_time is_zero
note_time_self version t m h = elim (Option-cases (lookup version m)) [
  | inl e ↦ ground (arith, e, lookup-insert version version t m, eq_refl version)
  | inr (u, e) ↦
      ground (arith, e, lookup-insert version version t m, eq_refl version, h version u e)
]

note_time_other :
    (version v : Str) (t : Instant) (m : Dict Instant)
    → version == v ≡ false
    → lookup v (note_time version t m) ≡ lookup v m
unfolding note_time
note_time_other version v t m n = ground (arith, lookup-insert version v t m, n)

note_time_lem :
    (version v : Str) (t : Instant) (m : Dict Instant)
    → NoZero m
    → time_or_zero (lookup v (note_time version t m))
      ≡ (if version == v then earlier (time_or_zero (lookup v m)) t else time_or_zero (lookup v m))
note_time_lem version v t m h = elim (Bool-cases (version == v)) [
  | inl y ↦
      subst
        (λ w. time_or_zero (lookup w (note_time version t m)) ≡ (
          if version == v
          then earlier (time_or_zero (lookup w m)) t
          else time_or_zero (lookup w m)))
        ((eq_iff version v).0 y) (rw y (note_time_self version t m h))
  | inr n ↦ rw (n, note_time_other version v t m n) refl
]

note_time-NoZero :
    (version : Str) (t : Instant) (m : Dict Instant) → NoZero m → NoZero (note_time version t m)
unfolding note_time is_zero
note_time-NoZero version t m h v u e = elim (Bool-cases (version == v)) [
  | inl y ↦ ground (arith, lookup-insert version v t m, y, e, h v u)
  | inr n ↦ h v u (sym (note_time_other version v t m n) ∙ e)
]

module _ (tool : Str) (digest : Str → Str × ℤ) where
  abbrev pub described : Object → Artifact
  described obj = record { key = obj.key; sha256 = (digest obj.key).0; size = (digest obj.key).1 }

  -- Whether the key of an object is one of the version.
  abbrev pub is_of : Str → Option (Str × Str) → Bool
  is_of v none = false
  is_of v (some (version, os_arch)) = version == v

  abbrev pub is_at : Str → Str → Option (Str × Str) → Bool
  is_at v x none = false
  is_at v x (some (version, os_arch)) = version == v && os_arch == x

  -- What the objects say: whether they have a version, the last artifact of an os-arch, and the earliest
  -- known time at which one of the version's objects was modified.
  abbrev pub has_version : Str → List Object → Bool
  has_version v [] = false
  has_version v (obj ∷ objs) = is_of v (parse_artifact_key tool obj.key) || has_version v objs

  abbrev pub last_artifact : Str → Str → List Object → Option Artifact → Option Artifact
  last_artifact v x [] o = o
  last_artifact v x (obj ∷ objs) o =
      last_artifact v x objs
        (if is_at v x (parse_artifact_key tool obj.key) then some (described obj) else o)

  abbrev pub earliest_time : Str → List Object → Instant → Instant
  earliest_time v [] t = t
  earliest_time v (obj ∷ objs) t =
      earliest_time v objs
        (if is_of v (parse_artifact_key tool obj.key) then earlier t obj.last_modified else t)

  -- The state of the loop over the objects, against the objects it has read.
  pub record IsBuilt (objs : List Object) (s t : Build) : Type 0 where
    pub name : t.rebuilt.name ≡ s.rebuilt.name
    pub distinct : IsDistinct t.rebuilt.versions
    pub same :
        (v : Str)
        → contains v (names t.rebuilt.versions)
          ≡ (has_version v objs || contains v (names s.rebuilt.versions))
    pub artifacts :
        (v x : Str)
        → artifact_at v x t.rebuilt.versions
          ≡ last_artifact v x objs (artifact_at v x s.rebuilt.versions)
    pub times :
        (v : Str)
        → time_or_zero (lookup v t.earliest)
          ≡ earliest_time v objs (time_or_zero (lookup v s.earliest))
    pub no_zero : NoZero t.earliest

  module _ (L : Library) (law : IsLawful L) (hash : Str → Result (Str × ℤ))
      (clock : ℕ → Instant) where
    add_artifact_lem :
        (n : ℕ) (obj : Object) (version os_arch : Str) (s : Build)
        → hash obj.key ≡ ok (digest obj.key)
        → parse_artifact_key tool obj.key ≡ some (version, os_arch)
        → IsDistinct s.rebuilt.versions
        → NoZero s.earliest
        → (t : Build) × (add_artifact L hash clock tool n obj (version, os_arch) s ≡ ok t)
          × IsBuilt (obj ∷ []) s t
    unfolding add_artifact
    add_artifact_lem n obj version os_arch s q p d z =
        let (i, run, up) = upsert_lem L law (clock n) version os_arch (described obj) s.rebuilt d in
        (
          record { rebuilt = i; earliest = note_time version obj.last_modified s.earliest },
          rw (q, run) refl,
          record {
            name = up.name;
            distinct = up.distinct;
            same = λ v. ground (arith, up.same v, p);
            artifacts = λ v x. ground (arith, up.artifacts v x, p);
            times = λ v. rw p (note_time_lem version v obj.last_modified s.earliest z);
            no_zero = note_time-NoZero version obj.last_modified s.earliest z;
          },
        )

    add_object_lem :
        (n : ℕ) (obj : Object) (s : Build)
        → hash obj.key ≡ ok (digest obj.key)
        → IsDistinct s.rebuilt.versions
        → NoZero s.earliest
        → (t : Build) × (add_object L hash clock tool n obj s ≡ ok t) × IsBuilt (obj ∷ []) s t
    unfolding add_object
    add_object_lem n obj s q d z = elim (Option-cases (parse_artifact_key tool obj.key)) [
      | inl e ↦ (
        s,
        rw (e, add_object) refl,
        record {
          name = refl;
          distinct = d;
          same = λ v. rw e refl;
          artifacts = λ v x. rw e refl;
          times = λ v. rw e refl;
          no_zero = z;
        },
      )
      | inr ((version, os_arch), e) ↦
          let (t, run, built) = add_artifact_lem n obj version os_arch s q e d z in
          (t, rw (e, add_object) run, built)
    ]

    pub add_objects_lem :
        (n : ℕ) (objs : List Object) (s : Build)
        → All (λ (obj : Object). hash obj.key ≡ ok (digest obj.key)) objs
        → IsDistinct s.rebuilt.versions
        → NoZero s.earliest
        → (t : Build) × (add_objects L hash clock tool n objs s ≡ ok t) × IsBuilt objs s t
    unfolding add_objects
    add_objects_lem n [] s _ d z = (
      s,
      refl,
      record {
        name = refl;
        distinct = d;
        same = λ v. refl;
        artifacts = λ v x. refl;
        times = λ v. refl;
        no_zero = z;
      },
    )
    add_objects_lem n (obj ∷ objs) s (q, qs) d z =
        let (m, run, one) = add_object_lem n obj s q d z in
        let (t, rest, many) = add_objects_lem (suc n) objs m qs one.distinct one.no_zero in
        (
          t,
          rw run rest,
          record {
            name = many.name ∙ one.name;
            distinct = many.distinct;
            same = λ v. ground (arith, many.same v, one.same v);
            artifacts = λ v x. many.artifacts v x ∙ ap (last_artifact v x objs) (one.artifacts v x);
            times = λ v. many.times v ∙ ap (earliest_time v objs) (one.times v);
            no_zero = many.no_zero;
          },
        )
