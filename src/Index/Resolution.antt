-- ===== src/Index/Resolution.antt =====
-- ResolveVersion: the highest satisfying version of the index, and its artifact.
use s3_registry.Prelude.{
  ◌≢◌, ◌≡◌, refl, sym, subst, ap, ◌∙◌, true, false, none, some, arith, ◌⊎◌, inl, inr, Option-cases,
}
use s3_registry.Text.{Str, contains}
use s3_registry.Dict.{lookup}
use s3_registry.Result.{Error, Result, ok, err, panic, no_artifact}
use s3_registry.Semver.{Library, IsLawful, resolve}
use s3_registry.Semver.Order.{satisfies}
use s3_registry.Semver.Highest.{resolve-IsResolution, resolve-no_panic}
use s3_registry.Semver.Walk.{IsResolution}
use s3_registry.Index.{
  Artifact, Version, Index, entries, find_version, artifact_of, version_strings, resolve_version,
}
use s3_registry.Index.View.{
  names, version_at, artifact_at, artifact_in, is_some-version_at, is_some-find_version,
  at-find_version, version-version_at,
}

module _ (L : Library) where
  -- What ResolveVersion promises: the first entry of the highest satisfying version and its artifact;
  -- an error, not a panic, if nothing satisfies the constraint, or if that one version lacks the os-arch.
  abbrev pub IsDownload : Str → Str → Index → Result (Version × Artifact) → Type 0
  IsDownload t oa i (ok (ver, art)) =
      IsResolution L t (names i.versions) (ok ver.version)
      × (version_at ver.version i.versions ≡ some ver)
      × (lookup oa (entries ver.artifacts) ≡ some art)
  IsDownload t oa i (err e) =
      (((w : Str) → contains w (names i.versions) ≡ true → satisfies L t w ≡ false) × (e ≢ panic))
      ⊎ ((v : Str) × IsResolution L t (names i.versions) (ok v)
          × (artifact_at v oa i.versions ≡ none)
          × (e ≡ no_artifact oa v))

  artifact_of-IsDownload :
      (t oa : Str) (i : Index) (ver : Version)
      → IsResolution L t (names i.versions) (ok ver.version)
      → version_at ver.version i.versions ≡ some ver
      → IsDownload t oa i (artifact_of oa ver)
  unfolding artifact_of
  artifact_of-IsDownload t oa i ver r e = elim (Option-cases (lookup oa (entries ver.artifacts))) [
    | inl none_there ↦
        subst (IsDownload t oa i) (sym (missing ver none_there))
          (inr (ver.version, r, (ap (artifact_in oa) e ∙ none_there), refl))
    | inr (a, there) ↦ subst (IsDownload t oa i) (sym (present ver a there)) (r, e, there)
  ]
    where
      missing :
          (u : Version)
          → lookup oa (entries u.artifacts) ≡ none
          → artifact_of oa u ≡ err (no_artifact oa u.version)
      missing u h = rw (h, artifact_of)

      present :
          (u : Version) (a : Artifact)
          → lookup oa (entries u.artifacts) ≡ some a
          → artifact_of oa u ≡ ok (u, a)
      present u a h = rw (h, artifact_of)

  module _ (t oa : Str) (i : Index) where
    -- the end of ResolveVersion, with the resolved version
    run_resolved :
        (v : Str)
        → resolve L (version_strings i) t ≡ ok v
        → contains v (names i.versions) ≡ true
        → (ver : Version) × (version_at v i.versions ≡ some ver)
          × (resolve_version L t oa i ≡ artifact_of oa ver)
    unfolding resolve_version
    run_resolved v e c = elim (Option-cases (version_at v i.versions)) [
      | inl q ↦ absurd (ground (arith, is_some-version_at v i.versions))
      | inr (ver, q) ↦ elim (Option-cases (find_version v i.versions)) [
        | inl f ↦ absurd (ground (arith, is_some-find_version v i.versions))
        | inr (n, f) ↦ (ver, q, ground (arith, e, f, at-find_version v i.versions n f, q))
      ]
    ]

    failed :
        (x : Error) → resolve L (version_strings i) t ≡ err x → resolve_version L t oa i ≡ err x
    unfolding resolve_version
    failed x e = rw (e, resolve_version)

    -- ResolveVersion finds the version that Resolve names, so it panics nowhere and meets its
    -- promise on every input.
    pub resolve_version-IsDownload : IsLawful L → IsDownload t oa i (resolve_version L t oa i)
    unfolding version_strings
    resolve_version-IsDownload law =
        go (resolve L (version_strings i) t) refl (resolve-IsResolution L law t (names i.versions))
      where
        go :
            (r : Result Str)
            → resolve L (version_strings i) t ≡ r
            → IsResolution L t (names i.versions) r
            → IsDownload t oa i (resolve_version L t oa i)
        go (ok v) e h =
            let (ver, q, run) = run_resolved v e h.0 in
            let same : ver.version ≡ v = version-version_at v i.versions ver q in
            rw run (
              artifact_of-IsDownload t oa i ver
                (subst (λ u. IsResolution L t (names i.versions) (ok u)) (sym same) h)
                (ap (λ u. version_at u i.versions) same ∙ q))
        go (err x) e h =
            subst (IsDownload t oa i) (sym (failed x e))
              (inl (h, resolve-no_panic L t (version_strings i) x e))
