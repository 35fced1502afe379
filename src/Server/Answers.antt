-- ===== src/Server/Answers.antt =====
-- What the resolve and the download operation answer about the same index.
use mathlib.Core.Bool.{true≢false}
use s3_registry.Semver.Order.{satisfies}
use s3_registry.Semver.Highest.{resolve-IsResolution}
use s3_registry.Prelude.{
  ◌≡◌, refl, sym, subst, ap, ◌∙◌, Bool-cases, true, false, ◌||◌, ◌⊎◌, inl, inr, some, [], ◌++◌,
}
use s3_registry.Text.{Str, codes, ◌==◌, contains}
use s3_registry.Result.{Error, Result, ok, err}
use s3_registry.Semver.{Library, IsLawful, resolve}
use s3_registry.Semver.Walk.{IsResolution}
use s3_registry.Index.{Artifact, Version, Index, version_strings, resolve_version}
use s3_registry.Index.View.{names, artifact_at, artifact_in}
use s3_registry.Index.Resolution.{IsDownload, resolve_version-IsDownload}
use s3_registry.Server.{Answer, success, error, resolve_range, get_artifact, present, Download}

-- A range that no version of the index satisfies is answered 422 by resolve, and 404 by a download
-- that names an os and an arch.
pub unsatisfied_lem :
    (L : Library) (range os arch : Str) (presign : Str → Result Str) (idx : Index)
    → IsLawful L
    → os == [] || arch == [] ≡ false
    → ((w : Str) → contains w (names idx.versions) ≡ true → satisfies L range w ≡ false)
    → (resolve_range L range (ok idx) ≡ error 422)
      × (get_artifact L range os arch presign (ok idx) ≡ error 404)
unfolding resolve_range get_artifact resolve_version version_strings
unsatisfied_lem L range os arch presign idx law given none_satisfies =
    go (resolve L (version_strings idx) range) refl
      (resolve-IsResolution L law range (version_strings idx))
  where
    go :
        (r : Result Str)
        → resolve L (version_strings idx) range ≡ r
        → IsResolution L range (version_strings idx) r
        → (resolve_range L range (ok idx) ≡ error 422)
          × (get_artifact L range os arch presign (ok idx) ≡ error 404)
    go (ok v) h (is_in, fits, _) = absurd (true≢false (sym fits ∙ none_satisfies v is_in))
    go (err e) h _ = (rw (h, resolve_range) refl, rw (given, h, get_artifact, resolve_version) refl)

module _ (L : Library) (range os arch : Str) (presign : Str → Result Str) (idx : Index) where
  abbrev pub os_arch : Str
  os_arch = os ++ codes "-" ++ arch

  -- What a download promises: a URL for the artifact under the highest satisfying version; or the
  -- status that names what is missing.
  abbrev pub IsServedFrom : Answer Download → Type 0
  IsServedFrom (success d) =
      (art : Artifact) × IsResolution L range (names idx.versions) (ok d.version)
      × (artifact_at d.version os_arch idx.versions ≡ some art)
      × (presign art.key ≡ ok d.url)
      × (d.sha256 ≡ art.sha256)
      × (d.size ≡ art.size)
  IsServedFrom (error c) =
      ((c ≡ 422) × (os == [] || arch == [] ≡ true))
      ⊎ (((c ≡ 404) × ((e : Error) × IsDownload L range os_arch idx (err e)))
          ⊎ ((c ≡ 500)
              × ((ver : Version) × (art : Artifact) × (e : Error) × IsDownload L range os_arch idx
                    (ok (ver, art))
                  × (presign art.key ≡ err e))))

  presented :
      (ver : Version) (art : Artifact) (u : Result Str)
      → presign art.key ≡ u
      → IsDownload L range os_arch idx (ok (ver, art))
      → IsServedFrom (present L ver art u)
  unfolding present
  presented ver art (err e) p d = inr (inr (refl, (ver, art, e, d, p)))
  presented ver art (ok url) p (r, at, there) =
      (art, r, ap (artifact_in os_arch) at ∙ there, p, refl, refl)

  answered :
      (r : Result (Version × Artifact))
      → os == [] || arch == [] ≡ false
      → resolve_version L range os_arch idx ≡ r
      → IsDownload L range os_arch idx r
      → IsServedFrom (get_artifact L range os arch presign (ok idx))
  unfolding get_artifact
  answered (err e) n run d =
      let eq : get_artifact L range os arch presign (ok idx) ≡ error 404 = rw (n, run) refl in
      subst IsServedFrom (sym eq) (inr (inl (refl, (e, d))))
  answered (ok (ver, art)) n run d =
      let eq : get_artifact L range os arch presign (ok idx) ≡ present L ver art (presign art.key) =
        rw (n, run) refl in
      subst IsServedFrom (sym eq) (presented ver art (presign art.key) refl d)

  -- A download answers with the presigned URL of the artifact that the index holds under the highest
  -- version that satisfies the range, and with its digest and size. It answers 422 only if the os or
  -- the arch is missing, 404 only if no version satisfies the range or that one lacks the artifact,
  -- and 500 only if presigning fails.
  pub get_artifact_lem : IsLawful L → IsServedFrom (get_artifact L range os arch presign (ok idx))
  unfolding get_artifact
  get_artifact_lem law = elim (Bool-cases (os == [] || arch == [])) [
    | inl y ↦ rw y (inl (refl, y))
    | inr n ↦ answered _ n refl (resolve_version-IsDownload L range os_arch idx law)
  ]
