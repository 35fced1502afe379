-- ===== src/Verify/Matching.antt =====
-- When runVerify succeeds.
use s3_registry.Prelude.{
  not, ℕ, ◌+◌, ◌≡◌, refl, subst, Bool, true, false, ◌&&◌, ◌||◌, Option, none, some, List, [], ◌∷◌,
  ◌++◌, length, if◌then◌else◌, arith, Bool-cases, inl, inr,
}
use s3_registry.Prelude.Int.{ℤ}
use s3_registry.Text.{Str, ◌==◌}
use s3_registry.Dict.{Dict}
use s3_registry.Result.{Result, ok, err, failed_verification, ◌>>=◌}
use s3_registry.Index.{Artifact, Version, Index, entries}
use s3_registry.Store.{Service, Codec, get_index, get_object}
use s3_registry.Verify.{
  hash_body, Report, hash_object, note, check_artifacts, skips, check_versions, verdict, run_verify,
}

-- No mismatch was noted.
abbrev pub clean : Report → Bool
clean r = elim r.mismatches [ [] ↦ true | _ ∷ _ ↦ false ]

not_clean :
    (xs : List (Str × Str)) (x : Str × Str) (n : ℕ)
    → clean (record { mismatches = xs ++ x ∷ []; checked = n }) ≡ false
not_clean [] x n = refl
not_clean (y ∷ xs) x n = refl

module _ (S : Service) (digest : Str → Str) (b : S.Bucket) where
  abbrev readable_as : Artifact → Result (Option Str × ℤ) → Bool
  readable_as a (err e) = false
  readable_as a (ok (none, size)) = false
  readable_as a (ok (some body, size)) = digest body == a.sha256

  -- The object of an artifact can be read and has the digest that the index names.
  abbrev pub matches : Artifact → Bool
  matches a = readable_as a (get_object S a.key b)

  abbrev pub all_match : Dict Artifact → Bool
  all_match [] = true
  all_match ((os_arch, a) ∷ rest) = matches a && all_match rest

  -- The version is asked for: every one is, if none is named.
  abbrev pub asked : Str → Version → Bool
  asked version v = version == [] || v.version == version

  skips-asked : (version : Str) (v : Version) → skips version v ≡ not (asked version v)
  skips-asked version v = ground arith

  abbrev pub every_match : Str → List Version → Bool
  every_match version [] = true
  every_match version (v ∷ vs) =
      (not (asked version v) || all_match (entries v.artifacts)) && every_match version vs

  abbrev pub artifact_count : Str → List Version → ℕ
  artifact_count version [] = 0
  artifact_count version (v ∷ vs) =
      (if asked version v then length (entries v.artifacts) else 0) + artifact_count version vs

  -- A report after one more artifact, and after some more.
  abbrev Follows : Report → Bool → ℕ → Report → Type 0
  Follows r good n r' =
      (clean r' ≡ (clean r && good)) × (clean r' ≡ true → r'.checked ≡ r.checked + n)

  noted :
      (version os_arch : Str) (a : Artifact) (r : Report) (x : Result (Option Str × ℤ))
      → Follows r (readable_as a x) 1 (note version os_arch a (x >>= λ out. hash_body digest out) r)
  noted version os_arch a r (err e) =
      ground (arith, not_clean r.mismatches (version, os_arch) r.checked)
  noted version os_arch a r (ok (none, size)) =
      ground (arith, not_clean r.mismatches (version, os_arch) r.checked)
  noted version os_arch a r (ok (some body, size)) = elim (Bool-cases (digest body == a.sha256)) [
    | inl y ↦ rw y (ground arith, λ _. refl)
    | inr n ↦ rw n (ground (arith, not_clean r.mismatches (version, os_arch) (r.checked + 1)))
  ]

  two_runs :
      (r s t : Report) (g h : Bool) (m n : ℕ)
      → Follows r g m s
      → Follows s h n t
      → Follows r (g && h) (m + n) t
  two_runs r s t g h m n (a, c) (b', d) = ground (arith, a, c, b', d)

  note_lem :
      (version os_arch : Str) (a : Artifact) (r : Report)
      → Follows r (matches a) 1 (note version os_arch a (hash_object S digest b a.key) r)
  unfolding hash_object
  note_lem version os_arch a r = noted version os_arch a r (get_object S a.key b)

  check_artifacts_lem :
      (version : Str) (m : Dict Artifact) (r : Report)
      → Follows r (all_match m) (length m) (check_artifacts S digest b version m r)
  unfolding check_artifacts
  check_artifacts_lem version [] r = (ground arith, λ _. omega arith)
  check_artifacts_lem version ((os_arch, a) ∷ m) r =
      subst
        (λ n.
          Follows r (all_match ((os_arch, a) ∷ m)) n
            (check_artifacts S digest b version ((os_arch, a) ∷ m) r))
        (omega arith)
        (two_runs r _ _ (matches a) (all_match m) 1 (length m) (note_lem version os_arch a r)
          (check_artifacts_lem version m (note version os_arch a (hash_object S digest b a.key) r)))

  check_version_lem :
      (version : Str) (v : Version) (r : Report)
      → Follows r
          (not (asked version v) || all_match (entries v.artifacts))
          (if asked version v then length (entries v.artifacts) else 0)
          (if skips version v
            then r
            else check_artifacts S digest b v.version (entries v.artifacts) r)
  check_version_lem version v r = elim (Bool-cases (asked version v)) [
    | inl y ↦ rw (skips-asked version v, y) (check_artifacts_lem v.version (entries v.artifacts) r)
    | inr n ↦ rw (skips-asked version v, n) (ground arith, λ _. omega arith)
  ]

  check_versions_lem :
      (version : Str) (vs : List Version) (r : Report)
      → Follows r
          (every_match version vs)
          (artifact_count version vs)
          (check_versions S digest b version vs r)
  unfolding check_versions
  check_versions_lem version [] r = (ground arith, λ _. omega arith)
  check_versions_lem version (v ∷ vs) r =
      two_runs r _ _ _ (every_match version vs) _ (artifact_count version vs)
        (check_version_lem version v r) (check_versions_lem version vs _)

  -- With an index to read, verify succeeds exactly if every artifact of the index, or of the one version
  -- that is asked for, can be read and has the digest that the index names; it answers how many they
  -- are. Otherwise it fails.
  pub run_verify_lem :
      (C : Codec) (tool version etag : Str) (idx : Index)
      → get_index S C tool b ≡ ok (idx, etag)
      → run_verify S digest b C tool version ≡ (
          if every_match version idx.versions
          then ok (artifact_count version idx.versions)
          else err failed_verification)
  unfolding run_verify
  run_verify_lem C tool version etag idx h =
      let (same, counted) =
        check_versions_lem version idx.versions (record { mismatches = []; checked = 0 }) in
      rw h (
        judged _ (every_match version idx.versions) (artifact_count version idx.versions) same
          counted)
    where
      judged :
          (r : Report) (good : Bool) (n : ℕ)
          → clean r ≡ good
          → (clean r ≡ true → r.checked ≡ 0 + n)
          → verdict r ≡ (if good then ok n else err failed_verification)
      judged r good n e f = ground (arith, e, f)
