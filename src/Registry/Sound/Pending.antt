-- ===== src/Registry/Sound/Pending.antt =====
-- The keys of an upload by publish of cmd/s3reg, between its first file and the write of the index.
use s3_registry.Prelude.{
  ◌≡◌, refl, subst, true, false, ◌&&◌, Option, some, List, [], ◌∷◌, map, All, ◌⊎◌, inl, inr,
  Bool-cases, arith,
}
use s3_registry.Text.{Str, ◌==◌, contains}
use s3_registry.Index.{Artifact}
use s3_registry.Publish.{StagedArtifact}
use s3_registry.Publish.Change.{staged_or}
use s3_registry.Publish.Upload.{eq_swap}
use s3_registry.Reindex.{parse_artifact_key}
use s3_registry.Registry.Sound.Moved.{parsed-ne}

abbrev pub keys_of : List StagedArtifact → List Str
keys_of = map (λ (s : StagedArtifact). s.key)

-- The key of each staged artifact is read as the version and its os-arch.
abbrev pub AllParsed : Str → Str → List StagedArtifact → Type 0
AllParsed tool version =
    All (λ (s : StagedArtifact). parse_artifact_key tool s.key ≡ some (version, s.os_arch))

-- A key is pending, or differs from each of the upload.
pub pending_or :
    (k : Str) (ss : List StagedArtifact)
    → (contains k (keys_of ss) ≡ true) ⊎ All (λ (t : StagedArtifact). k == t.key ≡ false) ss
unfolding contains
pending_or k [] = inr tt
pending_or k (s ∷ ss) = elim (Bool-cases (s.key == k)) [
  | inl y ↦ inl (rw y refl)
  | inr n ↦ elim (pending_or k ss) [
    | inl p ↦ inl (ground (arith, p))
    | inr a ↦ inr (eq_swap s.key k n, a)
  ]
]

-- What is named for an os-arch after publishing: the artifact of a staged one, or the old one.
pub staged_or-elim {κ} :
    (P : Artifact → Type κ) (x : Str) (ss : List StagedArtifact) (o : Option Artifact)
    → All (λ (s : StagedArtifact). s.os_arch == x ≡ true → P s.art) ss
    → ((a : Artifact) → All (λ (s : StagedArtifact). s.os_arch == x ≡ false) ss → o ≡ some a → P a)
    → (a : Artifact) → staged_or x ss o ≡ some a
    → P a
staged_or-elim P x [] o new old a h = old a tt h
staged_or-elim P x (s ∷ ss) o (n, new) old a h = elim (Bool-cases (s.os_arch == x)) [
  | inl y ↦
      staged_or-elim P x ss (some s.art) new (λ c _ e. subst P (ground arith) (n y)) a (rw y at h)
  | inr z ↦ staged_or-elim P x ss o new (λ c zs e. old c (z, zs) e) a (rw z at h)
]

-- The key of an artifact that publishing leaves in the index is not pending.
pub unpending :
    (tool version k v x : Str) (ss : List StagedArtifact)
    → AllParsed tool version ss
    → parse_artifact_key tool k ≡ some (v, x)
    → All (λ (s : StagedArtifact). (version == v && s.os_arch == x) ≡ false) ss
    → contains k (keys_of ss) ≡ false
unfolding contains
unpending tool version k v x [] p h a = refl
unpending tool version k v x (s ∷ ss) (p, ps) h (a, as') =
    rw (parsed-ne tool s.key k version s.os_arch v x p h a)
      (unpending tool version k v x ss ps h as')
