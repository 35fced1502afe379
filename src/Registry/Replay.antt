-- ===== src/Registry/Replay.antt =====
-- The map that publishers and removers make together, however their updates interleave.
use s3_registry.Prelude.{ℕ, ◌≡◌, refl, sym, subst, ap, ◌∙◌, Option, List}
use s3_registry.Text.{Str}
use s3_registry.Instant.{Instant}
use s3_registry.Result.{ok_inj, Result, ok}
use s3_registry.Semver.{Library, IsLawful}
use s3_registry.Index.{Index}
use s3_registry.Index.View.{artifact_at, IsDistinct}
use s3_registry.Index.Remove.{remove_lem}
use s3_registry.Store.{Service, Codec, load, index_key}
use s3_registry.Store.Laws.{Stored, S3, index_in}
use s3_registry.Publish.Change.{publish_change_lem}
use s3_registry.Rm.{rm_change}
use s3_registry.Update.Interleaved.{Commit, System, Reach}
use s3_registry.Update.Interleaved.History.{History, none_yet, then_, Reach-History}
use s3_registry.Registry.{Job, publishing, removing, change_of, View, effect, replay, KeepsView}

module _ (L : Library) (law : IsLawful L) (clock : ℕ → ℕ → Instant) (tool : Str) where
  -- The job's effect on what an index names, and no duplicates
  abbrev Has : Job → Index → Index → Type 0
  Has job i j =
      IsDistinct j.versions
      × ((v x : Str)
          → artifact_at v x j.versions ≡ effect job (λ v x. artifact_at v x i.versions) v x)

  -- A job that changes an index without duplicates has its effect on the map, and leaves none.
  change_of-Has :
      (job : Job) (n : ℕ) (i j : Index)
      → IsDistinct i.versions
      → change_of L clock tool job n i ≡ ok j
      → Has job i j
  unfolding change_of effect rm_change
  change_of-Has (publishing version staged) n i j d h =
      let (k, run, p) = publish_change_lem L clock tool version staged n i law d in
      subst (Has (publishing version staged) i) (ok_inj (sym run ∙ h)) (p.distinct, p.artifacts)
  change_of-Has (removing version os_arch) n i j d h =
      let (k, done', run, p) = remove_lem (clock n 0) version os_arch i d in
      let same : rm_change (λ m. clock m 0) version os_arch n i ≡ ok k = rw (run, rm_change) refl in
      subst (Has (removing version os_arch) i) (ok_inj (sym same ∙ h)) (p.distinct, p.artifacts)

  effect-ap :
      (job : Job) (m n : View)
      → ((v x : Str) → m v x ≡ n v x)
      → (v x : Str) → effect job m v x ≡ effect job n v x
  unfolding effect
  effect-ap (publishing version staged) m n h v x = rw (h v x) refl
  effect-ap (removing version os_arch) m n h v x = rw (h v x) refl

  module _ (C : Codec) (keeps : KeepsView C) (jobs : ℕ → Job) (first : Option Stored) (i0 : Index)
      (read0 : index_in C tool first ≡ ok i0) (distinct0 : IsDistinct i0.versions) where
    -- The index in the bucket names what the jobs of the writes make of what it named at the start.
    abbrev IsReplay : List Commit → Option Stored → Type 0
    IsReplay log o =
        (j : Index) × (index_in C tool o ≡ ok j)
        × IsDistinct j.versions
        × ((v x : Str)
            → artifact_at v x j.versions ≡ replay jobs log (λ v x. artifact_at v x i0.versions) v x)

    module _ (S : Service) (s3 : S3 S) where
      abbrev mutate : ℕ → ℕ → Index → Result Index
      mutate i n idx = change_of L clock tool (jobs i) n idx

      History-IsReplay :
          {log : List Commit} {o : Option Stored}
          → History S s3 C tool mutate first log o
          → IsReplay log o
      unfolding replay
      History-IsReplay none_yet = (i0, read0, distinct0, λ v x. refl)
      History-IsReplay (then_ {log = log} c old changed o h read change encoded body) =
          let (j, read', d, m) = History-IsReplay h in
          let (d', m') = change_of-Has (jobs c.writer) c.round j changed d (
            subst (λ (x : Index). change_of L clock tool (jobs c.writer) c.round x ≡ ok changed)
              (ok_inj (sym read ∙ read')) change) in
          let (k, loaded, d'', m'') = keeps.kept changed c.text encoded d' in
          (
            k,
            ap (load C) body ∙ loaded,
            d'',
            λ v x. m'' v x ∙ m' v x ∙ effect-ap (jobs c.writer) _ _ m v x,
          )

-- At S3 and with a version library as documented, however any number of publishers and removers of one
-- tool interleave, the index that the bucket holds can be read, has no duplicates, and names for each
-- version and os-arch what their writes that took effect, one after the other, make of what it named
-- at the start. The codec keeps what an index names, and the index at the start can be read and has
-- no duplicates.
pub Reach-IsReplay :
    (L : Library) (S : Service) (s3 : S3 S) (C : Codec) (clock : ℕ → ℕ → Instant) (tool : Str)
    (jobs : ℕ → Job) (b : S.Bucket) (i0 : Index) {s : System S.Bucket}
    → IsLawful L
    → KeepsView C
    → index_in C tool (s3.content b (index_key tool)) ≡ ok i0
    → IsDistinct i0.versions
    → Reach S s3 C tool (λ i n idx. change_of L clock tool (jobs i) n idx) b s
    → (j : Index) × (index_in C tool (s3.content s.bucket (index_key tool)) ≡ ok j)
      × IsDistinct j.versions
      × ((v x : Str)
          → artifact_at v x j.versions ≡ replay jobs s.log (λ v x. artifact_at v x i0.versions) v x)
Reach-IsReplay L S s3 C clock tool jobs b i0 law keeps read0 d0 r =
    History-IsReplay L law clock tool C keeps jobs (s3.content b (index_key tool)) i0 read0 d0 S s3
      (Reach-History S s3 C tool (λ i n idx. change_of L clock tool (jobs i) n idx) b r)
