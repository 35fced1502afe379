-- ===== src/Registry/Download.antt =====
-- From publishers and removers to a download: the server of internal/server on a bucket that they change.
use s3_registry.Prelude.{ℕ, ◌≡◌, sym, subst, ap, ◌∙◌, Option, inl, inr, none, some, ◌++◌, List}
use s3_registry.Text.{Str, codes}
use s3_registry.Text.Unicode.{Unicode}
use s3_registry.Dict.{lookup}
use s3_registry.Instant.{Instant}
use s3_registry.Result.{Result, ok, err, ok_inj}
use s3_registry.Semver.{Library, IsLawful}
use s3_registry.Index.{Artifact, Index}
use s3_registry.Index.View.{artifact_at, IsDistinct}
use s3_registry.Index.Distinct.{latest_artifact-distinct}
use s3_registry.Store.{Service, Codec, index_key, get_index}
use s3_registry.Store.Laws.{S3, index_in}
use s3_registry.Update.Reading.{index_in-get_index}
use s3_registry.Update.Interleaved.{System, Reach}
use s3_registry.Registry.{Job, View, change_of, replay, KeepsView}
use s3_registry.Registry.Replay.{Reach-IsReplay}
use s3_registry.Server.{success, Download, map_store_err}
use s3_registry.Index.Folding.{latest_artifact}
use s3_registry.Server.Cached.{IsGood}
use s3_registry.Server.Routes.{Endpoint, Route, Request, Mux}
use s3_registry.Server.Routes as Routes
use s3_registry.Server.Serving.{Server, World, Reply, download, handle}
use s3_registry.Server.Replies.{IsReply, IsReplyTo, IsDownloadOf, Served, handle-IsReply}

-- The artifact of a download, in a map
abbrev pub IsOf : View → World → Server → Download → Type 0
IsOf m w s d =
    (art : Artifact) × (m d.version (w.os ++ codes "-" ++ w.arch) ≡ some art)
    × (w.presign_get art.key s.cfg.presign_ttl ≡ ok d.url)
    × (d.sha256 ≡ art.sha256)
    × (d.size ≡ art.size)

module _ (L : Library) (w : World) (s : Server) (absent : lookup w.tool s.entries ≡ none)
    (d : Download) where
  -- A download without an entry in the cache is about what GetIndex returns.
  abbrev IsFresh : Type 0
  IsFresh =
      (raw : Index) × (etag : Str) × (w.get_index w.tool ≡ ok (raw, etag))
      × IsOf (λ v oa. latest_artifact v oa raw.versions) w s d

  from_index :
      (x : Result Index)
      → Served L w s x
      → IsDownloadOf L w (λ key. w.presign_get key s.cfg.presign_ttl) x (success d)
      → IsFresh
  unfolding map_store_err
  from_index (err e) h (inl (_, p)) = absurd (cc)
  from_index (err e) h (inr (_, p)) = absurd (cc)
  from_index (ok idx) (inl (e, l, _, _)) p = absurd (none≢some (sym absent ∙ l))
    where
      none≢some : ¬ (none ≡ some e)
      none≢some h = cc
  from_index (ok idx) (inr (raw, etag, up, form)) (art, _, at, url, sum, size) = (
    raw,
    etag,
    up,
    (art, sym (form.artifacts d.version (w.os ++ codes "-" ++ w.arch)) ∙ at, url, sum, size),
  )

  from_endpoint : (o : Option Endpoint) → IsReplyTo L w s o (download (success d)) → IsFresh
  from_endpoint none h = absurd (cc)
  from_endpoint (some Routes.live) (a, h) = absurd (cc)
  from_endpoint (some Routes.ready) (a, h) = absurd (cc)
  from_endpoint (some Routes.status) (a, h) = absurd (cc)
  from_endpoint (some (Routes.redirect to)) h = absurd (cc)
  from_endpoint (some (Routes.described what)) h = absurd (cc)
  from_endpoint (some Routes.list_tools) (a, h, _) = absurd (cc)
  from_endpoint (some Routes.list_versions) (a, h, _) = absurd (cc)
  from_endpoint (some Routes.resolve_version) (a, h, _) = absurd (cc)
  from_endpoint (some Routes.get_artifact) (a, h, (y, served, p)) =
      let same : success d ≡ a = cc in
      from_index y served
        (subst (IsDownloadOf L w (λ key. w.presign_get key s.cfg.presign_ttl) y) (sym same) p)

  from_reply :
      (u : Unicode) (m : Mux) (own : List Route) (r : Request) (x : Reply)
      → IsReply L w s u m own r x
      → x ≡ download (success d)
      → IsFresh
  from_reply u m own r x (inl (_, refused)) e = absurd (cc)
  from_reply u m own r x (inr (_, h)) e = from_endpoint _ (subst (IsReplyTo L w s _) e h)

-- At S3 and with a version library as documented, however publishers and removers of a tool interleave
-- before it, a download of the tool that succeeds, without an entry of the tool in the cache, presents
-- the artifact that their writes that took effect, one after the other, make of the map at the start:
-- its presigned URL, its digest and its size. The codec keeps what an index names, and the index at
-- the start can be read and has no duplicates.
pub handle-IsOf :
    (L : Library) (S : Service) (s3 : S3 S) (C : Codec) (clock : ℕ → ℕ → Instant) (jobs : ℕ → Job)
    (b : S.Bucket) (i0 : Index) {t : System S.Bucket} (w : World) (s : Server) (u : Unicode)
    (m : Mux) (own : List Route) (r : Request) (d : Download)
    → IsLawful L
    → KeepsView C
    → index_in C w.tool (s3.content b (index_key w.tool)) ≡ ok i0
    → IsDistinct i0.versions
    → Reach S s3 C w.tool (λ i n idx. change_of L clock w.tool (jobs i) n idx) b t
    → w.get_index w.tool ≡ get_index S C w.tool t.bucket
    → IsGood L s.entries
    → lookup w.tool s.entries ≡ none
    → (handle L w u m own r s).1 ≡ download (success d)
    → IsOf (replay jobs t.log (λ v x. artifact_at v x i0.versions)) w s d
handle-IsOf L S s3 C clock jobs b i0 {t} w s u m own r d law keeps read0 d0 reach store good absent
      h =
    let (j, read, distinct, view) =
      Reach-IsReplay L S s3 C clock w.tool jobs b i0 law keeps read0 d0 reach in
    let (raw, etag, up, (art, at, url, sum, size)) =
      from_reply L w s absent d u m own r _ (handle-IsReply L w s u m own r law good).0 h in
    let same : raw ≡ j =
      ok_inj (sym (index_in-get_index S s3 C w.tool t.bucket raw etag (sym store ∙ up)) ∙ read) in
    let oa = w.os ++ codes "-" ++ w.arch in
    (
      art,
      sym (view d.version oa)
          ∙ sym (latest_artifact-distinct d.version oa j.versions distinct)
          ∙ ap (λ (i : Index). latest_artifact d.version oa i.versions) (sym same)
          ∙ at,
      url,
      sum,
      size,
    )
