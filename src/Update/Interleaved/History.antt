-- ===== src/Update/Interleaved/History.antt =====
-- Runs of updateIndex that interleave lose no update.
use s3_registry.Prelude.{
  ℕ, ◌≡◌, refl, sym, subst, eqb, Option, none, some, List, [], ◌∷◌, arith, Bool-cases, inl, inr,
}
use s3_registry.Text.{Str}
use s3_registry.Result.{Result, ok}
use s3_registry.Index.{Index}
use s3_registry.Store.{Service, Codec, index_key, get_index, condition_of}
use s3_registry.Store.Laws.{Stored, S3, Holds, index_in}
use s3_registry.Update.Reading.{ReadFrom, read_from, unchanged}
use s3_registry.Update.Interleaved.{
  Commit, System, holding, Sends, Step, reads, commits, refused, unanswered, elsewhere, Reach,
  start, next,
}

module _ (S : Service) (s3 : S3 S) (C : Codec) (tool : Str)
    (mutate : ℕ → ℕ → Index → Result Index) where
  -- From one content of the index to another by the logged writes: each is the change of its writer,
  -- in that attempt, of the index that the write before it had left.
  pub data History (first : Option Stored) : List Commit → Option Stored → Type 0 where
    none_yet : History first [] first
    then_ :
        {log : List Commit} {before : Option Stored} (c : Commit) (old changed : Index) (o : Stored)
        → History first log before
        → index_in C tool before ≡ ok old
        → mutate c.writer c.round old ≡ ok changed
        → C.marshal changed ≡ some c.text
        → o.body ≡ c.text
        → History first (c ∷ log) (some o)

  abbrev content : S.Bucket → Option Stored
  content b = s3.content b (index_key tool)

  -- What a writer holds was read at some time.
  abbrev WasRead : System S.Bucket → Type 0
  WasRead s =
      (i : ℕ) (idx : Index) (etag : Str)
      → s.held i ≡ some (idx, etag)
      → (b : S.Bucket) × ReadFrom S s3 C tool b idx etag

  abbrev Inv : Option Stored → System S.Bucket → Type 0
  Inv first s = History first s.log (content s.bucket) × WasRead s

  forget :
      (held : ℕ → Option (Index × Str)) (i j : ℕ) (idx : Index) (etag : Str)
      → holding held i none j ≡ some (idx, etag)
      → held j ≡ some (idx, etag)
  forget held i j idx etag h = ground arith

  effective :
      (first : Option Stored) (s : System S.Bucket) (i n : ℕ) (text etag : Str) (o : Stored)
      → Inv first s
      → Sends S s3 C tool mutate s i n text etag
      → Holds (condition_of etag) (content s.bucket)
      → o.body ≡ text
      → History first (record { writer = i; round = n; text = text } ∷ s.log) (some o)
  effective first s i n text etag o (h, was) sends holds e =
      let (b0, from) = was i sends.idx etag sends.read in
      then_ (record { writer = i; round = n; text = text }) sends.idx sends.changed o h
        (unchanged S s3 C tool b0 s.bucket sends.idx etag from holds) sends.change sends.encoded e

  Step-Inv :
      (first : Option Stored) {s t : System S.Bucket}
      → Step S s3 C tool mutate s t
      → Inv first s
      → Inv first t
  unfolding get_index
  Step-Inv first {s} (reads i idx etag r) (h, was) = (
    h,
    λ j idx' tag k. elim (Bool-cases (eqb i j)) [
      | inl y ↦
          let same : (idx, etag) ≡ (idx', tag) = ground (arith, y, k) in
          subst (λ (p : Index × Str). (b : S.Bucket) × ReadFrom S s3 C tool b p.0 p.1) same
            (
              s.bucket,
              read_from S s3 C tool s.bucket (S.get_object s.bucket (index_key tool)) idx etag refl
                  r,
            )
      | inr n ↦ was j idx' tag (ground (arith, n, k))
    ],
  )
  Step-Inv first {s} (commits i n text etag b sends p) (h, was) =
      let (holds, (o, at, body), _) =
        s3.put_done s.bucket (index_key tool) text (condition_of etag) b p in
      (
        subst (History first (record { writer = i; round = n; text = text } ∷ s.log)) (sym at)
            (effective first s i n text etag o (h, was) sends holds body),
        λ j idx tag k. was j idx tag (forget s.held i j idx tag k),
      )
  Step-Inv first {s} (refused i n text etag b e sends p same) (h, was) = (
    subst (History first s.log) (sym same) h,
    λ j idx tag k. was j idx tag (forget s.held i j idx tag k),
  )
  Step-Inv first {s} (unanswered i n text etag b e o sends p holds at body) (h, was) = (
    subst (History first (record { writer = i; round = n; text = text } ∷ s.log)) (sym at)
        (effective first s i n text etag o (h, was) sends holds body),
    λ j idx tag k. was j idx tag (forget s.held i j idx tag k),
  )
  Step-Inv first {s} (elsewhere b same) (h, was) = (subst (History first s.log) (sym same) h, was)

  Reach-Inv :
      (b : S.Bucket) {s : System S.Bucket} → Reach S s3 C tool mutate b s → Inv (content b) s
  Reach-Inv b start = (none_yet, λ i idx etag e. absurd (cc))
  Reach-Inv b (next r st) = Step-Inv (content b) st (Reach-Inv b r)

  -- At S3 as documented, however the attempts of any number of writers interleave, the index that the
  -- bucket holds is what the writes that took effect make, one after the other, of the index at the
  -- start: each changes the index that the one before it had left, so none is lost.
  pub Reach-History :
      (b : S.Bucket) {s : System S.Bucket}
      → Reach S s3 C tool mutate b s
      → History (s3.content b (index_key tool)) s.log (s3.content s.bucket (index_key tool))
  Reach-History b r = (Reach-Inv b r).0
