-- ===== src/Update/Interleaved/Attempts.antt =====
-- An attempt of updateIndex is a read and a write among the steps of the system.
use s3_registry.Prelude.{ℕ, ◌≡◌, refl, ap, ◌∙◌, some, List, ◌∷◌}
use s3_registry.Text.{Str}
use s3_registry.Result.{Result, ok, err}
use s3_registry.Index.{Index}
use s3_registry.Store.{Service, Codec, index_key, get_index, condition_of}
use s3_registry.Store.Laws.{S3}
use s3_registry.Update.{Others, returned, found_or_new, attempt, write_back}
use s3_registry.Update.Atomic.{write_back_ok, failed_read}
use s3_registry.Update.Reading.{put_index_done}
use s3_registry.Update.Interleaved.{Commit, System, holding, Step, reads, commits}

module _ (S : Service) (s3 : S3 S) (C : Codec) (tool : Str)
    (mutate : ℕ → ℕ → Index → Result Index) where
  pub data Steps (s : System S.Bucket) : System S.Bucket → Type 0 where
    here : Steps s s
    then_ : {t u : System S.Bucket} → Steps s t → Step S s3 C tool mutate t u → Steps s u

  Steps-append : {s t u : System S.Bucket} → Steps s t → Steps t u → Steps s u
  Steps-append d here = d
  Steps-append d (then_ e st) = then_ (Steps-append d e) st

  module _ (i n : ℕ) (s : System S.Bucket) (b' : S.Bucket) (w : ℕ → S.Bucket → S.Bucket) where
    abbrev others : Others S.Bucket
    others = record { before_read = λ m b. b; before_write = w; before_object = λ m b. b }

    abbrev after_read : Index × Str → System S.Bucket
    after_read r = record s { held = holding s.held i (some r) }

    -- The other writers take their steps between the read and the write.
    abbrev Between : Type 0
    Between =
        (r : Index × Str)
        → (t : System S.Bucket) × Steps (after_read r) t
          × (t.bucket ≡ w n s.bucket)
          × (t.held i ≡ some r)

    -- The steps that end with the write of the attempt
    abbrev HasCommitted : Type 0
    HasCommitted =
        (t : System S.Bucket) × (text : Str) × (log : List Commit) × Steps s t
        × (t.bucket ≡ b')
        × (t.log ≡ record { writer = i; round = n; text = text } ∷ log)

    -- An attempt that returns success is such a read and such a write, whatever steps others take
    -- between the two.
    pub attempt-Steps :
        Between
        → attempt S C others tool (mutate i) n s.bucket ≡ (b', returned (ok tt))
        → HasCommitted
    unfolding attempt
    attempt-Steps between h = go (found_or_new tool (get_index S C tool s.bucket)) refl h
      where
        go :
            (r : Result (Index × Str))
            → found_or_new tool (get_index S C tool s.bucket) ≡ r
            → write_back S C others tool (mutate i) n s.bucket r ≡ (b', returned (ok tt))
            → HasCommitted
        go (err e) q k = absurd (failed_read S s3 C tool others (mutate i) n s.bucket b' e k)
        go (ok (idx, etag)) q k =
            let (changed, m, at_b, at_r) =
              write_back_ok S s3 C tool others (mutate i) n s.bucket b' idx etag (mutate i n idx)
                refl k in
            let (text, encoded, put) =
              put_index_done S s3 C tool changed etag (w n s.bucket) b' at_b at_r in
            let (t, steps, same, held) = between (idx, etag) in
            (
              _,
              text,
              t.log,
              then_ (Steps-append (then_ here (reads i idx etag q)) steps) (
                  commits i n text etag b'
                    (record {
                      idx = idx;
                      changed = changed;
                      read = held;
                      change = m;
                      encoded = encoded;
                    })
                    (ap (λ b. S.put_object b (index_key tool) text (condition_of etag)) same
                      ∙ put)),
              refl,
              refl,
            )
