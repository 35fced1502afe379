-- ===== src/Update/Atomic.antt =====
-- updateIndex of cmd/s3reg/publish.go among other writers of the same index.
use s3_registry.Prelude.{ℕ, zero, suc, ◌≡◌, refl, ap, ◌∙◌, false, some, arith}
use s3_registry.Text.{Str, ◌==◌}
use s3_registry.Result.{Error, Result, ok, err}
use s3_registry.Index.{Index}
use s3_registry.Store.{
  Service, Codec, done, Condition, index_key, get_index, put_index, condition_of,
}
use s3_registry.Store.Laws.{Stored, S3, index_in}
use s3_registry.Update.Reading.{ReadFrom, read_from, unchanged, put_index_done}
use s3_registry.Update.{
  Others, Attempt, returned, conflict, found_or_new, settle, write_back, attempt, attempts,
  next_round, update_index, max_attempts,
}

-- The write that an update ended with: the state of the service right before it, the index that the
-- bucket then held, and the changed index.
pub record Committed (S : Service) (s3 : S3 S) (C : Codec) (tool : Str)
    (mutate : ℕ → Index → Result Index) (final : S.Bucket) : Type 0 where
  pub round : ℕ
  pub at_write : S.Bucket
  pub old : Index
  pub changed : Index
  pub text : Str
  pub condition : Condition
  pub was : index_in C tool (s3.content at_write (index_key tool)) ≡ ok old
  pub change : mutate round old ≡ ok changed
  pub encoded : C.marshal changed ≡ some text
  pub write : S.put_object at_write (index_key tool) text condition ≡ (final, done tt)
  pub stored : (o : Stored) × (s3.content final (index_key tool) ≡ some o) × (o.body ≡ text)
  pub rest : (j : Str) → index_key tool == j ≡ false → s3.content final j ≡ s3.content at_write j

module _ (S : Service) (s3 : S3 S) (C : Codec) (tool : Str) where
  module _ (others : Others S.Bucket) (mutate : ℕ → Index → Result Index) where
    settle_ok : (r : Result (Unit {0})) → settle r ≡ returned (ok tt) → r ≡ ok tt
    unfolding settle
    settle_ok r h = ground arith

    pub write_back_ok :
        (n : ℕ) (b b' : S.Bucket) (idx : Index) (etag : Str) (m : Result Index)
        → mutate n idx ≡ m
        → write_back S C others tool mutate n b (ok (idx, etag)) ≡ (b', returned (ok tt))
        → (idx' : Index) × (m ≡ ok idx')
          × ((put_index S C tool idx' etag (others.before_write n b)).0 ≡ b')
          × ((put_index S C tool idx' etag (others.before_write n b)).1 ≡ ok tt)
    unfolding write_back
    write_back_ok n b b' idx etag (err e) q h = absurd (ground (arith, q))
    write_back_ok n b b' idx etag (ok idx') q h =
        let h' = rw (q, write_back) at h in
        (
          idx',
          refl,
          ap (λ (x : S.Bucket × Attempt). x.0) h',
          settle_ok _ (ap (λ (x : S.Bucket × Attempt). x.1) h'),
        )

    pub failed_read :
        (n : ℕ) (b b' : S.Bucket) (e : Error)
        → ¬ (write_back S C others tool mutate n b (err e) ≡ (b', returned (ok tt)))
    unfolding write_back
    failed_read n b b' e h = ground arith

    read_of :
        (n : ℕ) (b : S.Bucket) (idx : Index) (etag : Str)
        → found_or_new tool (get_index S C tool (others.before_read n b)) ≡ ok (idx, etag)
        → ReadFrom S s3 C tool (others.before_read n b) idx etag
    unfolding get_index
    read_of n b idx etag q =
        read_from S s3 C tool (others.before_read n b)
          (S.get_object (others.before_read n b) (index_key tool)) idx etag refl q

    -- An attempt that returns success has committed, on what others left before its write.
    abbrev pub CommittedAt : ℕ → S.Bucket → S.Bucket → Type 0
    CommittedAt n b b' =
        (c : Committed S s3 C tool mutate b') × (c.at_write
          ≡ others.before_write n (others.before_read n b))

    pub attempt-Committed_at :
        (n : ℕ) (b b' : S.Bucket)
        → attempt S C others tool mutate n b ≡ (b', returned (ok tt))
        → CommittedAt n b b'
    unfolding attempt
    attempt-Committed_at n b b' h =
        go (found_or_new tool (get_index S C tool (others.before_read n b))) refl h
      where
        go :
            (r : Result (Index × Str))
            → found_or_new tool (get_index S C tool (others.before_read n b)) ≡ r
            → write_back S C others tool mutate n (others.before_read n b) r
              ≡ (b', returned (ok tt))
            → CommittedAt n b b'
        go (err e) q k = absurd (failed_read n _ b' e k)
        go (ok (idx, etag)) q k =
            let (idx', m, at_b, at_r) = write_back_ok n _ b' idx etag (mutate n idx) refl k in
            let w = others.before_write n (others.before_read n b) in
            let (text, encoded, write) = put_index_done S s3 C tool idx' etag w b' at_b at_r in
            let (holds, stored, rest) =
              s3.put_done w (index_key tool) text (condition_of etag) b' write in
            (
              record {
                round = n;
                at_write = w;
                old = idx;
                changed = idx';
                text = text;
                condition = condition_of etag;
                was =
                    unchanged S s3 C tool (others.before_read n b) w idx etag
                      (read_of n b idx etag q) holds;
                change = m;
                encoded = encoded;
                write = write;
                stored = stored;
                rest = rest;
              },
              refl,
            )

    next_round-Committed :
        (n : ℕ) (b b' : S.Bucket) (f : S.Bucket → S.Bucket × Result (Unit {0}))
        (x : S.Bucket × Attempt)
        → attempt S C others tool mutate n b ≡ x
        → ((c : S.Bucket) → f c ≡ (b', ok tt) → Committed S s3 C tool mutate b')
        → next_round f x ≡ (b', ok tt)
        → Committed S s3 C tool mutate b'
    unfolding next_round
    next_round-Committed n b b' f (c, returned r) q ih h =
        (attempt-Committed_at n b b'
          (q ∙ ap (λ (y : S.Bucket × Result (Unit {0})). (y.0, returned y.1)) h)).0
    next_round-Committed n b b' f (c, conflict) q ih h = ih c h

    attempts-Committed :
        (left n : ℕ) (b b' : S.Bucket)
        → attempts S C others tool mutate left n b ≡ (b', ok tt)
        → Committed S s3 C tool mutate b'
    unfolding attempts
    attempts-Committed zero n b b' h = absurd (ground arith)
    attempts-Committed (suc left) n b b' h =
        next_round-Committed n b b' (attempts S C others tool mutate left (suc n)) _ refl
          (λ c k. attempts-Committed left (suc n) c b' k) h

    -- Whatever others do meanwhile, a successful updateIndex ended with one write to the index: its
    -- text is the change applied to the index that the bucket held at that moment, which a new
    -- index stands for where there was none, and no other object changed by it.
    pub update_index-Committed :
        (b b' : S.Bucket)
        → update_index S C others tool mutate b ≡ (b', ok tt)
        → Committed S s3 C tool mutate b'
    unfolding update_index
    update_index-Committed b b' h = attempts-Committed max_attempts 0 b b' h
