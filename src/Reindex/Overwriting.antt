-- ===== src/Reindex/Overwriting.antt =====
-- The writing loop of reindex.go among other writers of the index.
use s3_registry.Prelude.{ℕ, zero, suc, ◌≡◌, refl, sym, ap, ◌∙◌, some, arith}
use s3_registry.Text.{Str}
use s3_registry.Result.{Result, ok, err}
use s3_registry.Index.{Index}
use s3_registry.Store.{Service, Codec, index_key}
use s3_registry.Store.Laws.{Stored, S3}
use s3_registry.Update.{
  Others, Attempt, returned, conflict, update_index, attempt, attempts, next_round, write_back,
  max_attempts,
}
use s3_registry.Update.Atomic.{Committed, update_index-Committed}
use s3_registry.Reindex.{rewrite, write_round, write_rounds}

module _ (S : Service) (C : Codec) (others : Others S.Bucket) (tool : Str) (rebuilt : Index) where
  -- The change that forgets the index it is given.
  abbrev pub replace : ℕ → Index → Result Index
  replace n i = ok rebuilt

  rewrite_lem :
      (n : ℕ) (b : S.Bucket) (r : Result (Index × Str))
      → rewrite S C others tool rebuilt n b r ≡ write_back S C others tool replace n b r
  unfolding write_back
  rewrite_lem n b (err e) = refl
  rewrite_lem n b (ok (idx, etag)) = refl

  write_round_lem :
      (n : ℕ) (b : S.Bucket)
      → write_round S C others tool rebuilt n b ≡ attempt S C others tool replace n b
  unfolding write_round attempt
  write_round_lem n b = rewrite_lem n (others.before_read n b) _

  next_round_same :
      (f g : S.Bucket → S.Bucket × Result (Unit {0})) (x : S.Bucket × Attempt)
      → ((c : S.Bucket) → f c ≡ g c)
      → next_round f x ≡ next_round g x
  unfolding next_round
  next_round_same f g (c, returned r) h = refl
  next_round_same f g (c, conflict) h = h c

  pub write_rounds_lem :
      (left n : ℕ) (b : S.Bucket)
      → write_rounds S C others tool rebuilt left n b ≡ attempts S C others tool replace left n b
  unfolding write_rounds attempts next_round
  write_rounds_lem zero n b = refl
  write_rounds_lem (suc left) n b =
      next_round_same (write_rounds S C others tool rebuilt left (suc n))
        (attempts S C others tool replace left (suc n)) (write_round S C others tool rebuilt n b)
        (write_rounds_lem left (suc n))
      ∙ ap (next_round (attempts S C others tool replace left (suc n))) (write_round_lem n b)

  -- A successful writing loop of reindex ends with one atomic write that replaces the index that the
  -- bucket held at that moment, whoever wrote it, by the one built before the loop.
  pub write_rounds-replaces :
      (s3 : S3 S) (b b' : S.Bucket)
      → write_rounds S C others tool rebuilt max_attempts 0 b ≡ (b', ok tt)
      → (text : Str) × (o : Stored) × (C.marshal rebuilt ≡ some text)
        × (s3.content b' (index_key tool) ≡ some o)
        × (o.body ≡ text)
        × Committed S s3 C tool replace b'
  unfolding update_index
  write_rounds-replaces s3 b b' h =
      let c : Committed S s3 C tool replace b' =
        update_index-Committed S s3 C tool others replace b b'
          (sym (write_rounds_lem max_attempts 0 b) ∙ h) in
      (c.text, c.stored.0, ground (arith, c.change, c.encoded), c.stored.1, c.stored.2, c)
