-- ===== src/Update/Reading.antt =====
-- How updateIndex of cmd/s3reg/publish.go reads an index and the condition that it writes with.
use s3_registry.Prelude.{
  ◌≡◌, refl, sym, ap, subst, ◌∙◌, false, Option, none, some, [], ◌⊎◌, inl, inr, Option-cases,
  Bool-cases, arith,
}
use s3_registry.Text.{Str, ◌==◌, eq_refl}
use s3_registry.Result.{ok}
use s3_registry.Index.{Index, new}
use s3_registry.Store.{
  Service, Codec, GetOutput, Api, done, failed, if_match, if_none_match, load, is_no_such_key,
  index_key, read_index, get_index, put_index, condition_of, put_answer,
}
use s3_registry.Store.Laws.{Stored, S3, Holds, index_in}
use s3_registry.Update.{found_or_new}

answer_done :
    {B : Type 0} (x : B × Api (Unit {0})) (b' : B)
    → x.0 ≡ b'
    → put_answer x.1 ≡ ok tt
    → x ≡ (b', done tt)
answer_done (b, done u) b' h k = ground arith
answer_done (b, failed e) b' h k = ground arith

pub none_read : (etag : Str) → etag ≡ [] → condition_of etag ≡ if_none_match
unfolding condition_of
none_read etag e = rw (e, eq_refl)

pub some_read : (etag e : Str) → etag ≡ e → e == [] ≡ false → condition_of etag ≡ if_match e
unfolding condition_of
some_read etag e q n = rw (q, n)

module _ (S : Service) (s3 : S3 S) (C : Codec) (tool : Str) where
  -- What was read, with the ETag that stands for it.
  abbrev pub ReadFrom : S.Bucket → Index → Str → Type 0
  ReadFrom b idx etag =
      ((s3.content b (index_key tool) ≡ none) × (etag ≡ []) × (idx ≡ new tool))
      ⊎ ((o : Stored) × (s3.content b (index_key tool) ≡ some o)
          × (etag ≡ o.etag)
          × (load C o.body ≡ ok idx))

  pub read_from :
      (b : S.Bucket) (r : Api GetOutput) (idx : Index) (etag : Str)
      → S.get_object b (index_key tool) ≡ r
      → found_or_new tool (read_index S C r) ≡ ok (idx, etag)
      → ReadFrom b idx etag
  unfolding read_index found_or_new load
  read_from b (failed e) idx etag g h = elim (Bool-cases (is_no_such_key e)) [
    | inl y ↦ inl (s3.get_missing b (index_key tool) e g y, ground arith, ground arith)
    | inr n ↦ absurd (ground arith)
  ]
  read_from b (done out) idx etag g h = elim (Option-cases out.body) [
    | inl q ↦ absurd (ground arith)
    | inr (s, q) ↦
        let (o, held, tag, same) = s3.get_done b (index_key tool) out g in
        inr (o, held, ground (arith, q, tag), ground (arith, q, same s q))
  ]

  -- What is read as an index is the index that the bucket holds.
  pub index_in-get_index :
      (b : S.Bucket) (raw : Index) (etag : Str)
      → get_index S C tool b ≡ ok (raw, etag)
      → index_in C tool (s3.content b (index_key tool)) ≡ ok raw
  unfolding get_index found_or_new
  index_in-get_index b raw etag h =
      elim (read_from b (S.get_object b (index_key tool)) raw etag refl (rw h refl)) [
        | inl (gone, _, new') ↦ ap (index_in C tool) gone ∙ ap ok (sym new')
        | inr (o, held, _, loaded) ↦ ap (index_in C tool) held ∙ loaded
      ]

  same_body :
      (b w : S.Bucket) (o : Stored) (c : Option Stored) (idx : Index)
      → s3.content b (index_key tool) ≡ some o
      → load C o.body ≡ ok idx
      → s3.content w (index_key tool) ≡ c
      → Holds (if_match o.etag) c
      → index_in C tool c ≡ ok idx
  same_body b w o none idx held l e h = absurd h
  same_body b w o (some p) idx held l e h =
      ap (load C) (s3.etag_body w b (index_key tool) p o e held h) ∙ l

  -- The condition of the write holds only if the bucket still has the index that was read.
  pub unchanged :
      (b w : S.Bucket) (idx : Index) (etag : Str)
      → ReadFrom b idx etag
      → Holds (condition_of etag) (s3.content w (index_key tool))
      → index_in C tool (s3.content w (index_key tool)) ≡ ok idx
  unchanged b w idx etag (inl (gone, e, i)) h =
      ap (index_in C tool)
        (subst (λ c. Holds c (s3.content w (index_key tool))) (none_read etag e) h)
      ∙ ap ok (sym i)
  unchanged b w idx etag (inr (o, held, e, l)) h = same_body b w o _ idx held l refl (
      subst (λ c. Holds c (s3.content w (index_key tool)))
        (some_read etag o.etag e (s3.etag_nonempty b (index_key tool) o held)) h)

  pub put_index_done :
      (idx : Index) (etag : Str) (w b' : S.Bucket)
      → (put_index S C tool idx etag w).0 ≡ b'
      → (put_index S C tool idx etag w).1 ≡ ok tt
      → (text : Str) × (C.marshal idx ≡ some text)
        × (S.put_object w (index_key tool) text (condition_of etag) ≡ (b', done tt))
  unfolding put_index
  put_index_done idx etag w b' h k = elim (Option-cases (C.marshal idx)) [
    | inl q ↦ absurd (ground (arith, q))
    | inr (text, q) ↦ (text, q, answer_done _ b' (ground (arith, q)) (ground (arith, q)))
  ]
