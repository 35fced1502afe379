-- ===== src/Store/Paging.antt =====
-- The loops of ListTools and ListObjects of internal/store over the pages that S3 returns.
use s3_registry.Prelude.{
  some-injective, map, ℕ, zero, suc, ◌≤◌, ◌≡◌, refl, sym, ap, ◌∙◌, ◌↔◌, true, false, Option, none,
  some, List, [], ◌∷◌, ◌++◌, append_assoc, append-nil, arith, inl, inr, Bool-cases, ◌⊎◌,
}
use s3_registry.Text.{Str, codes}
use s3_registry.Result.{Result, ok, err, service}
use s3_registry.Store.{Service, ApiError, Api, done, failed, ListOutput}
use s3_registry.Store.Listing.{
  is_more, tools_of, objects_of, Object, list_tools, list_objects, list_keys, keys_of,
}

-- The pages from a continuation token on: each but the last is truncated and names the token of
-- the next one. The last page is not, or the call after it fails.
pub data Pages (page : Option Str → Api ListOutput)
    : Option Str → List ListOutput → Option ApiError → Type 0 where
  last :
      {token : Option Str} (out : ListOutput)
      → page token ≡ done out
      → is_more out.is_truncated ≡ false
      → Pages page token (out ∷ []) none
  broken :
      {token : Option Str} (e : ApiError) → page token ≡ failed e → Pages page token [] (some e)
  more :
      {token : Option Str} {outs : List ListOutput} {end : Option ApiError} (out : ListOutput)
      → page token ≡ done out
      → is_more out.is_truncated ≡ true
      → Pages page out.next outs end
      → Pages page token (out ∷ outs) end

-- The calls that the pages take.
abbrev pub calls : List ListOutput → Option ApiError → ℕ
calls [] none = 0
calls [] (some _) = 1
calls (out ∷ outs) end = suc (calls outs end)

-- What the pages hold, in their order.
abbrev pub gather {ℓ} : {A : Type ℓ} → (ListOutput → List A) → List ListOutput → List A
gather f [] = []
gather f (out ∷ outs) = f out ++ gather f outs

-- All that the pages hold, or the error that ends them.
abbrev pub ending {ℓ} : {A : Type ℓ} → Option ApiError → List A → Result (List A)
ending none xs = ok xs
ending (some e) xs = err (service e.message)

Api-cases {ℓ} :
    {A : Type ℓ} (x : Api A) → ((a : A) × (x ≡ done a)) ⊎ ((e : ApiError) × (x ≡ failed e))
Api-cases (done a) = inl (a, refl)
Api-cases (failed e) = inr (e, refl)

module _ {ℓ} {A : Type ℓ} (page : Option Str → Api ListOutput) (f : ListOutput → List A) where
  -- The loop that the two operations share
  abbrev walk : ℕ → Option Str → List A → Option (Result (List A))
  walk zero token acc = none
  walk (suc fuel) token acc = elim (page token) [
    | failed e ↦ some (err (service e.message))
    | done out ↦ elim (is_more out.is_truncated) [
      | true ↦ walk fuel out.next (acc ++ f out)
      | false ↦ some (ok (acc ++ f out))
    ]
  ]

  walk-Pages :
      (fuel : ℕ) (acc : List A) {token : Option Str} {outs : List ListOutput}
      {end : Option ApiError}
      → Pages page token outs end
      → calls outs end ≤ fuel
      → walk fuel token acc ≡ some (ending end (acc ++ gather f outs))
  walk-Pages zero acc (last out e m) n = absurd (omega arith)
  walk-Pages zero acc (broken e p) n = absurd (omega arith)
  walk-Pages zero acc (more out e m p) n = absurd (omega arith)
  walk-Pages (suc fuel) acc (last out e m) n = rw (e, m, walk, append-nil) refl
  walk-Pages (suc fuel) acc (broken e p) n = rw (p, walk) refl
  walk-Pages (suc fuel) acc (more {outs = outs} {end = end} out e m p) n =
      rw (e, m, walk)
        (walk-Pages fuel (acc ++ f out) p (omega arith)
          ∙ ap (λ xs. some (ending end xs)) (append_assoc acc (f out) (gather f outs)))

  -- What a run that returns has read
  abbrev HasRead : ℕ → Option Str → List A → Result (List A) → Type ℓ
  HasRead fuel token acc r =
      (outs : List ListOutput) × (end : Option ApiError) × Pages page token outs end
      × (calls outs end ≤ fuel)
      × (r ≡ ending end (acc ++ gather f outs))

  Pages-walk :
      (fuel : ℕ) (token : Option Str) (acc : List A) (r : Result (List A))
      → walk fuel token acc ≡ some r
      → HasRead fuel token acc r
  Pages-walk zero token acc r h = absurd (cc)
  Pages-walk (suc fuel) token acc r h = elim (Api-cases (page token)) [
    | inl (out, e) ↦ elim (Bool-cases (is_more out.is_truncated)) [
      | inl m ↦
          let run : walk (suc fuel) token acc ≡ walk fuel out.next (acc ++ f out) =
            rw (e, m, walk) refl in
          let (outs, end, p, n, same) = Pages-walk fuel out.next (acc ++ f out) r (sym run ∙ h) in
          (
            out ∷ outs,
            end,
            more out e m p,
            omega arith,
            same ∙ ap (ending end) (append_assoc acc (f out) (gather f outs)),
          )
      | inr m ↦
          let run : walk (suc fuel) token acc ≡ some (ok (acc ++ f out)) = rw (e, m, walk) refl in
          (
            out ∷ [],
            none,
            last out e m,
            omega arith,
            some-injective _ _ (sym h ∙ run) ∙ ap (λ xs. ok (acc ++ xs)) (sym (append-nil (f out))),
          )
    ]
    | inr (e, p) ↦
        let run : walk (suc fuel) token acc ≡ some (err (service e.message)) = rw (p, walk) refl in
        ([], some e, broken e p, omega arith, some-injective _ _ (sym h ∙ run))
  ]

keys_ending :
    (end : Option ApiError) (objs : List Object)
    → some (keys_of (ending end objs)) ≡ some (ending end (map (λ (o : Object). o.key) objs))
keys_ending none objs = refl
keys_ending (some e) objs = refl

module _ (S : Service) (b : S.Bucket) where
  abbrev pub object_page : Str → Option Str → Api ListOutput
  object_page prefix token = S.list_objects b (some prefix) none token

  abbrev pub tool_page : Option Str → Api ListOutput
  tool_page token = S.list_objects b none (some (codes "/")) token

  list_objects-walk :
      (fuel : ℕ) (prefix : Str) (token : Option Str) (objs : List Object)
      → list_objects S fuel prefix token objs b
        ≡ walk (object_page prefix) (λ out. objects_of out.contents) fuel token objs
  unfolding list_objects
  list_objects-walk zero prefix token objs = refl
  list_objects-walk (suc fuel) prefix token objs = elim (Api-cases (object_page prefix token)) [
    | inl (out, e) ↦ elim (Bool-cases (is_more out.is_truncated)) [
      | inl m ↦ rw (e, m, list_objects, walk) (list_objects-walk fuel prefix out.next _)
      | inr m ↦ rw (e, m, list_objects, walk) refl
    ]
    | inr (e, p) ↦ rw (p, list_objects, walk) refl
  ]

  list_tools-walk :
      (fuel : ℕ) (token : Option Str) (tools : List Str)
      → list_tools S fuel token tools b
        ≡ walk tool_page (λ out. tools_of out.common_prefixes) fuel token tools
  unfolding list_tools
  list_tools-walk zero token tools = refl
  list_tools-walk (suc fuel) token tools = elim (Api-cases (tool_page token)) [
    | inl (out, e) ↦ elim (Bool-cases (is_more out.is_truncated)) [
      | inl m ↦ rw (e, m, list_tools, walk) (list_tools-walk fuel out.next _)
      | inr m ↦ rw (e, m, list_tools, walk) refl
    ]
    | inr (e, p) ↦ rw (p, list_tools, walk) refl
  ]

  -- Where the pages from the start end, ListObjects ends after as many calls as they take, and returns
  -- the objects of all of them in order, or the error of the call that failed; ListKeys returns the
  -- keys of these objects, or that error.
  pub list_objects-ends :
      (fuel : ℕ) (prefix : Str) {outs : List ListOutput} {end : Option ApiError}
      → Pages (object_page prefix) none outs end
      → calls outs end ≤ fuel
      → (list_objects S fuel prefix none [] b
          ≡ some (ending end (gather (λ out. objects_of out.contents) outs)))
        × (list_keys S fuel prefix b
            ≡ some (
                ending end
                  (map (λ (o : Object). o.key) (gather (λ out. objects_of out.contents) outs))))
  unfolding list_keys
  list_objects-ends fuel prefix {end = end} p n =
      let run = list_objects-walk fuel prefix none [] ∙ walk-Pages _ _ fuel [] p n in
      (run, rw run (keys_ending end _))

  -- ListTools returns a result within some number of calls exactly if the pages end within as many: the tools
  -- of all of them in order, or the error of the call that failed.
  pub list_tools-Pages :
      (fuel : ℕ) (r : Result (List Str))
      → (list_tools S fuel none [] b ≡ some r) ↔ (
          (outs : List ListOutput) × (end : Option ApiError) × Pages tool_page none outs end
          × (calls outs end ≤ fuel)
          × (r ≡ ending end (gather (λ out. tools_of out.common_prefixes) outs)))
  list_tools-Pages fuel r = (
    λ h. Pages-walk _ _ fuel none [] r (sym (list_tools-walk fuel none []) ∙ h),
    λ (outs, end, p, n, same).
        list_tools-walk fuel none [] ∙ walk-Pages _ _ fuel [] p n ∙ ap some (sym same),
  )
