-- ===== src/Server/Flights/Logged.antt =====
-- What holds of the cache of internal/server after any steps, and of the answers that it gave.
use mathlib.Core.List.{Memᴰ}
use mathlib.Core.List.Memᴰ
use s3_registry.Prelude.{
  ◌≡◌, refl, sym, subst, ap, ◌∙◌, true, none, some, List, ◌∷◌, arith, ◌⊎◌, inl, inr, Option,
}
use s3_registry.Prelude.Int.{ltb_ℤ}
use s3_registry.Text.{Str}
use s3_registry.Dict.{lookup}
use s3_registry.Instant.{Instant, Duration, sub}
use s3_registry.Result.{Result, ok}
use s3_registry.Semver.{Library, IsLawful}
use s3_registry.Index.{Index}
use s3_registry.Server.{CacheEntry, fresh}
use s3_registry.Server.Flights.{
  Read, Run, Answered, State, complete, Step, reads, completes, hits, shares, Reach, start, next,
  IsFrom, IsAnswer,
}
use s3_registry.Server.Flights.Fetching.{fetch-IsReadAs, fetch-lookup}

module _ (L : Library) (law : IsLawful L) (ttl : Duration) where
  -- A run that stored the entry.
  record IsStored (runs : List Run) (tool : Str) (e : CacheEntry) : Type 0 where
    run : Run
    logged : Memᴰ run runs
    same_tool : run.tool ≡ tool
    same_time : run.stored ≡ e.fetched_at
    same_result : run.result ≡ ok e.idx

  record Inv (s : State) : Type 0 where
    entries_stored :
        (tool : Str) (e : CacheEntry) → lookup tool s.entries ≡ some e → IsStored s.runs tool e
    runs_read : (r : Run) → Memᴰ r s.runs → IsFrom L s.reads r.tool r.result
    answers_run : (a : Answered) → Memᴰ a s.answers → IsAnswer L ttl s.reads s.runs a

  later_read :
      (rs : List Read) (r : Read) (tool : Str) (x : Result Index)
      → IsFrom L rs tool x
      → IsFrom L (r ∷ rs) tool x
  later_read rs r tool x f = record {
    read = f.read;
    logged = Memᴰ.tail f.logged;
    same_tool = f.same_tool;
    read_as = f.read_as;
  }

  later_read-IsAnswer :
      (rs : List Read) (qs : List Run) (r : Read) (a : Answered)
      → IsAnswer L ttl rs qs a
      → IsAnswer L ttl (r ∷ rs) qs a
  later_read-IsAnswer rs qs r a h = record {
    run = h.run;
    logged = h.logged;
    same_tool = h.same_tool;
    same_result = h.same_result;
    in_time = h.in_time;
    from_read = later_read rs r a.tool a.result h.from_read;
  }

  later_run-IsAnswer :
      (rs : List Read) (qs : List Run) (q : Run) (a : Answered)
      → IsAnswer L ttl rs qs a
      → IsAnswer L ttl rs (q ∷ qs) a
  later_run-IsAnswer rs qs q a h = record {
    run = h.run;
    logged = Memᴰ.tail h.logged;
    same_tool = h.same_tool;
    same_result = h.same_result;
    in_time = h.in_time;
    from_read = h.from_read;
  }

  later_run_entry :
      (qs : List Run) (q : Run) (tool : Str) (e : CacheEntry)
      → IsStored qs tool e
      → IsStored (q ∷ qs) tool e
  later_run_entry qs q tool e h = record {
    run = h.run;
    logged = Memᴰ.tail h.logged;
    same_tool = h.same_tool;
    same_time = h.same_time;
    same_result = h.same_result;
  }

  -- An answer by a run that is logged.
  by_run :
      (s : State) (r : Run) (a : Answered)
      → Inv s
      → Memᴰ r s.runs
      → r.tool ≡ a.tool
      → r.result ≡ a.result
      → (a.shared ≡ true) ⊎ (ltb_ℤ (sub a.now r.stored) ttl ≡ true)
      → IsAnswer L ttl s.reads s.runs a
  by_run s r a i m t e in_time = record {
    run = r;
    logged = m;
    same_tool = t;
    same_result = e;
    in_time = in_time;
    from_read =
        subst (λ x. IsFrom L s.reads x a.result) t
          (subst (λ x. IsFrom L s.reads r.tool x) e (i.runs_read r m));
  }

  fresh-stored :
      (now : Instant) (o : Option CacheEntry) (idx : Index)
      → fresh ttl now o ≡ some idx
      → (e : CacheEntry) × (o ≡ some e) × (e.idx ≡ idx) × (ltb_ℤ (sub now e.fetched_at) ttl ≡ true)
  unfolding fresh
  fresh-stored now none idx h = absurd (cc)
  fresh-stored now (some e) idx h = (e, refl, ground arith, ground arith)

  answered :
      (s : State) (a : Answered)
      → Inv s
      → IsAnswer L ttl s.reads s.runs a
      → Inv (record s { answers = a ∷ s.answers })
  answered s a i h = record {
    entries_stored = i.entries_stored;
    runs_read = i.runs_read;
    answers_run = λ b m. elim (Memᴰ.cases_cons m) [
      | inl e ↦ subst (IsAnswer L ttl s.reads s.runs) (sym e) h
      | inr n ↦ i.answers_run b n
    ];
  }

  completed :
      (s : State) (r : Read) (stored : Instant)
      → Memᴰ r s.reads
      → Inv s
      → Inv (complete L ttl r stored s)
  unfolding complete
  completed s r stored m i = record {
    entries_stored = λ tool e l.
        elim (fetch-lookup L law r.tool r.upstream stored s.entries tool e l) [
          | inl old ↦ later_run_entry s.runs _ tool e (i.entries_stored tool e old)
          | inr (t, at, y) ↦ record {
            run = _;
            logged = Memᴰ.head refl;
            same_tool = t;
            same_time = at;
            same_result = y;
          }
        ];
    runs_read = λ q n. elim (Memᴰ.cases_cons n) [
      | inl y ↦
          subst (λ (q : Run). IsFrom L s.reads q.tool q.result) (sym y)
            (record {
              read = r;
              logged = m;
              same_tool = refl;
              read_as = fetch-IsReadAs L law r.tool r.upstream stored s.entries;
            })
      | inr n' ↦ i.runs_read q n'
    ];
    answers_run = λ a n. later_run-IsAnswer s.reads s.runs _ a (i.answers_run a n);
  }

  Step-Inv : {s t : State} → Step L ttl s t → Inv s → Inv t
  Step-Inv {s} (reads r) i = record {
    entries_stored = i.entries_stored;
    runs_read = λ q m. later_read s.reads r q.tool q.result (i.runs_read q m);
    answers_run = λ a m. later_read-IsAnswer s.reads s.runs r a (i.answers_run a m);
  }
  Step-Inv {s} (completes r stored m) i = completed s r stored m i
  Step-Inv {s} (hits tool now idx f) i =
      let (e, l, same, in_time) = fresh-stored now (lookup tool s.entries) idx f in
      let st = i.entries_stored tool e l in
      answered s _ i (
        by_run s st.run _ i st.logged st.same_tool (st.same_result ∙ ap ok same)
          (inr (rw st.same_time in_time)))
  Step-Inv {s} (shares now r m) i = answered s _ i (by_run s r _ i m refl refl (inl refl))

  Reach-Inv : {s : State} → Reach L ttl s → Inv s
  Reach-Inv start = record {
    entries_stored = λ tool e h. absurd (unfold lookup in (cc));
    runs_read = λ r m. absurd (Memᴰ.not-nil m);
    answers_run = λ a m. absurd (Memᴰ.not-nil m);
  }
  Reach-Inv (next r st) = Step-Inv st (Reach-Inv r)

  -- With a version library as documented, however requests, reads and runs are interleaved, what the
  -- cache returns for a tool is what a run for that tool returned, which ended within the time to live
  -- before or which singleflight shares: the sorted form, with its name, of an index that GetIndex
  -- returned for that tool, or the error that it returned.
  pub Reach-IsAnswer :
      {s : State}
      → Reach L ttl s
      → (a : Answered) → Memᴰ a s.answers
      → IsAnswer L ttl s.reads s.runs a
  Reach-IsAnswer r = (Reach-Inv r).answers_run
