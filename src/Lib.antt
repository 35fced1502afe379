-- ===== src/Lib.antt =====
-- s3reg, a registry of versioned tool artifacts in an S3 bucket: the HTTP server, the command line and
-- the packages below them. Every tool has an index.json object in the bucket, which names for each
-- version and each os-arch the object, its digest and its size. Publishers change the index by a
-- conditional write; the server reads it through a cache, resolves a range of versions on it and
-- answers with a presigned URL.
--
-- Modules, with the code they model:
--
-- - Semver: internal/semver/semver.go. `sort_ascending` and `resolve` over a record `Library` of the
--   functions of Masterminds/semver and package sort that they call; `IsLawful` states what the
--   documentation of those promises. Children: Order, Sorting, Walk, Highest.
-- - Index: internal/index/index.go. `Index`, `Version` and `Artifact` as records, a map from an os-arch as
--   an association list (Dict), a nil map as `none`; one definition for each method, and definitions
--   for the loops of SortVersions. An index out of range and a nil dereference are the error `panic`.
--   `now` is what time.Now returns. View, Merging, Folding, Collecting, Distinct, Placing, Dropping and
--   Kept hold the lemmas; Sorted, Upsert, Shadowed, Removal, Remove, Resolution and Made the operations'
--   theorems.
-- - Store: internal/store/store.go. The S3 API is a record `Service` whose `Bucket` is all that it
--   remembers; encoding/json at an index is a record `Codec`. Store/Laws has what is relied on: an
--   ETag stands for one content, and a conditional write goes through only if its condition holds then.
--   Listing has the loops over pages, on fuel for the calls, and Paging why enough fuel is given; Client
--   has New and PresignGet over a record `Sdk` of the AWS SDK.
-- - Update: updateIndex of cmd/s3reg/publish.go. `Others` is what other writers do to the bucket before
--   each read and each write, and before each upload and each deletion around the update; `Spares` in Relied
--   says which objects they then leave, and a finding what rm loses where they do not. `mutate` takes the number of the attempt, since its clock moves on.
--   Its five rounds are the fuel of `attempts`. Children: Reading, Atomic, Relied, Progress. Interleaved has the read and
--   the write of an attempt as steps of any number of writers, Interleaved/Attempts that an attempt of
--   the code is such steps, and Interleaved/History what they leave.
-- - Registry: the commands together, as changes of a map from a version and an os-arch to an artifact;
--   Registry/Replay relates the bucket to it, and Registry/Download what the server answers.
--   Registry/Sound is about the objects too: a bucket where all that the index names is as it says. Its
--   children are Entries and Moved (lemmas), Pending and Publishing, Deleting and Removing, Reindexing,
--   Verifying, and History, in which publish, rm and reindex run one after the other.
-- - Dist: internal/store/dist.go. boundedIndex runs on fuel, two more rounds than the text has bytes;
--   each round starts after the last, so that is enough. A map literal is a list of pairs, whose order
--   stands for the one that `range` takes. ParseChecksums works on all that its reader yields, with the
--   buffer of bufio.Scanner as a bound on the lines. Children: Bounded, Permuted, Order, Span, Lines,
--   Checksums.
-- - Publish: the rest of cmd/s3reg/publish.go. `Machine` is the parameter for files, package filepath and
--   SHA-256; a file may differ between its digest and its upload (`reopen`). `stage_publish` yields what is uploaded, `upload_and_index` uploads it and changes the
--   index. Children: Staging, Upload, Change.
-- - Reindex: cmd/s3reg/reindex.go: `parse_artifact_key`, `rebuild` from the listed objects to the sorted
--   index, `write_rounds`, and `run_reindex` of these, on fuel for the pages of the listing. Children:
--   Keys, Times, Objects, Rebuilt, Overwriting, Run.
-- - Verify: cmd/s3reg/verify.go, and hashObject of reindex.go. Child: Matching.
-- - Rm: cmd/s3reg/rm.go. Children: Deletion, and Removed with what a success did.
-- - Ls: cmd/s3reg/ls.go, the tools or the rows of the table. Children: Table, Printed.
-- - Cli: cmd/s3reg/main.go, the flags and their defaults from the environment. Commands has the commands
--   with their flags (newPublishCmd and so on), over a parameter for what cobra parses, and Main a
--   process from its arguments to its exit code. Children with theorems: Opening, Main/Soundness, whose
--   conditions stand in Main/Relying.
-- - Serve: cmd/s3reg/serve.go, the configuration of the server and the end of the process. Lifetime has
--   the states that the server passes through, one request at a time.
-- - Health: internal/health/health.go. What probes return, whether deadlines passed, and the clock are
--   arguments; an answer is a code and a body. Children: Readiness, Summary; Probing has the goroutines of
--   probeStatus, and Requests the requests of Status as steps, with Requests/Answering and
--   Requests/Reports. BuildInfo is internal/buildinfo/buildinfo.go.
-- - Server: internal/server (server.go, cache.go, operations.go). `passes` is the bearer check,
--   `cache_get` one request to the cache with what GetIndex returns, and the operations take the
--   result of the cache. Flights has the same cache under requests that interleave: the function that
--   Get gives to singleflight is split where GetIndex returns. Routes and Serving put a request through
--   the bearer check, the router and the operations: `Mux` is chi's matching, `World` what the store,
--   the clock and huma's decoding give to one request. Children with theorems: Auth, Cached, Answers,
--   Flights/Logged, Guarded, Replies.
-- - Prelude, Text, Dict, Result, Instant: shared helpers, texts as lists of bytes with what is used of
--   package strings (Text/Unicode, whose parameter is the text that is not ASCII) and sort.Strings
--   (Text/Sorting), Go maps, errors, and the times that the program uses, in nanoseconds on natural
--   numbers.
-- - Tests: a small version library, a codec and a bucket in memory that meet the laws above, and the
--   theorems at concrete inputs.
--
-- Not modelled: what other writers do while reindex lists and hashes objects, what the commands print and the columns of the table of ls, logging, the start of a
-- container for tests, and third-party code: chi's matching, huma's decoding and its own routes,
-- singleflight beyond that its results are those of a run for the same key, net/http and the signals.
-- The JSON form of an index is a parameter, and so is whether the deadline of a probe has passed.
pub mod Prelude
pub mod Text
pub mod Dict
pub mod Result
pub mod Semver
pub mod Instant
pub mod Index
pub mod Store
pub mod Update
pub mod Dist
pub mod Publish
pub mod Reindex
pub mod Verify
pub mod Rm
pub mod Ls
pub mod Registry
pub mod Cli
pub mod Serve
pub mod BuildInfo
pub mod Health
pub mod Server
pub mod Tests
