-- ===== src/Lib.antt =====
-- bit-bench: the logic of the web frontend, of its administration, and of the server behind it as
-- far as the two do the same work.
--
-- The frontend configures a benchmark of compressors, uploads the files, and shows the results.
-- Its upload page keeps a list of configured compressor instances, checks it, and submits the
-- files with it; its results pages list the benchmarks, rank the compressors, mark the
-- Pareto-optimal ones, compare benchmarks and export tables. The administration manages users,
-- groups and benchmarks. The server resolves the configured instances again, stores presets and
-- lists benchmarks. Files are named from frontend/src of the repository, those of the administration
-- and of the backend from its root.
--
-- - Options, Objects: the option schema of a compressor (CompressorOption in types/index.ts),
--   `defaultOptions` and `canonicalOptions` (lib/instances.ts), over JavaScript objects as
--   association lists in the order of insertion.
-- - Instances: the other functions of lib/instances.ts: `buildLabel`, `buildInvocation`,
--   `instanceIdentity`, `hasVariableOptions`, `canAddInstance` and `validateInstances`.
-- - Compressors: lib/compressors.ts: labels, display names, colours and shapes, with its tables.
-- - Platforms: lib/platforms.ts: normalized platforms and the warning about CPU emulation.
-- - Permissions: lib/presets.ts and lib/packages.ts: who may manage a preset or a package.
-- - Progress: lib/upload-progress.ts: the status of each file of an upload.
-- - Results, Detail: pages/DetailPage.tsx: `rankResults` and `computePareto` in Results; the
--   sections, the list of Pareto counts and the LaTeX table of a ranking in Detail.
-- - Picker, Editor, Presets: the configuration on pages/UploadPage.tsx: the compressors to choose
--   from; `addInstance`, `removeInstance`, `updateInstanceOption` and `applyInstances`; and presets,
--   the history and the configuration restored from the last time.
-- - Upload: `handleFileChange`, `removeFile`, `fileStatuses`, `fileListSummary`, `canSubmit` and
--   `handleSubmit` of pages/UploadPage.tsx. What each request meets is a parameter: the progress
--   events that `apiUploadWithProgress` (lib/api.ts) reports, and the message with which it rejects,
--   if it does.
-- - Listing, Selection: pages/ResultsPage.tsx: the pages of the list, the poll of active
--   benchmarks, and the benchmarks selected for comparison.
-- - Compare: pages/ComparePage.tsx: loading a comparison, the metrics shown, and the rows.
-- - Metrics: lib/metrics.ts, with lib/format.ts and lib/cpu.ts in Formats, and lib/options.ts with
--   `renderOptionField` of pages/UploadPage.tsx in Controls.
-- - Latex: lib/latex.ts, with the emphasis of cells, which Detail and Compare use.
-- - Packages: pages/CompressorsPage.tsx and components/EmulationNotice.tsx.
-- - Access: the routes (App.tsx), the login (pages/LoginPage.tsx) and the logout
--   (components/layout/AppLayout.tsx), over Api and Session.
-- - Admin: admin-frontend/src: the routes (App.tsx) in Routing, pages/BenchmarksPage.tsx in Admin
--   itself, and pages/UsersPage.tsx, pages/GroupsPage.tsx and pages/LoginPage.tsx in Users, Groups
--   and Login.
-- - Api: what `apiFetch`, `apiUpload` and `apiUploadWithProgress` of lib/api.ts make of a response.
--   The JSON parser is a parameter.
-- - Session: the claims of a token and what they allow (stores/auth-store.ts, and
--   admin-frontend/src/stores/auth-store.ts). Decoding a token is a parameter.
-- - Checksum: the chunk loop of lib/md5.ts. The incremental hash is a parameter.
-- - Backend: the server, in Go. Backend itself: `CanonicalizeOptions` of
--   backend/internal/compressor/instances.go; Naming: `BuildLabel`, `BuildInvocation` and
--   `WithUniqueLabel` there; Strings: `strings.TrimSpace` and `strings.ToLower` on UTF-8, where
--   the lower case of text beyond ASCII is a parameter; Hosts: platform.go beside it; Resolve:
--   `resolveInstances` of backend/internal/service/benchmark_service.go; Presets: `Create`,
--   `Update` and `Delete` of preset_service.go beside it, over the table of presets; Visible:
--   `List` there; History: `RecordHistory` and `ListHistory` there, over the table of used
--   configurations; Listing: the handler and the query of the list of benchmarks. The others hold
--   proofs: Wire what is exchanged as JSON; Coercion, Canonical, Plain, Sorting, Agreement,
--   Invocation, Labels and Duplicates the two sides compared; Acceptance the options that are
--   refused; Unique and Distinct the labels; Sharing, Updates, Sound, Stores, Names and Keys the
--   presets; the children of History the history; Rows and Pages the list; Packages the defaults
--   of user packages.
-- - Prelude: text, lists, sorting and numbers, which these share. Tests holds the cases of the
--   source's tests.
--
-- Names are those of the source in snake case. A string is the list of its UTF-16 units. A field
-- that may be missing or null is an option. The numbers of options and results are a parameter
-- with the laws that the code relies on (Options.Numeric, Results.Ordered): NaN and -0, which JSON
-- cannot carry, are left out. Their arithmetic and formatting (Metrics.Arithmetic) are a parameter
-- without laws. `Array.prototype.sort` is an insertion sort, which is stable, as the language
-- demands. The doubles in which the share of the bytes sent is computed are a parameter with the
-- rounding laws of IEEE 754 (Progress.Doubles). Every loop is structural on a list or a count, but
-- for the chunk loop of Checksum: it runs on as many rounds as the file has bytes and one more,
-- which is enough, since each chunk but the last is 2 MB. Redirects are followed at most twice,
-- which is enough. The server's search for a free label tries one number more than there are
-- labels, which is enough, since different numbers make different labels. A Go string is the list
-- of its bytes, of which a literal in ASCII is the list of its UTF-16 units too; the frontend's
-- `toLowerCase` and the database's `lower` change the letters of ASCII only. A Go map is an
-- association list in any order. The registry, the packages that the database finds, `json.Marshal`, the hash of a configuration,
-- and the times' format are parameters. A handler takes the answers to its requests as arguments:
-- what the user does to the page while one is under way is left out, and so is the request that
-- stores the configuration for next time, whose failure the code ignores.
--
-- Not modelled: rendering; the poll of the status page; the data of the charts of a single
-- benchmark; the clipboard and the local storage; answers that arrive out of order; the rest of
-- the backend (authentication, uploads, the queue of tasks, containers, failing queries), the
-- native benchmark and the scripts, which are in other languages; and the design scripts, a copy
-- of another project, which the program does not call.
pub mod Prelude
pub mod Objects
pub mod Options
pub mod Compressors
pub mod Instances
mod Tests
pub mod Platforms
pub mod Permissions
pub mod Progress
pub mod Results
pub mod Editor
pub mod Upload
pub mod Selection
pub mod Backend
pub mod Checksum
pub mod Api
pub mod Session
pub mod Latex
pub mod Listing
pub mod Picker
pub mod Presets
pub mod Admin
pub mod Metrics
pub mod Compare
pub mod Detail
pub mod Packages
pub mod Access
