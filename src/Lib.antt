-- ===== src/Lib.antt =====
-- Moe_Assets_updater_NEXT keeps the assets of a game mirrored: it polls the versions of each region,
-- downloads the asset bundles that changed, exports their contents and uploads these to a server.
-- This library models the parts that decide what is transferred and that nothing is lost on the way.
--
--   Prelude: names of the libraries passed on; lists, byte strings, texts (lists of bytes),
--   association lists and i64.
--   Hip (src/core/hip/frame.rs, errors.rs): the frames of the upload protocol. `encode_frame` is
--   `Frame::encode`; `read_frame` and `write_frame` act on the list of bytes of the stream.
--   Hip.Upload, Hip.Session (src/core/hip/client.rs, with the messages of codec.rs in Hip.Codec): an
--   upload is the frames it sends and its result; a session is its tables of waiting requests, its
--   commit slot and what the writer took, changed by events in any order (`run`). A oneshot channel is
--   a ticket with a cell. The handshake, TLS and the heartbeats are left out.
--   Retry (src/core/retry.rs): `retry` stands for both `retry_async` and `retry_sync`; the operation is
--   a function on a state of the world, and the delays slept are recorded.
--   Payload (src/core/export_pipeline/implementation/payload.rs and the writer in
--   crates/assetstudio-ffi/src/native.rs): bundles of payloads, and raw RGBA images.
--   Payload.Claims (payload.rs): the paths that exported objects claim; the loop over candidates runs
--   on fuel, one step more than there are files and claims, which have that many paths at most.
--   Regions (src/core/regions.rs, config.rs): the patterns of a region's filters; what the regex crate
--   makes of a pattern is a parameter (`Regexes`).
--   Execution (src/core/asset_execution.rs): one execution of the updater for a region. Execution.Plan
--   is `build_download_tasks`; Execution.Run is the loop of `execute_with_filter` with its two sets of
--   tasks, the record it keeps and the saves of it, over what becomes of each download and
--   post-processing and the order in which they end (`Fate`); Execution.Execute is the whole function
--   around the loop. Execution.Prefetch, Obfuscation, Memory and Under are the prefetch and the tasks
--   of the 3D exporter, the headers of a bundle, the limit on bytes in flight, and where bundles are
--   stored as they came. The poller runs an execution; its `World` takes the result as given.
--   Snapshot (src/core/bundle_diff.rs): which bundles changed, the merge of committed bundles into the
--   snapshot, and its atomic write; a hash map is an association list in the order of its iteration.
--   Worker (crates/assetstudio-ffi/src/worker_pool.rs): `call` is `PooledWorker::call` over what the
--   pipes carry; Worker.Pool is the pool with its semaphore, its leases and the idle reaper, changed by
--   events in any order; a lease that a cancelled task drops is left out. The parts meet where one
--   uses another: a lease calls its worker.
--   Poller (src/service/poller.rs, watermark.rs): one poll of a region. Poller.Attempt is
--   `execute_once` with its retries and one attempt, over a `State` of snapshot file, watermarks and
--   acknowledged commits; what the network, the executor and the file system do in an attempt is its
--   `World`. It is composed of Poller.Uploader (`run_uploader` and the flushes, over the artefacts in
--   the order in which they arrive), Poller.Transfers (concurrent uploads under any schedule),
--   Poller.Artefacts (what a batch reports), Poller.Snapshots (the snapshot for the next diff),
--   Poller.Watermarks and Poller.Cleanup (removal of directories). Poller.Filters is the filter that
--   the executor applies to the planned downloads, which Attempt takes from its `World`. Panics of
--   the uploader stop it between two artefacts. Loading, merging and saving the snapshot file are the
--   operations of Snapshot.
--   ProcessTree (src/core/export_pipeline/implementation/limits.rs): the ticks of a process tree.
--   Config (src/core/config.rs): the tuning of the concurrency limits. Config.Overrides is
--   `apply_env_overrides` on the tree of a YAML document; Config.Overrides.Variables has the names of
--   the variables, in the order of a BTreeMap; how a value is read is a parameter. Config.References
--   is `expand_env_references`; the environment is a function.
--
-- Loops are structural recursion on the data or on the count that the source loops to. Some run on
-- fuel: the walk of the process tree, one step more than there are rows, since a row is pushed only
-- when its parent is first visited; the concurrent uploads and the chunks of the filter, one step for
-- each job or task, since every turn ends one at least; the references in a text, one round for each
-- character, which a round uses up; the loop of an execution, two steps for each
-- task, since every turn ends a download or a post-processing; the retries of a region, ten, since the
-- source stops at attempt ten. `usize` has 64 bits. Widths that the source truncates to are written out.
-- Encodings that other packages supply (msgpack, zstd, SHA-256) are parameters.
-- Not modelled: networking and TLS, HTTP, logging, telemetry, the native library and media encoders.
mod Prelude
pub mod Hip
pub mod Regions
pub mod Retry
pub mod Payload
pub mod Snapshot
pub mod Worker
pub mod Config
pub mod ProcessTree
pub mod Poller
pub mod Execution
