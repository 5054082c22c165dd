-- ===== src/Lib.antt =====
-- Immich On-Demand shows the photos of an Immich server as files, keeps originals that were opened in a
-- cache, and uploads the files that a user writes. Modelled here are the upload queue, the worker that
-- carries its jobs to the server, the guarded changes of the library, the cache, and the file names
-- that both the server's and the user's files get.
--
-- Upload queue (src/immich_on_demand/uploads.py, class `UploadQueue`), in Uploads and below:
--   Manifest, Validate: `_Manifest`, its enums and `_validate_manifest`, one predicate per block of
--     checks. Host holds what the standard library decides: `urlsplit`, `uuid.UUID`, NFC, SHA-1, the
--     size of a manifest's JSON text and the user.
--   Disk: the queue's directory, which is a directory per job with manifest and payload, and the
--     markers of removals; `_open_job`, `_open_payload`, `_read_manifest`, `_write_manifest`.
--   Payload: the bytes of a payload, `pwrite`, `ftruncate`, and the loop that hashes them.
--   Draft: `begin`, `write`, `truncate`, `seal`, `block_writing`. Attempt: `_begin_attempt` and
--     `open_local`. Queue: the other changes of a manifest. Listing: `status`, `list`, `next_due`. Cleanup: `_cleanup_job`, `cancel`,
--     `remove`, and the recovery at the start.
--   Machine: the edges of a job's state machine; Machine.Calls runs the sections that the lock
--     serializes, so that a list of calls is an interleaving of callers.
-- Upload worker (src/immich_on_demand/service.py, `_process_upload`), in Service and below:
--   World: what the task acts on. The other tasks, the catalog and the server are functions of the time
--     (Outside), so that each may answer anything and the queue may change before each call of it. The
--     log notes what the task reads and sends; it is no part of the program.
--   Checks, Albums: the comparisons of a job with the server's assets, and the retry delay.
--   Upload: the handler, cut where it branches: Attempt is its first half up to the upload, Candidate
--     what follows, Process the `except` and `else` clauses. The variable `current` is a field of World.
--   Upload.Admission says what an admitted attempt has done to the queue, and
--   Upload.Safety what may follow what in the log, and its children prove that it is so.
--   Paging: the control request `list_uploads`, and a client of it.
--   Refresh: `_replacement_refresh_policy`, over any catalog (Growing, Round: one round of its loop).
--   Delay: `_next_upload_delay`; the division to float seconds is an argument.
-- Library (src/immich_on_demand/library.py), in Library: the mutation session, `remote_trash` and
--   `remote_restore` over the operations of any catalog.
-- Content cache (src/immich_on_demand/content_cache.py, class `ContentCache`), in Cache and below:
--   Cache: the directory beside the attributes of the object; pins, open counts, discards, `evict`.
--   Handles: sequences of these calls.
--   Space: `_complete_entries`, `_reserve` and `evict_to_limits`. Download: `_download`. Hydration:
--     `_cached_path`, `_touch`, `hydrate`, `describe`. Reading: `read`, `transfer_pin`,
--     `_clean_stale_downloads`.
-- File names (src/immich_on_demand/model.py): `safe_filename` and `collision_name`, in Model.Names. The
--   queue's validation uses them. Model.Asset holds the asset record and the catalog's entry,
--   Model.Api `Asset.from_api` on decoded JSON.
-- Prelude holds what the parts share: texts as lists of code points, dictionaries, signed integers, and
-- methods that raise with the state they leave; Errors lists the exceptions.
--
-- A method is a function from the state to a result or an exception, and the state it leaves, which
-- stays changed when it raises. Python's integers are unbounded, so they are natural numbers, or signed
-- ones where the code lets them be negative; a difference that may be negative is compared by sums. The
-- loop that hashes a payload runs on fuel, one round per byte of the file and one more, and always ends
-- within it; so does the printing of an ordinal, with as many rounds as its value, and the client of the pages, with
-- one request for each job and one more. A call of `hydrate` waits for as many hydrations of other tasks as
-- its environment lists; a wait beyond them is cancelled.
--
-- Not modelled: the text of JSON and HTTP messages, failures of the disk other than those the code
-- names, the modes given to new files, and the threads themselves. The temporary manifest of a write and
-- the temporary file of a download are not seen by other callers. While a download runs, no other task
-- changes the cache in the model; while a file is hashed, others may. A cancellation of the upload task
-- by the task group is not modelled, nor are the catalog lock, since the catalog may answer anything at
-- any time, and the descriptor that the client reads the payload from. The rest of the service, the
-- catalog, the client, the file system, the settings and the user interface are not modelled: they call
-- these parts, or speak to SQLite, FUSE, HTTP and GTK.
pub mod Prelude
pub mod Errors
pub mod Model
pub mod Cache
pub mod Uploads
pub mod Library
pub mod Service
pub mod Tests
