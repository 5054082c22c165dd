-- ===== src/Service/World.antt =====
-- What a task of src/immich_on_demand/service.py acts on and what answers it. The answers depend on
-- the time, so that the server, the catalog and the other tasks may do anything in between.
use immich_on_demand.Prelude.{ℕ, suc, ℤ, List, ◌∷◌, Option, Bool, if◌then◌else◌, is_some}
use immich_on_demand.Prelude.Text.{Text, ◌=ₜ◌}
use immich_on_demand.Prelude.Exec.{Result, ok, err, Exec, guard, pure, ◌>>=◌, ◌>>◌}
use immich_on_demand.Errors.{Exception, Fallible, value_error, immich_response}
use immich_on_demand.Model.Asset.{Asset, CatalogAsset}
use immich_on_demand.Uploads.Manifest.{Host}
use immich_on_demand.Uploads.Disk.{Queue, Op}
use immich_on_demand.Uploads.Queue.{UploadStatus}
use immich_on_demand.Service.Checks.{Codec}

-- The other parts of the program and the server, by what they answer at each time. The server's
-- replies are as the client has decoded them; `meanwhile` is what other tasks do to the queue before
-- a call of it.
pub record Outside : Type 0 where
  pub codec : Codec
  pub now_ns : ℕ → ℤ
  pub meanwhile : ℕ → Queue → Queue
  pub asset_reply : ℕ → Text → Fallible Asset
  pub marker_reply : ℕ → Text → Fallible Text
  pub albums_reply : ℕ → Text → Fallible (List Text)
  pub upload_reply : ℕ → Text → Text → Option Asset → Fallible Text
  pub copy_reply : ℕ → Text → Text → Fallible (Unit {0})
  pub trash_reply : ℕ → Text → Fallible (Unit {0})
  pub by_id : ℕ → Text → Fallible (Option CatalogAsset)
  pub album_ids : ℕ → Text → Fallible (List Text)
  pub add_uploaded : ℕ → Asset → Text → Fallible CatalogAsset
  pub publish_replacement : ℕ → Text → Asset → Fallible CatalogAsset
  pub pinned_ids : ℕ → List Text
  pub on_uploaded : ℕ → CatalogAsset → Fallible (Unit {0})
  pub transfer_pin : ℕ → Text → Asset → Bool → Fallible (Unit {0})
  pub has_content_cache : Bool
  pub on_upload_finished : ℕ → Text → Fallible (Unit {0})

-- What the task has seen and done that the others can tell, the latest first. A request is noted
-- when it is sent, a reading when it has come back.
pub data Event : Type 0 where
  asset_read : Asset → Event
  marker_read : Text → Text → Event
  albums_read : Text → List Text → Event
  status_taken : UploadStatus → Event
  upload_sent : Text → Event
  copy_sent : Text → Text → Event
  trash_sent : Text → Event
  entry_added : Asset → Event
  replacement_published : Text → Asset → Event
  entry_resumed : CatalogAsset → Event
  announced : CatalogAsset → Event
  commit_called : Text → Event

-- `current` is the local variable of `_process_upload`.
pub record World : Type 0 where
  pub time : ℕ
  pub queue : Queue
  pub current : UploadStatus
  pub log : List Event

abbrev pub Act : Type 0 → Type 0
Act A = Exec Exception World A

abbrev pub ticked : World → World
ticked w = record w { time = suc w.time }

abbrev pub noted : World → Event → World
noted w event = record w { time = suc w.time; log = event ∷ w.log }

-- An answer is waited for.
unfoldable pub ask : {A : Type 0} → (ℕ → Fallible A) → Act A
ask reply w = (reply w.time, ticked w)

unfoldable pub note : Event → Act (Unit {0})
note event w = (ok tt, noted w event)

-- A request is sent, and its answer is waited for.
unfoldable pub send : {A : Type 0} → Event → (ℕ → Fallible A) → Act A
send event reply w = (reply w.time, noted w event)

-- What was read is noted.
unfoldable pub see : {A : Type 0} → (A → Event) → (ℕ → Fallible A) → Act A
unfolding ask note
see event reply = do a ← ask reply; note (event a); pure a

-- `_queue_call`
unfoldable pub queue_call : {A : Type 0} → Outside → Op A → Act A
queue_call e op w =
    let (r, q) = op (e.meanwhile w.time w.queue) in (r, record w { time = suc w.time; queue = q })

unfoldable pub take_status : UploadStatus → Act (Unit {0})
take_status m w = (ok tt, record w { current = m; log = status_taken m ∷ w.log })

-- `current = await _queue_call(…)`
unfoldable pub queue_status : Outside → Op UploadStatus → Act (Unit {0})
unfolding take_status
queue_status e op = do m ← queue_call e op; take_status m

abbrev pub recover : {A : Type 0} → Result Exception A → (Exception → Act A) → Act A
recover (ok a) handler w = (ok a, w)
recover (err x) handler w = handler x w

-- `try: … except Exception as error: …`
unfoldable pub catch : {A : Type 0} → Act A → (Exception → Act A) → Act A
catch m handler w = let (r, w') = m w in recover r handler w'

-- A task that reads the variable `current`.
unfoldable pub with_current : {A : Type 0} → (UploadStatus → Act A) → Act A
with_current f w = f w.current w

-- An answer about another asset is refused.
unfoldable pub same_id : Text → Fallible Asset → Fallible Asset
same_id asset_id (ok a) = if a.id =ₜ asset_id then ok a else err immich_response
same_id asset_id (err x) = err x

-- `ImmichClient.asset`
unfoldable pub read_asset : Host → Outside → Text → Act Asset
unfolding see
read_asset h e asset_id = do
  guard (is_some (h.uuid asset_id)) value_error
  see asset_read (λ t. same_id asset_id (e.asset_reply t asset_id))
