-- ===== src/Errors.antt =====
-- The exceptions that the modelled modules raise, by class: the built-in ones, and those that
-- uploads.py, content_cache.py, library.py and immich.py declare.
use immich_on_demand.Prelude.{Bool, true, false}
use immich_on_demand.Prelude.Exec.{Result}

pub data Exception : Type 0 where
  -- built in; `no_space` is OSError with ENOSPC
  value_error permission_error file_not_found file_exists no_space : Exception
  -- uploads.py: UploadStateError is a subclass of UploadQueueError
  queue_error state_error : Exception
  -- content_cache.py: the other four are subclasses of CacheError
  cache_error integrity_error busy_error capacity_error downloads_disabled : Exception
  -- library.py
  library_error : Exception
  -- immich.py: the other three are subclasses of ImmichError
  immich_error immich_response immich_unavailable immich_retryable : Exception
  -- service.py; `local_error` stands for any exception that none of the modules declares
  preview_suppression local_error : Exception

-- `except UploadQueueError`
abbrev pub is_queue_error : Exception → Bool
is_queue_error queue_error = true
is_queue_error state_error = true
is_queue_error _ = false

abbrev pub Fallible : Type 0 → Type 0
Fallible A = Result Exception A
