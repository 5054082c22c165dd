-- ===== src/Library.antt =====
-- The guards of src/immich_on_demand/library.py on everything that changes the server: uploads, trash
-- and restore. The catalog and the client are given by their answers.
pub mod Trash
use immich_on_demand.Prelude.{Option, none, some, Bool, true, false, ◌&&◌, is_some}
use immich_on_demand.Prelude.Text.{Text}
use immich_on_demand.Prelude.Exec.{ok, err}
use immich_on_demand.Errors.{Fallible, library_error}

-- `ServerSession` of src/immich_on_demand/immich.py, as far as the library asks it.
pub record ServerSession : Type 0 where
  pub owner_id : Text
  pub trash_enabled : Bool

-- The two flags of `Settings` that permit changes and name the server.
pub record Settings : Type 0 where
  pub server_origin : Text
  pub remote_delete : Bool

-- `Library`, without the objects it only passes on.
pub record Library : Type 0 where
  pub settings : Settings
  pub has_client : Bool
  pub session : Option ServerSession

unfoldable pub mutation_enabled : Library → Bool
mutation_enabled library = library.has_client && is_some library.session

unfoldable pub replacement_enabled : Library → Bool
replacement_enabled library = mutation_enabled library && library.settings.remote_delete

-- `enable_mutations`
unfoldable pub enable_mutations : Library → ServerSession → Library
enable_mutations library session = record library { has_client = true; session = some session }

session_of : Bool → Option ServerSession → Fallible ServerSession
session_of true (some session) = ok session
session_of _ _ = err library_error

-- `_mutation_access`, and `upload_access`
unfoldable pub mutation_access : Library → Fallible ServerSession
unfolding session_of
mutation_access library = session_of library.has_client library.session
