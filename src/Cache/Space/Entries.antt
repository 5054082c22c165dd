-- ===== src/Cache/Space/Entries.antt =====
-- The entries of the directory, sorted and selected: no name twice, the same files, the same bytes.
use immich_on_demand.Prelude.{◌+◌, [], ◌∷◌, none, some, true, ◌≡◌, refl, arith, ◌∙◌, if◌then◌else◌}
use immich_on_demand.Prelude.Text.{Text, ◌=ₜ◌, =ₜ_iff}
use immich_on_demand.Prelude.Dict.{Dict, get, remove, get-remove}
use immich_on_demand.Cache.{CacheHost, CachedFile, file_size, ContentCache}
use immich_on_demand.Cache.Space.{
  is_entry, complete_entries, sum_sizes, insert_entry, sorted, only_evictable, is_evictable,
}

-- No key stands twice.
unfoldable pub Distinct : {V : Type 0} → Dict V → Type 0
Distinct [] = Unit
Distinct ((k, v) ∷ d) = (get d k ≡ none) × Distinct d

pub remove_absent : {V : Type 0} (d : Dict V) (k : Text) → get d k ≡ none → remove d k ≡ d
unfolding get remove
remove_absent [] k h = refl
remove_absent ((j, v) ∷ d) k h = ground (arith, remove_absent d k)

pub remove-Distinct : {V : Type 0} (d : Dict V) (k : Text) → Distinct d → Distinct (remove d k)
unfolding Distinct remove
remove-Distinct [] k h = tt
remove-Distinct ((j, v) ∷ d) k h = ground (arith, remove-Distinct d k h.1, get-remove d k j)

module _ (h : CacheHost) where
  pub complete_absent :
      (files : Dict CachedFile) (j : Text)
      → get files j ≡ none
      → get (complete_entries h files) j ≡ none
  unfolding get complete_entries
  complete_absent [] j e = refl
  complete_absent ((k, f) ∷ files) j e = ground (arith, complete_absent files j)

  pub complete-Distinct :
      (files : Dict CachedFile) → Distinct files → Distinct (complete_entries h files)
  unfolding Distinct complete_entries
  complete-Distinct [] d = tt
  complete-Distinct ((k, f) ∷ files) d =
      ground (arith, complete-Distinct files d.1, complete_absent files k)

  pub complete_found :
      (files : Dict CachedFile) (j : Text) (f : CachedFile)
      → Distinct files
      → get (complete_entries h files) j ≡ some f
      → (get files j ≡ some f) × (is_entry h j f ≡ true)
  unfolding get complete_entries Distinct
  complete_found [] j f d e = absurd cc
  complete_found ((k, g) ∷ files) j f d e =
      ground (arith, complete_found files j f d.1, complete_absent files j, =ₜ_iff k j)

  pub complete_of :
      (files : Dict CachedFile) (j : Text) (f : CachedFile)
      → get files j ≡ some f
      → is_entry h j f ≡ true
      → get (complete_entries h files) j ≡ some f
  unfolding get complete_entries
  complete_of [] j f e i = absurd cc
  complete_of ((k, g) ∷ files) j f e i = ground (arith, complete_of files j f, =ₜ_iff k j)

  -- Removing a complete original takes its bytes off the sum.
  pub sum-remove :
      (files : Dict CachedFile) (k : Text) (f : CachedFile)
      → Distinct files
      → get files k ≡ some f
      → is_entry h k f ≡ true
      → sum_sizes (complete_entries h (remove files k)) + file_size f
        ≡ sum_sizes (complete_entries h files)
  unfolding get remove complete_entries sum_sizes Distinct
  sum-remove [] k f d e i = absurd cc
  sum-remove ((j, g) ∷ files) k f d e i =
      ground (arith, sum-remove files k f d.1, remove_absent files k, =ₜ_iff j k)

module _ (k : Text) (v : CachedFile) where
  get-insert :
      (entries : Dict CachedFile) (j : Text)
      → get entries k ≡ none
      → get (insert_entry (k, v) entries) j ≡ (if k =ₜ j then some v else get entries j)
  unfolding get insert_entry
  get-insert [] j e = refl
  get-insert ((i, w) ∷ entries) j e =
      ground (arith, get-insert entries j, =ₜ_iff i k, =ₜ_iff i j, =ₜ_iff k j)

  insert-Distinct :
      (entries : Dict CachedFile)
      → Distinct entries
      → get entries k ≡ none
      → Distinct (insert_entry (k, v) entries)
  unfolding get insert_entry Distinct
  insert-Distinct [] d e = (refl, tt)
  insert-Distinct ((i, w) ∷ entries) d e =
      ground (arith, insert-Distinct entries d.1, get-insert entries i, =ₜ_iff i k, =ₜ_iff k i)

  sum-insert :
      (entries : Dict CachedFile)
      → sum_sizes (insert_entry (k, v) entries) ≡ file_size v + sum_sizes entries
  unfolding insert_entry sum_sizes
  sum-insert [] = refl
  sum-insert ((i, w) ∷ entries) = ground (arith, sum-insert entries)

-- A sorted list of entries is a rearrangement.
pub get-sorted :
    (entries : Dict CachedFile) (j : Text)
    → Distinct entries
    → get (sorted entries) j ≡ get entries j
unfolding get sorted Distinct
get-sorted [] j d = refl
get-sorted ((k, v) ∷ entries) j d =
    ground
      (arith, get-insert k v (sorted entries) j, get-sorted entries k d.1, get-sorted entries j d.1)

pub sorted-Distinct : (entries : Dict CachedFile) → Distinct entries → Distinct (sorted entries)
unfolding sorted Distinct
sorted-Distinct [] d = tt
sorted-Distinct ((k, v) ∷ entries) d =
    insert-Distinct k v (sorted entries) (sorted-Distinct entries d.1)
      (get-sorted entries k d.1 ∙ d.0)

pub sum-sorted : (entries : Dict CachedFile) → sum_sizes (sorted entries) ≡ sum_sizes entries
unfolding sorted sum_sizes
sum-sorted [] = refl
sum-sorted ((k, v) ∷ entries) = ground (arith, sum-insert k v (sorted entries), sum-sorted entries)

module _ (c : ContentCache) where
  evictable_absent :
      (entries : Dict CachedFile) (j : Text)
      → get entries j ≡ none
      → get (only_evictable c entries) j ≡ none
  unfolding get only_evictable
  evictable_absent [] j e = refl
  evictable_absent ((k, f) ∷ entries) j e = ground (arith, evictable_absent entries j)

  pub evictable-Distinct :
      (entries : Dict CachedFile) → Distinct entries → Distinct (only_evictable c entries)
  unfolding Distinct only_evictable
  evictable-Distinct [] d = tt
  evictable-Distinct ((k, f) ∷ entries) d =
      ground (arith, evictable-Distinct entries d.1, evictable_absent entries k)

  pub evictable_found :
      (entries : Dict CachedFile) (j : Text) (f : CachedFile)
      → Distinct entries
      → get (only_evictable c entries) j ≡ some f
      → (get entries j ≡ some f) × (is_evictable c j ≡ true)
  unfolding get only_evictable Distinct
  evictable_found [] j f d e = absurd cc
  evictable_found ((k, g) ∷ entries) j f d e =
      ground (arith, evictable_found entries j f d.1, evictable_absent entries j, =ₜ_iff k j)
