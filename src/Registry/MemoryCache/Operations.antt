-- ===== src/Registry/MemoryCache/Operations.antt =====
-- The methods of the cache, over the parts in the parent module.
use cogment.Prelude.{
  ℕ, ◌+◌, ◌%◌, String, true, false, Option, none, some, List, [], ◌==◌, if◌then◌else◌, length,
  string_key,
}
use cogment.Registry.Types.{
  ℤ, negsuc, uint_mod, ModelInfo, VersionInfo, VersionArgs, Error, unknown_model_version,
  unknown_model, failure, Result, ok, err, M, ◌>>=◌, pure, Backend,
}
use cogment.Registry.MemoryCache.{
  CachedVersion, LruCache, State, delete_model_versions, delete_latest, update_latest, resolve_each,
  resolve_one, on_archive,
}

-- `VersionInfo{}` and `ModelInfo{}`
abbrev pub no_version : VersionInfo
no_version = record {
  model_id = "";
  version_number = 0;
  creation_timestamp = 0;
  archived = false;
  data_hash = "";
  data_size = 0;
  user_data = [];
}

-- What a version that is not sent to the archive is known as.
abbrev pub transient_info : String → VersionArgs → VersionInfo
transient_info id args = record {
  model_id = id;
  version_number = args.version_number;
  creation_timestamp = args.creation_timestamp;
  archived = args.archived;
  data_hash = args.data_hash;
  data_size = length args.bytes;
  user_data = args.user_data;
}

-- What is cached of a created version.
abbrev pub created_version : VersionInfo → List ℕ → CachedVersion
created_version info bytes = record {
  model_id = info.model_id;
  version_number = info.version_number;
  creation_timestamp = info.creation_timestamp;
  archived = info.archived;
  data_hash = info.data_hash;
  bytes = bytes;
  user_data = info.user_data;
}

-- What is cached of a version read from the archive: the code takes its model and its number from
-- the empty version that the cache gave.
abbrev pub fetched_version : VersionInfo → List ℕ → CachedVersion
fetched_version info bytes = record {
  model_id = "";
  version_number = 0;
  creation_timestamp = info.creation_timestamp;
  archived = info.archived;
  data_hash = info.data_hash;
  bytes = bytes;
  user_data = info.user_data;
}

abbrev pub cached_info : String → ℕ → CachedVersion → VersionInfo
cached_info id number version = record {
  model_id = id;
  version_number = number;
  creation_timestamp = version.creation_timestamp;
  archived = version.archived;
  data_hash = version.data_hash;
  data_size = length version.bytes;
  user_data = version.user_data;
}

-- An error that names the resolved number names the number that was asked for instead.
abbrev pub with_number : {S A : Type 0} → String → ℤ → Result A × S → Result A × S
with_number id number (ok a, s) = (ok a, s)
with_number id number (err (unknown_model_version m n), s) =
    (err (unknown_model_version id number), s)
with_number id number (err (unknown_model m), s) = (err (unknown_model m), s)
with_number id number (err (failure e), s) = (err (failure e), s)

module _ {S C : Type 0} (ar : Backend S) (lru : LruCache C) where
  unfoldable pub update_cached_model_version : String → ℕ → CachedVersion → State S C → State S C
  update_cached_model_version id number version st = record st {
    version_cache = lru.add (id, number) version st.version_cache;
  }

  unfoldable pub retrieve_cached_model_version :
      String → ℕ → State S C → Option CachedVersion × State S C
  retrieve_cached_model_version id number st =
      let found = lru.get (id, number) st.version_cache in
      (found.0, record st { version_cache = found.1 })

  unfoldable pub delete_cached_model_version : String → ℕ → State S C → State S C
  delete_cached_model_version id number st = record st {
    version_cache = lru.remove (id, number) st.version_cache;
  }

  abbrev created_model : (ModelInfo × Option Error) × S → State S C → Result ModelInfo × State S C
  created_model ((info, none), archive) st = (ok info, record st { archive = archive })
  created_model ((info, some e), archive) st = (
    err e,
    delete_model_versions ar lru info.model_id
        (delete_latest ar lru info.model_id (λ latest. true) (record st { archive = archive })),
  )

  unfoldable pub create_or_update_model : ModelInfo → M (State S C) ModelInfo
  unfolding delete_latest delete_model_versions
  create_or_update_model args st = created_model (ar.create_or_update_model args st.archive) st

  unfoldable pub retrieve_model_latest_version_number : String → M (State S C) ℕ
  unfolding update_latest
  retrieve_model_latest_version_number id =
      on_archive (ar.retrieve_model_latest_version_number id) >>= λ number st.
      (ok number, (update_latest ar lru id number st).1)

  unfoldable pub delete_model : String → M (State S C) (Unit {0})
  unfolding delete_latest delete_model_versions
  delete_model id = on_archive (ar.delete_model id) >>= λ done st.
      (ok tt, delete_model_versions ar lru id (delete_latest ar lru id (λ latest. true) st))

  -- The created version enters the cache, and may be the latest one.
  unfoldable pub cache_created : String → List ℕ → VersionInfo → M (State S C) VersionInfo
  unfolding update_latest update_cached_model_version
  cache_created id bytes info st = (
    ok info,
    (update_latest ar lru id info.version_number
        (update_cached_model_version id info.version_number (created_version info bytes) st)).1,
  )

  unfoldable pub choose_version_number : String → ℕ → M (State S C) ℕ
  unfolding resolve_each
  choose_version_number id number =
      if number == 0
      then (resolve_one ar lru id (negsuc 0) >>= λ latest. pure ((latest + 1) % uint_mod))
      else pure number

  -- An archived version is given to the archive, and any other stays in the cache alone.
  unfoldable pub store_version : String → VersionArgs → M (State S C) VersionInfo
  store_version id args =
      if args.archived
      then on_archive (ar.create_or_update_model_version id args)
      else pure (transient_info id args)

  unfoldable pub create_or_update_model_version : String → VersionArgs → M (State S C) VersionInfo
  unfolding choose_version_number store_version cache_created
  create_or_update_model_version id asked = do
    number ← choose_version_number id asked.version_number
    let args = record asked { version_number = number }
    info ← store_version id args
    cache_created id args.bytes info
