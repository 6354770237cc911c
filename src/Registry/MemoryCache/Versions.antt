-- ===== src/Registry/MemoryCache/Versions.antt =====
-- The methods of the cache that read, delete and list versions, and the cache as a backend.
use cogment.Prelude.{
  ℕ, zero, suc, ◌+◌, ◌-◌, String, Bool, false, Option, none, some, List, [], ◌∷◌, ◌==◌, ltb, leb,
  ◌&&◌, ◌++◌, if◌then◌else◌, length, string_key,
}
use cogment.Registry.Types.{
  ℤ, pos, negsuc, to_int, ModelInfo, VersionInfo, Error, unknown_model_version, unknown_model,
  failure, Result, ok, err, M, ◌>>=◌, pure, raise, proceed, Backend,
}
use cogment.Registry.MemoryCache.{
  CachedVersion, LruCache, State, delete_latest, update_latest, resolve_each, resolve_one,
  resolve_model_version_numbers, on_archive,
}
use cogment.Registry.MemoryCache.Operations.{
  no_version, fetched_version, cached_info, with_number, update_cached_model_version,
  retrieve_cached_model_version, delete_cached_model_version, create_or_update_model,
  retrieve_model_latest_version_number, delete_model, create_or_update_model_version,
}

-- `limit > 0 && count >= limit`
abbrev pub is_full : ℤ → ℕ → Bool
is_full (pos n) count = ltb 0 n && leb n count
is_full (negsuc n) count = false

-- A model beside its error; `ModelInfo{}` where there is one.
abbrev beside_error : {S : Type 0} → Result ModelInfo × S → (ModelInfo × Option Error) × S
beside_error (ok info, s) = ((info, none), s)
beside_error (err e, s) = ((record { model_id = ""; user_data = [] }, some e), s)

module _ {S C : Type 0} (ar : Backend S) (lru : LruCache C) where
  -- The data is returned whether or not the information could be read, which only then is cached.
  abbrev cache_fetched :
      String → List ℕ → Result VersionInfo × State S C → Result (List ℕ) × State S C
  cache_fetched id bytes (err e, st) = (ok bytes, st)
  cache_fetched id bytes (ok info, st) = (
    ok bytes,
    (update_latest ar lru id info.version_number (
        update_cached_model_version ar lru id info.version_number (fetched_version info bytes)
          st)).1,
  )

  abbrev retrieve_data_after :
      String → ℕ → Option CachedVersion × State S C → Result (List ℕ) × State S C
  retrieve_data_after id number (some version, st) = (ok version.bytes, st)
  retrieve_data_after id number (none, st) =
      proceed (on_archive (ar.retrieve_model_version_data id (to_int number)) st) (λ bytes st'.
        cache_fetched id bytes (on_archive (ar.retrieve_model_version_info id (to_int number)) st'))

  unfoldable pub do_retrieve_model_version_data : String → ℕ → M (State S C) (List ℕ)
  unfolding retrieve_cached_model_version update_latest update_cached_model_version
  do_retrieve_model_version_data id number st =
      retrieve_data_after id number (retrieve_cached_model_version ar lru id number st)

  unfoldable pub retrieve_model_version_data : String → ℤ → M (State S C) (List ℕ)
  unfolding resolve_each do_retrieve_model_version_data
  retrieve_model_version_data id number = resolve_one ar lru id number >>= λ resolved.
      if resolved == 0
      then raise (unknown_model_version id number)
      else do_retrieve_model_version_data id resolved

  abbrev retrieve_info_after :
      String → ℕ → Option CachedVersion × State S C → Result VersionInfo × State S C
  retrieve_info_after id number (some version, st) = (ok (cached_info id number version), st)
  retrieve_info_after id number (none, st) =
      proceed (on_archive (ar.retrieve_model_version_info id (to_int number)) st)
        (λ info st'. (ok info, (update_latest ar lru id info.version_number st').1))

  unfoldable pub do_retrieve_model_version_info : String → ℕ → M (State S C) VersionInfo
  unfolding retrieve_cached_model_version update_latest
  do_retrieve_model_version_info id number st =
      retrieve_info_after id number (retrieve_cached_model_version ar lru id number st)

  unfoldable pub retrieve_model_last_version_info : String → M (State S C) VersionInfo
  unfolding resolve_each do_retrieve_model_version_info
  retrieve_model_last_version_info id = resolve_one ar lru id (negsuc 0) >>= λ resolved.
      if resolved == 0 then pure no_version else λ st.
      with_number id (negsuc 0) (do_retrieve_model_version_info id resolved st)

  unfoldable pub retrieve_model_version_info : String → ℤ → M (State S C) VersionInfo
  unfolding resolve_each do_retrieve_model_version_info
  retrieve_model_version_info id number = resolve_one ar lru id number >>= λ resolved.
      if resolved == 0 then raise (unknown_model_version id number) else λ st.
      with_number id number (do_retrieve_model_version_info id resolved st)

  -- An error of the archive is ignored. The latest number is forgotten when it may have become wrong.
  unfoldable pub do_delete_model_version : String → ℕ → M (State S C) (Unit {0})
  unfolding delete_latest delete_cached_model_version
  do_delete_model_version id number st = (
    ok tt,
    delete_latest ar lru id (λ latest. leb latest number)
        (delete_cached_model_version ar lru id number
          (on_archive (ar.delete_model_version id (to_int number)) st).1),
  )

  unfoldable pub delete_model_version : String → ℤ → M (State S C) (Unit {0})
  unfolding resolve_each do_delete_model_version
  delete_model_version id number =
      resolve_one ar lru id number >>= λ resolved. do_delete_model_version id resolved

  -- One round of the loop of `ListModelVersionInfos`, given what was read for its number: the loop
  -- goes on, with or without the version, or it returns.
  abbrev list_round :
      ℤ
      → Result VersionInfo × State S C
      → List VersionInfo
      → (List VersionInfo → M (State S C) (List VersionInfo))
      → Result (List VersionInfo) × State S C
  list_round limit (err (unknown_model_version m n), st) versions go_on = go_on versions st
  list_round limit (err (unknown_model m), st) versions go_on = (err (unknown_model m), st)
  list_round limit (err (failure e), st) versions go_on = (err (failure e), st)
  list_round limit (ok info, st) versions go_on =
      if is_full limit (length (versions ++ info ∷ []))
      then (ok (versions ++ info ∷ []), st)
      else go_on (versions ++ info ∷ []) st

  -- The loop from `number` on, for as many rounds as numbers are left up to the latest one.
  unfoldable pub list_from :
      String → ℤ → ℕ → ℕ → List VersionInfo → M (State S C) (List VersionInfo)
  unfolding retrieve_model_version_info
  list_from id limit zero number versions st = (ok versions, st)
  list_from id limit (suc rounds) number versions st =
      list_round limit (retrieve_model_version_info id (to_int number) st) versions
        (λ versions'. list_from id limit rounds (number + 1) versions')

  abbrev list_resolved : String → ℤ → List ℕ → M (State S C) (List VersionInfo)
  list_resolved id limit (initial ∷ latest ∷ ns) =
      list_from id limit (latest + 1 - initial) initial []
  list_resolved id limit ns = pure []

  unfoldable pub list_model_version_infos : String → ℕ → ℤ → M (State S C) (List VersionInfo)
  unfolding resolve_each list_from
  list_model_version_infos id initial limit =
      resolve_model_version_numbers ar lru id
        (to_int (if initial == 0 then 1 else initial) ∷ negsuc 0 ∷ [])
      >>= list_resolved id limit

  -- The cache is a backend itself.
  abbrev pub memory_cache : Backend (State S C)
  memory_cache = record {
    create_or_update_model = λ info st. beside_error (create_or_update_model ar lru info st);
    retrieve_model_info = λ id. on_archive (ar.retrieve_model_info id);
    retrieve_model_latest_version_number = retrieve_model_latest_version_number ar lru;
    has_model = λ id. on_archive (ar.has_model id);
    delete_model = delete_model ar lru;
    list_models = λ offset limit. on_archive (ar.list_models offset limit);
    create_or_update_model_version = create_or_update_model_version ar lru;
    retrieve_model_last_version_info = retrieve_model_last_version_info;
    retrieve_model_version_info = retrieve_model_version_info;
    retrieve_model_version_data = retrieve_model_version_data;
    delete_model_version = delete_model_version;
    list_model_version_infos = list_model_version_infos;
  }
