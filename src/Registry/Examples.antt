-- ===== src/Registry/Examples.antt =====
-- The theorems on the model registry at concrete inputs, over a small archive: a list of versions.
use cogment.Prelude.{
  ℕ, ◌+◌, ◌-◌, ◌≡◌, refl, String, true, false, Option, none, some, List, [], ◌∷◌, ◌==◌, ltb,
  if◌then◌else◌, length, string_key, arith,
}
use cogment.Prelude.Dict.{Dict, lookup, insert, delete, keys}
use cogment.Registry.Types.{
  ℤ, pos, negsuc, uint_mod, VersionInfo, VersionArgs, Error, unknown_model_version, unknown_model,
  failure, Result, ok, err, M, pure, raise, Backend,
}
use cogment.Registry.MemoryCache.{
  CachedVersion, CacheKey, same_key, State, latest_cached, nth_to_last, find_latest, resolve_each,
  update_latest, delete_latest, delete_model_versions, remove_model_keys,
}
use cogment.Registry.MemoryCache.Operations.{
  transient_info, choose_version_number, store_version, cache_created,
  create_or_update_model_version, update_cached_model_version, retrieve_cached_model_version,
  delete_model, delete_cached_model_version,
}
use cogment.Registry.MemoryCache.Versions.{
  retrieve_model_version_info, retrieve_model_version_data, delete_model_version,
  do_delete_model_version,
}
use cogment.Registry.MemoryCache.Numbers.{nth_to_last_bounds}
use cogment.Registry.MemoryCache.Lru.{take, cache_key, bounded_lru, bounded_lru-IsLru}
use cogment.Registry.MemoryCache.RoundTrip.{create-retrieve}
use cogment.Registry.MemoryCache.Forgetting.{
  outdated, delete_model_version-peek, CacheKept, create-CacheKept,
}
use cogment.Registry.MemoryCache.Transparency.{
  IsReadable, IsCoherent, Transparent, retrieve_data-Transparent,
}

abbrev pub Archive : Type 0
Archive = Dict CacheKey (List ℕ)

-- The information of a version of the small archive.
abbrev pub info_of : String → ℕ → List ℕ → VersionInfo
info_of id n bytes = record {
  model_id = id;
  version_number = n;
  creation_timestamp = 5;
  archived = true;
  data_hash = "";
  data_size = length bytes;
  user_data = [];
}

abbrev pub answer : {A : Type 0} → Error → (List ℕ → A) → Option (List ℕ) → Result A
answer e f none = err e
answer e f (some bytes) = ok (f bytes)

abbrev pub read_info : String → ℤ → M Archive VersionInfo
read_info id (pos n) s =
    (answer (unknown_model_version id (pos n)) (info_of id n) (lookup (id, n) s), s)
read_info id (negsuc i) s = (err (unknown_model_version id (negsuc i)), s)

abbrev pub read_data : String → ℤ → M Archive (List ℕ)
read_data id (pos n) s =
    (answer (unknown_model_version id (pos n)) (λ bytes. bytes) (lookup (id, n) s), s)
read_data id (negsuc i) s = (err (unknown_model_version id (negsuc i)), s)

abbrev pub small_archive : Backend Archive
small_archive = record {
  create_or_update_model = λ info s. ((info, none), s);
  retrieve_model_info = λ id. raise (unknown_model id);
  retrieve_model_latest_version_number = λ id s. (ok (latest_cached id 0 (keys s)), s);
  has_model = λ id. pure true;
  delete_model = λ id s. (ok tt, []);
  list_models = λ offset limit. pure [];
  create_or_update_model_version = λ id args. raise (failure "read only");
  retrieve_model_last_version_info = λ id. raise (unknown_model id);
  retrieve_model_version_info = read_info;
  retrieve_model_version_data = read_data;
  delete_model_version = λ id n. pure tt;
  list_model_version_infos = λ id n limit. pure [];
}

small_archive-IsReadable : IsReadable small_archive
small_archive-IsReadable = record {
  data_keeps = λ id n s. data_lem id n s;
  info_keeps = λ id n s. info_lem id n s;
  info_numbered = λ id n s t info positive h. numbered id n s t info h;
}
  where
    data_lem : (id : String) (n : ℤ) (s : Archive) → (read_data id n s).1 ≡ s
    data_lem id (pos n) s = refl
    data_lem id (negsuc i) s = refl

    info_lem : (id : String) (n : ℤ) (s : Archive) → (read_info id n s).1 ≡ s
    info_lem id (pos n) s = refl
    info_lem id (negsuc i) s = refl

    numbered :
        (id : String) (n : ℕ) (s t : Archive) (info : VersionInfo)
        → read_info id (pos n) s ≡ (ok info, t)
        → info.version_number ≡ n
    numbered id n s t info h = ground (arith, h)

abbrev pub Cache : Type 0
Cache = Dict CacheKey CachedVersion

abbrev pub two_models : State Archive Cache
two_models = record {
  archive = (("m", 1), 7 ∷ []) ∷ (("m", 3), 8 ∷ 9 ∷ []) ∷ [];
  models_latest_version_number = [];
  version_cache = [];
}

abbrev pub draft : VersionArgs
draft = record {
  version_number = 0;
  creation_timestamp = 12;
  archived = false;
  data_hash = "hash";
  bytes = 4 ∷ 2 ∷ [];
  user_data = [];
}

unfoldable pub program : Unit {0}
unfolding lookup insert delete keys latest_cached nth_to_last find_latest resolve_each update_latest
    delete_latest delete_model_versions remove_model_keys choose_version_number store_version
    cache_created create_or_update_model_version update_cached_model_version
    retrieve_cached_model_version delete_model delete_cached_model_version
    retrieve_model_version_info retrieve_model_version_data delete_model_version
    do_delete_model_version take bounded_lru
program = tt

nth_to_last_bounds_example :
    nth_to_last 3 4 ≡ (if ltb 4 3 then 3 - 4 else if 4 == 3 + 1 then uint_mod - 1 else 0)
nth_to_last_bounds_example = nth_to_last_bounds 3 4 (omega arith) (omega arith)

abbrev drafted : State Archive Cache
unfolding program
drafted = (create_or_update_model_version small_archive (bounded_lru 9) "m" draft two_models).1

abbrev draft_info : VersionInfo
draft_info = record (transient_info "m" draft) { version_number = 4 }

create-retrieve_example :
    (st'' : State Archive Cache) × (st''.archive ≡ drafted.archive)
    × (retrieve_model_version_data small_archive (bounded_lru 9) "m" (pos 4) drafted
        ≡ (ok (4 ∷ 2 ∷ []), st''))
    × (retrieve_model_version_info small_archive (bounded_lru 9) "m" (pos 4) drafted
        ≡ (ok (record draft_info { model_id = "m"; data_size = length draft.bytes }), st''))
unfolding program drafted
create-retrieve_example =
    create-retrieve small_archive (bounded_lru 9) (bounded_lru-IsLru 9) "m" draft draft_info
      two_models drafted refl (omega arith)

delete_model_version-peek_example :
    ((delete_model_version small_archive (bounded_lru 9) "m" (pos 4) two_models).0 ≡ ok tt)
    × (lookup
          ("m", 4)
          (delete_model_version small_archive
            (bounded_lru 9)
            "m"
            (pos 4)
            two_models).1.version_cache
        ≡ (if same_key ("m", 4) ("m", 4) then none else lookup ("m", 4) two_models.version_cache))
    × (lookup "m"
          (delete_model_version small_archive
            (bounded_lru 9)
            "m"
            (pos 4)
            two_models).1.models_latest_version_number
        ≡ outdated 4 (lookup "m" two_models.models_latest_version_number))
delete_model_version-peek_example =
    delete_model_version-peek small_archive (bounded_lru 9) (bounded_lru-IsLru 9) "m" 4 "m" 4
      two_models

abbrev refused_draft : VersionArgs
refused_draft = record draft { archived = true }

create-CacheKept_example : CacheKept two_models two_models
unfolding program
create-CacheKept_example =
    create-CacheKept small_archive (bounded_lru 9) "m" refused_draft (failure "read only")
      two_models two_models refl

nothing_cached : IsCoherent small_archive lookup two_models.archive two_models.version_cache
unfolding lookup
nothing_cached = λ m k version there. absurd (ground (arith, there))

retrieve_data-Transparent_example :
    Transparent small_archive lookup "m" 3 two_models
      (retrieve_model_version_data small_archive (bounded_lru 9) "m" (pos 3) two_models)
retrieve_data-Transparent_example =
    retrieve_data-Transparent small_archive (bounded_lru 9) small_archive-IsReadable
      (bounded_lru-IsLru 9) "m" 3 two_models nothing_cached (omega arith) (omega arith)
