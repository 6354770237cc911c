-- ===== src/Registry/MemoryCache/RoundTrip.antt =====
-- What was created can be read back through the cache.
use cogment.Prelude.{ℕ, ◌<◌, ◌≡◌, ◌∙◌, refl, ap, subst, String, Option, some, List, length}
use cogment.Registry.Types.{pos, VersionInfo, VersionArgs, ok, Backend}
use cogment.Registry.MemoryCache.{CachedVersion, CacheKey, LruCache, State, resolve_each}
use cogment.Registry.MemoryCache.Operations.{
  created_version, cached_info, choose_version_number, store_version, cache_created,
  create_or_update_model_version, update_cached_model_version, retrieve_cached_model_version,
}
use cogment.Registry.MemoryCache.Versions.{
  do_retrieve_model_version_data, retrieve_model_version_data, do_retrieve_model_version_info,
  retrieve_model_version_info,
}
use cogment.Registry.MemoryCache.Numbers.{neb_of_pos, retrieve_info_found}
use cogment.Registry.MemoryCache.Lru.{IsLru}
use cogment.Registry.MemoryCache.Parts.{proceed-eq-ok, ok-eq, update_latest_keeps}

module _ {S C : Type 0} (ar : Backend S) (lru : LruCache C)
    {peek : CacheKey → C → Option CachedVersion} (lawful : IsLru lru peek) (id : String) where
  cache_created-peek :
      (bytes : List ℕ) (made info : VersionInfo) (st st' : State S C)
      → cache_created ar lru id bytes made st ≡ (ok info, st')
      → peek (id, info.version_number) st'.version_cache ≡ some (created_version info bytes)
  unfolding cache_created
  cache_created-peek bytes made info st st' h =
      let (same, after) = ok-eq h in
      subst
        (λ t. peek (id, info.version_number) t.version_cache ≡ some (created_version info bytes))
        after
        (subst
          (λ i.
            peek (id, i.version_number) (cache_created ar lru id bytes made st).1.version_cache
            ≡ some (created_version i bytes))
          same
          (ap (peek (id, made.version_number))
              (update_latest_keeps ar lru id made.version_number _).0
            ∙ (unfold update_cached_model_version in
                lawful.peek-add_self (id, made.version_number) (created_version made bytes)
                  st.version_cache)))

  -- A successful creation leaves the version in the cache.
  pub create-peek :
      (args : VersionArgs) (info : VersionInfo) (st st' : State S C)
      → create_or_update_model_version ar lru id args st ≡ (ok info, st')
      → peek (id, info.version_number) st'.version_cache ≡ some (created_version info args.bytes)
  unfolding create_or_update_model_version
  create-peek args info st st' h =
      let (number, st1, chosen, rest) =
        proceed-eq-ok (choose_version_number ar lru id args.version_number st) _ h in
      let (made, st2, stored, cached) =
        proceed-eq-ok (store_version ar lru id (record args { version_number = number }) st1)
          (cache_created ar lru id args.bytes) rest in
      cache_created-peek args.bytes made info st2 st' cached

  -- A version that the cache has is read from there, and only the order in the cache may change.
  module _ (n : ℕ) (version : CachedVersion) (st : State S C)
      (cached : peek (id, n) st.version_cache ≡ some version) where
    hit : (lru.get (id, n) st.version_cache).0 ≡ some version
    hit = lawful.get-peek (id, n) st.version_cache ∙ cached

    pub retrieve_data_cached :
        0 < n
        → retrieve_model_version_data ar lru id (pos n) st
          ≡ (ok version.bytes, (retrieve_cached_model_version ar lru id n st).1)
    unfolding retrieve_model_version_data do_retrieve_model_version_data resolve_each
        retrieve_cached_model_version
    retrieve_data_cached positive = rw (neb_of_pos n positive) (rw hit refl)

    pub retrieve_info_cached :
        0 < n
        → retrieve_model_version_info ar lru id (pos n) st
          ≡ (ok (cached_info id n version), (retrieve_cached_model_version ar lru id n st).1)
    unfolding do_retrieve_model_version_info retrieve_cached_model_version
    retrieve_info_cached positive =
        retrieve_info_found ar lru id st n (cached_info id n version) _ positive (rw hit refl)

  -- A version that was created, in the archive or not, under the positive number `n` can be read back
  -- under that number: its data, and its information under the model's name and with the size of the
  -- data. The archive is not asked.
  pub create-retrieve :
      (args : VersionArgs) (info : VersionInfo) (st st' : State S C)
      → create_or_update_model_version ar lru id args st ≡ (ok info, st')
      → 0 < info.version_number
      → (st'' : State S C) × (st''.archive ≡ st'.archive)
        × (retrieve_model_version_data ar lru id (pos info.version_number) st'
            ≡ (ok args.bytes, st''))
        × (retrieve_model_version_info ar lru id (pos info.version_number) st'
            ≡ (ok (record info { model_id = id; data_size = length args.bytes }), st''))
  unfolding retrieve_cached_model_version
  create-retrieve args info st st' made positive =
      let there = create-peek args info st st' made in
      let n = info.version_number in
      (
        (retrieve_cached_model_version ar lru id n st').1,
        refl,
        retrieve_data_cached n (created_version info args.bytes) st' there positive,
        retrieve_info_cached n (created_version info args.bytes) st' there positive,
      )
