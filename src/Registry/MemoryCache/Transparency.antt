-- ===== src/Registry/MemoryCache/Transparency.antt =====
-- Reading through the cache gives what the archive gives, while all cached versions are archived.
use cogment.Prelude.{
  ℕ, ◌^◌, ◌<◌, ◌≡◌, inl, inr, ◌∙◌, refl, ap, subst, sym, String, Option, none, some, List, arith,
  Bool-cases, Option-cases,
}
use cogment.Registry.Types.{
  Reply-cases, ℤ, pos, to_int, VersionInfo, Error, Result, ok, err, Backend,
}
use cogment.Registry.MemoryCache.{
  CachedVersion, CacheKey, same_key, LruCache, State, update_latest, resolve_each,
}
use cogment.Registry.MemoryCache.Operations.{
  fetched_version, update_cached_model_version, retrieve_cached_model_version,
}
use cogment.Registry.MemoryCache.Versions.{
  do_retrieve_model_version_data, retrieve_model_version_data,
}
use cogment.Registry.MemoryCache.Numbers.{neb_of_pos}
use cogment.Registry.MemoryCache.Lru.{IsLru, same_key_iff}
use cogment.Registry.MemoryCache.Parts.{update_latest_keeps}
use cogment.Registry.MemoryCache.RoundTrip.{retrieve_data_cached}

-- Reading a version leaves the archive as it is, and the information of a version that is asked for by
-- its number has that number.
pub record IsReadable {S : Type 0} (ar : Backend S) : Type 0 where
  pub data_keeps : (id : String) (n : ℤ) (s : S) → (ar.retrieve_model_version_data id n s).1 ≡ s
  pub info_keeps : (id : String) (n : ℤ) (s : S) → (ar.retrieve_model_version_info id n s).1 ≡ s
  pub info_numbered :
      (id : String) (n : ℕ) (s t : S) (info : VersionInfo)
      → 0 < n
      → ar.retrieve_model_version_info id (pos n) s ≡ (ok info, t)
      → info.version_number ≡ n

-- Each version in the cache `c` has the data that the archive in state `s` has for it.
abbrev pub IsCoherent :
    {S C : Type 0} → Backend S → (CacheKey → C → Option CachedVersion) → S → C → Type 0
IsCoherent ar peek s c =
    (m : String) (k : ℕ) (version : CachedVersion)
    → peek (m, k) c ≡ some version
    → (ar.retrieve_model_version_data m (to_int k) s).0 ≡ ok version.bytes

-- What reading version `n` shows and leaves: the archive's answer, the archive as it was, and a
-- cache that is coherent with it.
abbrev pub Transparent :
    {S C : Type 0}
    → Backend S
    → (CacheKey → C → Option CachedVersion)
    → String
    → ℕ
    → State S C
    → Result (List ℕ) × State S C
    → Type 0
Transparent ar peek id n st r =
    (r.0 ≡ (ar.retrieve_model_version_data id (to_int n) st.archive).0)
    × (r.1.archive ≡ st.archive)
    × IsCoherent ar peek st.archive r.1.version_cache

some_bytes : {v w : CachedVersion} → some v ≡ some w → ok v.bytes ≡ ok w.bytes
some_bytes h = ground (arith, h)

resolved_positive :
    {S C : Type 0} (ar : Backend S) (lru : LruCache C) (id : String) (n : ℕ) (st : State S C)
    → 0 < n
    → retrieve_model_version_data ar lru id (pos n) st
      ≡ do_retrieve_model_version_data ar lru id n st
unfolding retrieve_model_version_data resolve_each
resolved_positive ar lru id n st positive = rw (neb_of_pos n positive) refl

to_int-pos : (n : ℕ) → n < 2 ^ 63 → to_int n ≡ pos n
to_int-pos n small = ground arith

module _ {S C : Type 0} (ar : Backend S) (lru : LruCache C) (readable : IsReadable ar)
    {peek : CacheKey → C → Option CachedVersion} (lawful : IsLru lru peek) where
  get-IsCoherent :
      (s : S) (c : C) (key : CacheKey)
      → IsCoherent ar peek s c
      → IsCoherent ar peek s (lru.get key c).1
  get-IsCoherent s c key h m k version there =
      h m k version (sym (lawful.peek-get key (m, k) c) ∙ there)

  add-IsCoherent :
      (s : S) (c : C) (id : String) (n : ℕ) (added : CachedVersion)
      → IsCoherent ar peek s c
      → (ar.retrieve_model_version_data id (to_int n) s).0 ≡ ok added.bytes
      → IsCoherent ar peek s (lru.add (id, n) added c)
  add-IsCoherent s c id n added h archived m k version there =
      elim (Bool-cases (same_key (id, n) (m, k))) [
        | inl same ↦
            let here : (id, n) ≡ (m, k) = (same_key_iff (id, n) (m, k)).0 same in
            let found : some added ≡ some version =
              sym (
                subst (λ (key : CacheKey). peek key (lru.add (id, n) added c) ≡ some added) here
                  (lawful.peek-add_self (id, n) added c))
              ∙ there in
            subst
              (λ (key : CacheKey).
                (ar.retrieve_model_version_data key.0 (to_int key.1) s).0 ≡ ok version.bytes)
              here (archived ∙ some_bytes found)
        | inr other ↦ elim (lawful.peek-add_ne (id, n) (m, k) added c other) [
          | inl kept ↦ h m k version (sym kept ∙ there)
          | inr gone ↦ absurd (ground (arith, gone, there))
        ]
      ]

  module _ (id : String) (n : ℕ) (st : State S C)
      (missed : peek (id, n) st.version_cache ≡ none) where
    miss : (lru.get (id, n) st.version_cache).0 ≡ none
    miss = lawful.get-peek (id, n) st.version_cache ∙ missed

    failed_lem :
        (e : Error) (s1 : S)
        → ar.retrieve_model_version_data id (to_int n) st.archive ≡ (err e, s1)
        → do_retrieve_model_version_data ar lru id n st ≡ (
          err e,
          record st { archive = s1; version_cache = (lru.get (id, n) st.version_cache).1 },
        )
    unfolding do_retrieve_model_version_data retrieve_cached_model_version
    failed_lem e s1 h = rw miss (rw h refl)

    uninformed_lem :
        (bytes : List ℕ) (s1 : S) (e : Error) (s2 : S)
        → ar.retrieve_model_version_data id (to_int n) st.archive ≡ (ok bytes, s1)
        → ar.retrieve_model_version_info id (to_int n) s1 ≡ (err e, s2)
        → do_retrieve_model_version_data ar lru id n st ≡ (
          ok bytes,
          record st { archive = s2; version_cache = (lru.get (id, n) st.version_cache).1 },
        )
    unfolding do_retrieve_model_version_data retrieve_cached_model_version
    uninformed_lem bytes s1 e s2 h k = rw miss (rw h (rw k refl))

    fetched_lem :
        (bytes : List ℕ) (s1 : S) (info : VersionInfo) (s2 : S)
        → ar.retrieve_model_version_data id (to_int n) st.archive ≡ (ok bytes, s1)
        → ar.retrieve_model_version_info id (to_int n) s1 ≡ (ok info, s2)
        → do_retrieve_model_version_data ar lru id n st ≡ (
          ok bytes,
          (update_latest ar lru id info.version_number (
              update_cached_model_version ar lru id info.version_number
                (fetched_version info bytes)
                (record st {
                  archive = s2;
                  version_cache = (lru.get (id, n) st.version_cache).1;
                }))).1,
        )
    unfolding do_retrieve_model_version_data retrieve_cached_model_version
    fetched_lem bytes s1 info s2 h k = rw miss (rw h (rw k refl))

  module _ (id : String) (n : ℕ) (st : State S C)
      (coherent : IsCoherent ar peek st.archive st.version_cache) where
    touched : IsCoherent ar peek st.archive (lru.get (id, n) st.version_cache).1
    touched = get-IsCoherent st.archive st.version_cache (id, n) coherent

    fetched-Transparent :
        (bytes : List ℕ) (info : VersionInfo) (s2 : S)
        → s2 ≡ st.archive
        → (ar.retrieve_model_version_data id (to_int n) st.archive).0 ≡ ok bytes
        → info.version_number ≡ n
        → Transparent ar peek id n st (
          ok bytes,
          (update_latest ar lru id info.version_number (
              update_cached_model_version ar lru id info.version_number
                (fetched_version info bytes)
                (record st {
                  archive = s2;
                  version_cache = (lru.get (id, n) st.version_cache).1;
                }))).1,
        )
    fetched-Transparent bytes info s2 kept answer numbered =
        let c = (lru.get (id, n) st.version_cache).1 in
        let added =
          update_cached_model_version ar lru id info.version_number (fetched_version info bytes)
            (record st { archive = s2; version_cache = c }) in
        let keeps = update_latest_keeps ar lru id info.version_number added in
        (
          sym answer,
          keeps.1 ∙ (unfold update_cached_model_version in kept),
          subst (λ c'. IsCoherent ar peek st.archive c') (sym keeps.0)
              (unfold update_cached_model_version in
                subst
                  (λ k.
                    IsCoherent ar peek st.archive (lru.add (id, k) (fetched_version info bytes) c))
                  (sym numbered)
                  (add-IsCoherent st.archive c id n (fetched_version info bytes) touched answer)),
        )

    do_retrieve-Transparent :
        0 < n
        → n < 2 ^ 63
        → peek (id, n) st.version_cache ≡ none
        → Transparent ar peek id n st (do_retrieve_model_version_data ar lru id n st)
    do_retrieve-Transparent positive small missed =
        elim (Reply-cases (ar.retrieve_model_version_data id (to_int n) st.archive)) [
          | inr (e, s1, h) ↦ rw (failed_lem id n st missed e s1 h) (
            sym (ap (λ r. r.0) h),
            sym (ap (λ r. r.1) h) ∙ readable.data_keeps id (to_int n) st.archive,
            touched,
          )
          | inl (bytes, s1, h) ↦
              let kept = sym (ap (λ r. r.1) h) ∙ readable.data_keeps id (to_int n) st.archive in
              elim (Reply-cases (ar.retrieve_model_version_info id (to_int n) s1)) [
                | inr (e, s2, k) ↦ rw (uninformed_lem id n st missed bytes s1 e s2 h k) (
                  sym (ap (λ r. r.0) h),
                  sym (ap (λ r. r.1) k) ∙ readable.info_keeps id (to_int n) s1 ∙ kept,
                  touched,
                )
                | inl (info, s2, k) ↦ rw (fetched_lem id n st missed bytes s1 info s2 h k) (
                    fetched-Transparent bytes info s2
                      (sym (ap (λ r. r.1) k) ∙ readable.info_keeps id (to_int n) s1 ∙ kept)
                      (ap (λ r. r.0) h)
                      (readable.info_numbered id n s1 s2 info positive
                        (rw (to_int-pos n small) at k)))
              ]
        ]

    -- Where the cached versions are those of the archive, the data of the positive version `n`, an `int`
    -- of 64 bits, read through the cache is what the archive answers, its errors included; the archive does not change
    -- and the cache is coherent afterwards.
    pub retrieve_data-Transparent :
        0 < n
        → n < 2 ^ 63
        → Transparent ar peek id n st (retrieve_model_version_data ar lru id (pos n) st)
    unfolding retrieve_cached_model_version
    retrieve_data-Transparent positive small = elim (Option-cases (peek (id, n) st.version_cache)) [
      | inr (version, there) ↦
          rw (retrieve_data_cached ar lru lawful id n version st there positive)
            (sym (coherent id n version there), refl, touched)
      | inl missed ↦
          rw (resolved_positive ar lru id n st positive)
            (do_retrieve-Transparent positive small missed)
    ]
