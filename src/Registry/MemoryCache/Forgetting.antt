-- ===== src/Registry/MemoryCache/Forgetting.antt =====
-- What the cache holds after a deletion and after an operation that failed.
use cogment.Prelude.{
  ℕ, ◌≡◌, ◌≢◌, ◌⊎◌, inl, inr, ◌∙◌, refl, ap, subst, sym, String, true, false, Option, none, some,
  List, [], ◌∷◌, ◌==◌, leb, if◌then◌else◌, str_eq, eq_iff, string_key, In, arith, Bool-cases,
  Option-cases,
}
use cogment.Prelude.Dict.{lookup, lookup-delete, same_refl}
use cogment.Registry.Types.{
  pos, negsuc, VersionInfo, VersionArgs, Error, Result, ok, err, M, proceed, Backend,
}
use cogment.Registry.MemoryCache.{
  CachedVersion, CacheKey, same_key, LruCache, State, remove_model_keys, delete_model_versions,
  delete_latest, find_latest, resolve_each, resolve_one, on_archive,
}
use cogment.Registry.MemoryCache.Operations.{
  choose_version_number, store_version, cache_created, create_or_update_model_version, delete_model,
  delete_cached_model_version,
}
use cogment.Registry.MemoryCache.Versions.{do_delete_model_version, delete_model_version}
use cogment.Registry.MemoryCache.Lru.{IsLru}
use cogment.Registry.MemoryCache.Parts.{proceed-eq-err, delete_latest_keeps}

-- What is left of a cached latest number once the version `n` is deleted.
abbrev pub outdated : ℕ → Option ℕ → Option ℕ
outdated n none = none
outdated n (some latest) = if leb latest n then none else some latest

module _ {S C : Type 0} (ar : Backend S) (lru : LruCache C) (id : String) where
  delete_latest-lookup :
      (n : ℕ) (st : State S C)
      → lookup id (delete_latest ar lru id (λ latest. leb latest n) st).models_latest_version_number
        ≡ outdated n (lookup id st.models_latest_version_number)
  unfolding delete_latest
  delete_latest-lookup n st = elim (Option-cases (lookup id st.models_latest_version_number)) [
    | inl unknown ↦ rw (unknown, delete_latest) unknown
    | inr (latest, known) ↦
        rw (known, delete_latest)
          (ground (arith, known, lookup-delete id id st.models_latest_version_number, same_refl id))
  ]

  delete_latest_all :
      (st : State S C)
      → lookup id (delete_latest ar lru id (λ latest. true) st).models_latest_version_number ≡ none
  unfolding delete_latest
  delete_latest_all st = elim (Option-cases (lookup id st.models_latest_version_number)) [
    | inl unknown ↦ rw (unknown, delete_latest) unknown
    | inr (latest, known) ↦
        rw (known, delete_latest)
          (lookup-delete id id st.models_latest_version_number ∙ rw (same_refl id) refl)
  ]

module _ {S C : Type 0} (ar : Backend S) (lru : LruCache C)
    {peek : CacheKey → C → Option CachedVersion} (lawful : IsLru lru peek) (id : String) where
  -- Deleting the version `n` always succeeds: the archive's answer is ignored. The cache forgets that
  -- version and no other one, and the latest number if it was at most `n`.
  pub delete_model_version-peek :
      (n : ℕ) (m : String) (k : ℕ) (st : State S C)
      → ((delete_model_version ar lru id (pos n) st).0 ≡ ok tt)
        × (peek (m, k) (delete_model_version ar lru id (pos n) st).1.version_cache
            ≡ (if same_key (id, n) (m, k) then none else peek (m, k) st.version_cache))
        × (lookup id (delete_model_version ar lru id (pos n) st).1.models_latest_version_number
            ≡ outdated n (lookup id st.models_latest_version_number))
  unfolding delete_model_version do_delete_model_version resolve_each delete_cached_model_version
  delete_model_version-peek n m k st = (
    refl,
    ap (peek (m, k)) (delete_latest_keeps ar lru id (λ latest. leb latest n) _).0
        ∙ lawful.peek-remove (id, n) (m, k) st.version_cache,
    delete_latest-lookup ar lru id n _,
  )

  remove_others :
      (m : String) (n : ℕ) (ks : List CacheKey) (c : C)
      → str_eq m id ≡ false
      → peek (m, n) (remove_model_keys ar lru id ks c) ≡ peek (m, n) c
  unfolding remove_model_keys
  remove_others m n [] c other = refl
  remove_others m n ((m', n') ∷ ks) c other =
      remove_others m n ks (if str_eq m' id then lru.remove (m', n') c else c) other
      ∙ elim (Bool-cases (str_eq m' id)) [
        | inl same ↦ rw same (
            lawful.peek-remove (m', n') (m, n) c
            ∙ ground (arith, same, other, eq_iff m' id, eq_iff m id, eq_iff m' m))
        | inr differs ↦ rw differs refl
      ]

  removed :
      (n : ℕ) (m' : String) (n' : ℕ) (ks : List CacheKey) (c : C)
      → (peek (id, n) c ≡ none) ⊎ In (id, n) ((m', n') ∷ ks)
      → (peek (id, n) (if str_eq m' id then lru.remove (m', n') c else c) ≡ none) ⊎ In (id, n) ks
  removed n m' n' ks c (inl gone) =
      inl (ground (arith, gone, lawful.peek-remove (m', n') (id, n) c))
  removed n m' n' ks c (inr (inl same)) =
      inl (ground (arith, same, eq_iff m' id, eq_iff id id, lawful.peek-remove (m', n') (id, n) c))
  removed n m' n' ks c (inr (inr later)) = inr later

  remove_listed :
      (n : ℕ) (ks : List CacheKey) (c : C)
      → (peek (id, n) c ≡ none) ⊎ In (id, n) ks
      → peek (id, n) (remove_model_keys ar lru id ks c) ≡ none
  unfolding remove_model_keys
  remove_listed n [] c (inl gone) = gone
  remove_listed n [] c (inr h) = absurd h
  remove_listed n ((m', n') ∷ ks) c h =
      remove_listed n ks (if str_eq m' id then lru.remove (m', n') c else c)
        (removed n m' n' ks c h)

  listed_or_gone : (n : ℕ) (c : C) → (peek (id, n) c ≡ none) ⊎ In (id, n) (lru.keys c)
  listed_or_gone n c = elim (Option-cases (peek (id, n) c)) [
    | inl gone ↦ inl gone
    | inr (v, there) ↦ inr (lawful.in_keys (id, n) c v there)
  ]

  delete_model_versions-peek :
      (m : String) (k : ℕ) (st : State S C)
      → peek (m, k) (delete_model_versions ar lru id st).version_cache
        ≡ (if str_eq m id then none else peek (m, k) st.version_cache)
  unfolding delete_model_versions
  delete_model_versions-peek m k st = elim (Bool-cases (str_eq m id)) [
    | inl same ↦ rw same (
        subst
          (λ i.
            peek (i, k) (remove_model_keys ar lru id (lru.keys st.version_cache) st.version_cache)
            ≡ none)
          (sym ((eq_iff m id).0 same))
          (remove_listed k (lru.keys st.version_cache) st.version_cache
            (listed_or_gone k st.version_cache)))
    | inr other ↦ rw other (remove_others m k (lru.keys st.version_cache) st.version_cache other)
  ]

  delete_model_versions_keeps :
      (st : State S C)
      → (delete_model_versions ar lru id st).models_latest_version_number
        ≡ st.models_latest_version_number
  unfolding delete_model_versions
  delete_model_versions_keeps st = refl

  -- Once the archive has deleted a model, the cache knows no version of it and no latest number, and
  -- every cached version of another model is there as before.
  delete_model-peek :
      (m : String) (k : ℕ) (st : State S C) (s' : S)
      → ar.delete_model id st.archive ≡ (ok tt, s')
      → ((delete_model ar lru id st).0 ≡ ok tt)
        × (lookup id (delete_model ar lru id st).1.models_latest_version_number ≡ none)
        × (peek (m, k) (delete_model ar lru id st).1.version_cache
            ≡ (if str_eq m id then none else peek (m, k) st.version_cache))
  unfolding delete_model
  delete_model-peek m k st s' deleted =
      let emptied : State S C =
        delete_latest ar lru id (λ latest. true) (record st { archive = s' }) in
      rw deleted (
        refl,
        ap (lookup id) (delete_model_versions_keeps emptied) ∙ delete_latest_all ar lru id _,
        delete_model_versions-peek m k emptied
            ∙ ap (λ c. if str_eq m id then none else peek (m, k) c)
                (delete_latest_keeps ar lru id (λ latest. true) (record st { archive = s' })).0,
      )

-- Only the archive's state may have changed.
abbrev pub CacheKept : {S C : Type 0} → State S C → State S C → Type 0
CacheKept st st' =
    (st'.version_cache ≡ st.version_cache)
    × (st'.models_latest_version_number ≡ st.models_latest_version_number)

CacheKept-trans :
    {S C : Type 0} (st st' st'' : State S C)
    → CacheKept st st'
    → CacheKept st' st''
    → CacheKept st st''
CacheKept-trans st st' st'' h k = (k.0 ∙ h.0, k.1 ∙ h.1)

proceed-CacheKept :
    {S C A B : Type 0} (st : State S C) (r : Result A × State S C) (f : A → M (State S C) B)
    → CacheKept st r.1
    → ((a : A) (t : State S C) → CacheKept t (f a t).1)
    → CacheKept st (proceed r f).1
proceed-CacheKept st (ok a, t) f h k = CacheKept-trans st t (f a t).1 h (k a t)
proceed-CacheKept st (err e, t) f h k = h

module _ {S C : Type 0} (ar : Backend S) (lru : LruCache C) (id : String) where
  find_latest-CacheKept : (st : State S C) → CacheKept st (find_latest ar lru id st).1
  unfolding find_latest
  find_latest-CacheKept st = elim (Option-cases (lookup id st.models_latest_version_number)) [
    | inl unknown ↦
        rw (unknown, find_latest)
          (proceed-CacheKept st (on_archive (ar.retrieve_model_latest_version_number id) st) _
            (refl, refl) (λ a t. (refl, refl)))
    | inr (latest, known) ↦ rw (known, find_latest) (refl, refl)
  ]

  resolve_last-CacheKept : (st : State S C) → CacheKept st (resolve_one ar lru id (negsuc 0) st).1
  unfolding resolve_each
  resolve_last-CacheKept st =
      proceed-CacheKept st (resolve_each ar lru id 0 (negsuc 0 ∷ []) st) _
        (proceed-CacheKept st (find_latest ar lru id st) _ (find_latest-CacheKept st)
          (λ latest t. (refl, refl)))
        (λ resolved t. (refl, refl))

  choose_version_number-CacheKept :
      (n : ℕ) (st : State S C) → CacheKept st (choose_version_number ar lru id n st).1
  unfolding choose_version_number
  choose_version_number-CacheKept n st = elim (Bool-cases (n == 0)) [
    | inl new ↦
        rw (new, choose_version_number)
          (proceed-CacheKept st (resolve_one ar lru id (negsuc 0) st) _ (resolve_last-CacheKept st)
            (λ latest t. (refl, refl)))
    | inr given ↦ rw (given, choose_version_number) (refl, refl)
  ]

  store_version-CacheKept :
      (args : VersionArgs) (st : State S C) → CacheKept st (store_version ar lru id args st).1
  unfolding store_version
  store_version-CacheKept args st = ground arith

  cache_created_succeeds :
      (bytes : List ℕ) (info : VersionInfo) (e : Error) (st st' : State S C)
      → cache_created ar lru id bytes info st ≢ (err e, st')
  unfolding cache_created
  cache_created_succeeds bytes info e st st' = λ h. ground arith

  -- A creation that fails leaves the cached versions and the cached latest numbers as they were.
  pub create-CacheKept :
      (args : VersionArgs) (e : Error) (st st' : State S C)
      → create_or_update_model_version ar lru id args st ≡ (err e, st')
      → CacheKept st st'
  unfolding create_or_update_model_version
  create-CacheKept args e st st' h =
      let chose = choose_version_number-CacheKept args.version_number st in
      elim (proceed-eq-err (choose_version_number ar lru id args.version_number st) _ h) [
        | inl failed ↦ subst (λ r. CacheKept st r.1) failed chose
        | inr (number, st1, chosen, rest) ↦
            let args' : VersionArgs = record args { version_number = number } in
            let kept =
              CacheKept-trans st st1 (store_version ar lru id args' st1).1
                (subst (λ r. CacheKept st r.1) chosen chose) (store_version-CacheKept args' st1) in
            elim (proceed-eq-err (store_version ar lru id args' st1)
              (cache_created ar lru id args.bytes) rest) [
                | inl failed ↦ subst (λ r. CacheKept st r.1) failed kept
                | inr (info, st2, stored, impossible) ↦
                    absurd (cache_created_succeeds args.bytes info e st2 st' impossible)
              ]
      ]
