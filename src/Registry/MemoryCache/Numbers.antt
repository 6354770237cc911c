-- ===== src/Registry/MemoryCache/Numbers.antt =====
-- Which version numbers the cache resolves to and hands out.
use cogment.Prelude.{
  ℕ, ◌+◌, ◌-◌, ◌≤◌, ◌<◌, ◌≡◌, ◌≢◌, ◌⊎◌, inl, inr, refl, String, false, none, some, List, [], ◌∷◌,
  ◌==◌, ltb, ◌&&◌, if◌then◌else◌, str_eq, eq_iff, string_key, All, arith, Bool-cases,
}
use cogment.Prelude.Dict.{lookup, insert, lookup-insert, same_refl}
use cogment.Registry.Types.{pos, negsuc, uint_mod, to_int, VersionInfo, ok, Backend}
use cogment.Registry.MemoryCache.{
  CacheKey, LruCache, State, latest_cached, nth_to_last, find_latest, update_latest, resolve_each,
  resolve_one,
}
use cogment.Registry.MemoryCache.Versions.{
  retrieve_model_version_info, do_retrieve_model_version_info,
}
use cogment.Registry.MemoryCache.Operations.{choose_version_number, retrieve_cached_model_version}

-- Counted from the end, index `i` names the version `latest - i` as long as that is at least 1. The
-- index of the version 0 and those from `latest + 2` on give 0, for "there is none"; the index
-- `latest + 1` in between gives the largest 64-bit number.
pub nth_to_last_bounds :
    (latest i : ℕ)
    → latest + 1 < uint_mod
    → i < uint_mod
    → nth_to_last latest i
      ≡ (if ltb i latest then latest - i else if i == latest + 1 then uint_mod - 1 else 0)
unfolding nth_to_last
nth_to_last_bounds latest i h k = ground arith

-- The key is of another model, or its version number is at most `n`.
abbrev pub IsUpTo : String → ℕ → CacheKey → Type 0
IsUpTo id n key = (key.0 ≢ id) ⊎ (key.1 ≤ n)

abbrev pub IsBelow : String → ℕ → CacheKey → Type 0
IsBelow id n key = (key.0 ≢ id) ⊎ (key.1 < n)

latest-le-latest_cached :
    (id : String) (latest : ℕ) (ks : List CacheKey) → latest ≤ latest_cached id latest ks
unfolding latest_cached
latest-le-latest_cached id latest [] = omega arith
latest-le-latest_cached id latest ((m, n) ∷ ks) =
    ground
      (arith, latest-le-latest_cached id (if str_eq m id && ltb latest n then n else latest) ks)

latest_cached-IsUpTo :
    (id : String) (latest : ℕ) (ks : List CacheKey)
    → All (IsUpTo id (latest_cached id latest ks)) ks
unfolding latest_cached
latest_cached-IsUpTo id latest [] = tt
latest_cached-IsUpTo id latest ((m, n) ∷ ks) =
    let latest' : ℕ = if str_eq m id && ltb latest n then n else latest in
    (
      elim (Bool-cases (str_eq m id)) [
        | inl same ↦ inr (ground (arith, same, latest-le-latest_cached id latest' ks))
        | inr other ↦ inl (ground (arith, other, eq_iff m id))
      ],
      latest_cached-IsUpTo id latest' ks,
    )

All-map :
    {P Q : CacheKey → Type 0} (ks : List CacheKey)
    → ((k : CacheKey) → P k → Q k)
    → All P ks
    → All Q ks
All-map [] f h = tt
All-map (k ∷ ks) f h = (f k h.0, All-map ks f h.1)

IsUpTo-IsBelow : (id : String) (n : ℕ) (k : CacheKey) → IsUpTo id n k → IsBelow id (n + 1) k
IsUpTo-IsBelow id n k (inl h) = inl h
IsUpTo-IsBelow id n k (inr h) = inr (omega arith)

pub neb_of_pos : (n : ℕ) → 0 < n → (n == 0) ≡ false
neb_of_pos n h = ground arith

module _ {S C : Type 0} (ar : Backend S) (lru : LruCache C) (id : String) where
  pub find_latest_cached :
      (st : State S C) (n : ℕ)
      → lookup id st.models_latest_version_number ≡ some n
      → find_latest ar lru id st ≡ (ok n, st)
  unfolding find_latest
  find_latest_cached st n known = rw (known, find_latest) refl

  pub find_latest_computed :
      (st : State S C) (n : ℕ) (s' : S)
      → lookup id st.models_latest_version_number ≡ none
      → ar.retrieve_model_latest_version_number id st.archive ≡ (ok n, s')
      → find_latest ar lru id st
        ≡ (ok (latest_cached id n (lru.keys st.version_cache)), record st { archive = s' })
  unfolding find_latest
  find_latest_computed st n s' unknown answered = rw (unknown, find_latest) (rw answered refl)

  -- A number that counts from the end needs the latest number; any other stands for itself.
  pub resolve_one_last :
      (st : State S C) (i latest : ℕ) (st' : State S C)
      → find_latest ar lru id st ≡ (ok latest, st')
      → resolve_one ar lru id (negsuc i) st ≡ (ok (nth_to_last latest i), st')
  unfolding resolve_each
  resolve_one_last st i latest st' found = rw found refl

  pub resolve_one_given : (st : State S C) (n : ℕ) → resolve_one ar lru id (pos n) st ≡ (ok n, st)
  unfolding resolve_each
  resolve_one_given st n = refl

  next_number :
      (st : State S C) (latest : ℕ) (st' : State S C)
      → latest + 1 < uint_mod
      → find_latest ar lru id st ≡ (ok latest, st')
      → choose_version_number ar lru id 0 st ≡ (ok (latest + 1), st')
  unfolding choose_version_number nth_to_last
  next_number st latest st' fits found =
      rw (resolve_one_last st 0 latest st' found, choose_version_number) (ground arith)

  -- Where no latest number is cached, a new version gets a number above the archive's latest one and
  -- above that of every cached version of its model, if that fits into 64 bits; nothing but the
  -- archive's state changes.
  choose_version_number-IsBelow :
      (st : State S C) (n : ℕ) (s' : S)
      → lookup id st.models_latest_version_number ≡ none
      → ar.retrieve_model_latest_version_number id st.archive ≡ (ok n, s')
      → latest_cached id n (lru.keys st.version_cache) + 1 < uint_mod
      → (k : ℕ) × (choose_version_number ar lru id 0 st ≡ (ok k, record st { archive = s' }))
        × (n < k)
        × All (IsBelow id k) (lru.keys st.version_cache)
  choose_version_number-IsBelow st n s' unknown answered fits = (
    latest_cached id n (lru.keys st.version_cache) + 1,
    next_number st _ _ fits (find_latest_computed st n s' unknown answered),
    omega (arith, latest-le-latest_cached id n (lru.keys st.version_cache)),
    All-map (lru.keys st.version_cache)
        (IsUpTo-IsBelow id (latest_cached id n (lru.keys st.version_cache)))
        (latest_cached-IsUpTo id n (lru.keys st.version_cache)),
  )

  update_latest_unknown :
      (st : State S C) (n : ℕ)
      → lookup id st.models_latest_version_number ≡ none
      → update_latest ar lru id n st ≡ (
        n,
        record st { models_latest_version_number = insert id n st.models_latest_version_number },
      )
  unfolding update_latest
  update_latest_unknown st n unknown = rw (unknown, update_latest) refl

  -- What is not cached is read from the archive, and may be the latest version.
  pub do_retrieve_info_missed :
      (st : State S C) (n : ℕ) (info : VersionInfo) (c' : C) (s' : S)
      → lru.get (id, n) st.version_cache ≡ (none, c')
      → ar.retrieve_model_version_info id (to_int n) st.archive ≡ (ok info, s')
      → do_retrieve_model_version_info ar lru id n st ≡ (
        ok info,
        (update_latest ar lru id info.version_number
            (record st { archive = s'; version_cache = c' })).1,
      )
  unfolding do_retrieve_model_version_info retrieve_cached_model_version
  do_retrieve_info_missed st n info c' s' missed answered = rw missed (rw answered refl)

  pub retrieve_info_found :
      (st : State S C) (n : ℕ) (info : VersionInfo) (after : State S C)
      → 0 < n
      → do_retrieve_model_version_info ar lru id n st ≡ (ok info, after)
      → retrieve_model_version_info ar lru id (pos n) st ≡ (ok info, after)
  unfolding retrieve_model_version_info resolve_each
  retrieve_info_found st n info after positive found = rw (neb_of_pos n positive) (rw found refl)

  -- Where no latest number is cached, reading the information of version `n` from the archive caches
  -- `n` as the latest number: the next new version then gets the number `n + 1`, whatever later
  -- versions the archive holds.
  choose_version_number-retrieve_info :
      (st : State S C) (n : ℕ) (info : VersionInfo) (c' : C) (s' : S)
      → 0 < n
      → n + 1 < uint_mod
      → lookup id st.models_latest_version_number ≡ none
      → lru.get (id, n) st.version_cache ≡ (none, c')
      → ar.retrieve_model_version_info id (to_int n) st.archive ≡ (ok info, s')
      → info.version_number ≡ n
      → choose_version_number ar lru id 0 (retrieve_model_version_info ar lru id (pos n) st).1
        ≡ (ok (n + 1), (retrieve_model_version_info ar lru id (pos n) st).1)
  unfolding lookup insert
  choose_version_number-retrieve_info st n info c' s' positive fits unknown missed answered
        numbered =
      let read =
        retrieve_info_found st n info _ positive
          (do_retrieve_info_missed st n info c' s' missed answered) in
      rw
        (
          read,
          numbered,
          update_latest_unknown (record st { archive = s'; version_cache = c' }) n unknown,
        )
        (next_number _ n _ fits (find_latest_cached _ n (rw (lookup-insert, same_refl id) refl)))
