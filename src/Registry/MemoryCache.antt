-- ===== src/Registry/MemoryCache.antt =====
-- packages/cli/services/registry/backend/memorycache/memoryCacheBackend.go: a cache of versions and of
-- each model's latest version number, before an archive. The archive is any backend; the cache of
-- versions is hashicorp/golang-lru's, which enters by its operations. A version is stored there
-- encoded by encoding/gob: encoding it and decoding it again gives the version back. Each operation
-- runs alone: the mutex of the latest numbers is held for single reads and writes only.
pub mod Operations
pub mod Versions
pub mod Numbers
pub mod Lru
pub mod Parts
pub mod RoundTrip
pub mod Forgetting
pub mod Transparency
use cogment.Prelude.{
  ℕ, suc, ◌+◌, ◌-◌, ◌%◌, String, Bool, true, false, Option, none, some, List, [], ◌∷◌, ◌==◌, ltb,
  leb, ◌&&◌, ◌||◌, if◌then◌else◌, length, str_eq, string_key,
}
use cogment.Prelude.Dict.{Dict, lookup, insert, delete}
use cogment.Registry.Types.{
  ℤ, pos, negsuc, uint_mod, to_int, ModelInfo, VersionInfo, VersionArgs, Error,
  unknown_model_version, Result, ok, err, M, ◌>>=◌, pure, raise, proceed, Backend,
}

pub record CachedVersion : Type 0 where
  pub model_id : String
  pub version_number : ℕ
  pub creation_timestamp : ℕ
  pub archived : Bool
  pub data_hash : String
  pub bytes : List ℕ
  pub user_data : Dict String String

-- `memoryCacheKey`: the model and the version number.
abbrev pub CacheKey : Type 0
CacheKey = String × ℕ

abbrev pub same_key : CacheKey → CacheKey → Bool
same_key (m, n) (m', n') = str_eq m m' && (n == n')

-- What the code uses of `lru.Cache`. A `get` may change the order of the entries.
pub record LruCache (C : Type 0) : Type 0 where
  pub keys : C → List CacheKey
  pub get : CacheKey → C → Option CachedVersion × C
  pub add : CacheKey → CachedVersion → C → C
  pub remove : CacheKey → C → C

pub record State (S C : Type 0) : Type 0 where
  pub archive : S
  pub models_latest_version_number : Dict String ℕ
  pub version_cache : C

-- The loop over the keys that looks for a later version.
unfoldable pub latest_cached : String → ℕ → List CacheKey → ℕ
latest_cached id latest [] = latest
latest_cached id latest ((m, n) ∷ ks) =
    latest_cached id (if str_eq m id && ltb latest n then n else latest) ks

-- The version that is `i` before the latest one, in 64 bits; 0 stands for: there is none.
unfoldable pub nth_to_last : ℕ → ℕ → ℕ
nth_to_last latest i =
    if ltb ((latest + 1) % uint_mod) i then 0 else (latest + uint_mod - i) % uint_mod

-- The first of the resolved numbers; there are as many as were asked for.
abbrev pub head_number : List ℕ → ℕ
head_number [] = 0
head_number (n ∷ ns) = n

abbrev pub on_archive : {S C A : Type 0} → M S A → M (State S C) A
on_archive m st = ((m st.archive).0, record st { archive = (m st.archive).1 })

module _ {S C : Type 0} (ar : Backend S) (lru : LruCache C) where
  unfoldable pub remove_model_keys : String → List CacheKey → C → C
  remove_model_keys id [] c = c
  remove_model_keys id ((m, n) ∷ ks) c =
      remove_model_keys id ks (if str_eq m id then lru.remove (m, n) c else c)

  unfoldable pub delete_model_versions : String → State S C → State S C
  unfolding remove_model_keys
  delete_model_versions id st = record st {
    version_cache = remove_model_keys id (lru.keys st.version_cache) st.version_cache;
  }

  unfoldable pub delete_latest : String → (ℕ → Bool) → State S C → State S C
  delete_latest id test st = elim (lookup id st.models_latest_version_number) [
    | none ↦ st
    | some latest ↦
        if test latest
        then record st { models_latest_version_number = delete id st.models_latest_version_number }
        else st
  ]

  -- The number that is cached afterwards is returned.
  unfoldable pub update_latest : String → ℕ → State S C → ℕ × State S C
  update_latest id number st = elim (lookup id st.models_latest_version_number) [
    | none ↦ (
      number,
      record st { models_latest_version_number = insert id number st.models_latest_version_number },
    )
    | some latest ↦
        if ltb latest number
        then (
          number,
          record st {
            models_latest_version_number = insert id number st.models_latest_version_number;
          },
        )
        else (latest, st)
  ]

  -- The latest version number, cached or computed.
  unfoldable pub find_latest : String → M (State S C) ℕ
  unfolding latest_cached
  find_latest id st = elim (lookup id st.models_latest_version_number) [
    | some latest ↦ (ok latest, st)
    | none ↦
        (on_archive (ar.retrieve_model_latest_version_number id) >>= λ archived st'.
        (ok (latest_cached id archived (lru.keys st'.version_cache)), st'))
          st
  ]

  -- The loop of `resolveModelVersionNumbers`; a `latest` of 0 is not known.
  unfoldable pub resolve_each : String → ℕ → List ℤ → M (State S C) (List ℕ)
  unfolding find_latest nth_to_last
  resolve_each id latest [] = pure []
  resolve_each id latest (pos n ∷ numbers) =
      resolve_each id latest numbers >>= λ resolved. pure (n ∷ resolved)
  resolve_each id latest (negsuc i ∷ numbers) = do
    latest' ← if latest == 0 then find_latest id else pure latest
    resolved ← resolve_each id latest' numbers
    pure (nth_to_last latest' i ∷ resolved)

  abbrev pub resolve_model_version_numbers : String → List ℤ → M (State S C) (List ℕ)
  resolve_model_version_numbers id numbers = resolve_each id 0 numbers

  -- `resolveModelVersionNumbers(modelID, []int{number})[0]`
  abbrev pub resolve_one : String → ℤ → M (State S C) ℕ
  resolve_one id number =
      resolve_model_version_numbers id (number ∷ []) >>= λ resolved. pure (head_number resolved)
