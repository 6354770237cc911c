-- ===== src/Registry/Server.antt =====
-- packages/cli/services/registry/grpcservers/modelRegistryServer.go: the handlers of the model registry,
-- over any backend, with backendPromise.go. `ready` tells whether the promise of the backend is kept
-- before the context of the request ends. A handler answers, returns an error, or stops the process
-- (`panics`): an index out of range, or a message without a part that the code reads. A slice of a
-- request may have a capacity above its length: `spare` is what lies beyond. A text is the list of its code points where it is parsed.
pub mod Stream
pub mod Transfer
pub mod RoundTrip
pub mod Paging
pub mod Watch
pub mod Watched
use mathlib.Core.Option
use cogment.Prelude.{
  zero, map, ℕ, suc, ◌+◌, ◌-◌, ◌%◌, ◌^◌, String, Bool, true, false, not, Option, none, some, List,
  [], ◌∷◌, ◌++◌, ◌==◌, ltb, leb, ◌&&◌, ◌||◌, if◌then◌else◌, length, drop, str_eq,
}
use cogment.Prelude.Dict.{Dict}
use cogment.Utils.Decimal.{format_uint, format_int, parse_uint, parse_int}
use cogment.Registry.Types.{
  ℤ, pos, negsuc, uint_mod, to_int, ModelInfo, VersionInfo, VersionArgs, Error,
  unknown_model_version, unknown_model, failure, Result, ok, err, M, Backend,
}

-- The codes of the errors that the handlers make, and an error of the backend or the stream that is
-- returned as it is.
pub data Status : Type 0 where
  invalid_argument canceled stream_failed : Status
  not_found internal returned : Error → Status

pub data Outcome (A : Type 0) : Type 0 where
  answers : A → Outcome A
  fails : Status → Outcome A
  panics : Outcome A

-- What the API calls `ModelVersionInfo`; its version number has 32 bits.
pub record PbVersionInfo : Type 0 where
  pub model_id : String
  pub version_number : ℕ
  pub creation_timestamp : ℕ
  pub archived : Bool
  pub data_hash : String
  pub data_size : ℕ
  pub user_data : Dict String String

unfoldable pub make_pb_model_version_info : VersionInfo → PbVersionInfo
make_pb_model_version_info info = record {
  model_id = info.model_id;
  version_number = info.version_number % 2 ^ 32;
  creation_timestamp = info.creation_timestamp;
  archived = info.archived;
  data_hash = info.data_hash;
  data_size = info.data_size;
  user_data = info.user_data;
}

-- The status of an error of the backend, where an unknown model, and a version, is told apart.
abbrev pub unknown_model_status : Error → Status
unknown_model_status (unknown_model id) = not_found (unknown_model id)
unknown_model_status (unknown_model_version id n) = internal (unknown_model_version id n)
unknown_model_status (failure e) = internal (failure e)

abbrev pub unknown_status : Error → Status
unknown_status (unknown_model id) = not_found (unknown_model id)
unknown_status (unknown_model_version id n) = not_found (unknown_model_version id n)
unknown_status (failure e) = internal (failure e)

-- A call of the backend, with the status of its error and what is done on success.
abbrev pub serve :
    {S A R : Type 0} → Result A × S → (Error → Status) → (A → S → Outcome R × S) → Outcome R × S
serve (ok a, s) status f = f a s
serve (err e, s) status f = (fails (status e), s)

abbrev pub await : {S R : Type 0} → Bool → S → Outcome R × S → Outcome R × S
await ready s served = if ready then served else (fails canceled, s)

-- `Status`: `*` stands for every status, and the loop stops at it. The answer is the map of the
-- statuses, if one was asked for.
unfoldable pub collect_statuses : List String → Dict String String → Dict String String
collect_statuses [] statuses = statuses
collect_statuses (name ∷ names) statuses =
    let rest =
      collect_statuses names
        (if str_eq name "overall_load" then ("overall_load", "0") ∷ [] else statuses) in
    if str_eq name "*" then ("overall_load", "0") ∷ [] else rest

unfoldable pub status_reply : List String → Option (Dict String String)
unfolding collect_statuses
status_reply [] = none
status_reply (name ∷ names) = some (collect_statuses (name ∷ names) [])

pub record ModelsPage : Type 0 where
  pub model_infos : List ModelInfo
  pub next_model_handle : List ℕ

pub record VersionsPage : Type 0 where
  pub version_infos : List PbVersionInfo
  pub next_version_handle : List ℕ

-- `offset + n` in 64 bits
abbrev pub advance_offset : ℤ → ℕ → ℤ
advance_offset (pos n) k = to_int ((n + k) % uint_mod)
advance_offset (negsuc i) k = if leb k i then negsuc (i - k) else pos (k - i - 1)

-- `items[:count]`, of a slice with the items up to its capacity; `none` stands for an index out of range.
unfoldable pub first_items : {A : Type 0} → ℕ → List A → Option (List A)
first_items zero xs = some []
first_items (suc n) [] = none
first_items (suc n) (x ∷ xs) = Option.map (◌∷◌ x) (first_items n xs)

-- `items[offset:]`, up to the length, then `[:count]` unless the count is 0, up to the capacity.
unfoldable pub slice : {A : Type 0} → ℤ → ℕ → List A → List A → Option (List A)
unfolding first_items
slice (negsuc i) count xs spare = none
slice (pos n) count xs spare =
    if ltb (length xs) n
    then none
    else if count == 0
    then some (drop n xs)
    else first_items count (drop n xs ++ spare)

-- A loop that retrieves each item and returns at the first error.
unfoldable pub retrieve_each :
    {S A R : Type 0} → (A → M S R) → (Error → Status) → List A → List R → S → Outcome (List R) × S
retrieve_each retrieve status [] found s = (answers found, s)
retrieve_each retrieve status (a ∷ rest) found s =
    serve (retrieve a s) status (λ r s'. retrieve_each retrieve status rest (found ++ r ∷ []) s')

-- What is built from the retrieved items.
abbrev pub then_reply : {S A R : Type 0} → Outcome A × S → (A → R) → Outcome R × S
then_reply (answers a, s) f = (answers (f a), s)
then_reply (fails e, s) f = (fails e, s)
then_reply (panics, s) f = (panics, s)

abbrev models_page : ℤ → List ModelInfo → ModelsPage
models_page offset infos = record {
  model_infos = infos;
  next_model_handle = format_int (advance_offset offset (length infos));
}

-- The number after that of the last retrieved version, or the initial one.
unfoldable pub next_version : ℕ → List VersionInfo → ℕ
next_version number [] = number
next_version number (info ∷ infos) = next_version ((info.version_number + 1) % uint_mod) infos

abbrev versions_page : ℕ → List VersionInfo → VersionsPage
unfolding next_version make_pb_model_version_info
versions_page initial infos = record {
  version_infos = map make_pb_model_version_info infos;
  next_version_handle = format_uint (next_version initial infos);
}

-- An empty handle asks for the start.
abbrev pub model_offset : List ℕ → Option ℤ
model_offset [] = some (pos 0)
model_offset (c ∷ handle) = parse_int (c ∷ handle)

abbrev pub initial_number : List ℕ → Option ℕ
initial_number [] = some 0
initial_number (c ∷ handle) = parse_uint (c ∷ handle)

module _ {S : Type 0} (b : Backend S) (ready : Bool) where
  abbrev created_reply : (ModelInfo × Option Error) × S → Outcome (Unit {0}) × S
  created_reply ((info, none), s) = (answers tt, s)
  created_reply ((info, some e), s) = (fails (internal e), s)

  unfoldable pub create_or_update_model : Option ModelInfo → S → Outcome (Unit {0}) × S
  create_or_update_model none s = (panics, s)
  create_or_update_model (some info) s =
      await ready s (created_reply (b.create_or_update_model info s))

  unfoldable pub delete_model : String → S → Outcome (Unit {0}) × S
  delete_model id s =
      await ready s (serve (b.delete_model id s) unknown_model_status (λ done s'. (answers tt, s')))

  abbrev retrieve_selected : ℤ → Option (List String) → S → Outcome ModelsPage × S
  retrieve_selected offset none s = (panics, s)
  retrieve_selected offset (some ids) s =
      then_reply (retrieve_each b.retrieve_model_info unknown_model_status ids [] s)
        (models_page offset)

  abbrev retrieve_models_from :
      Option ℤ → List String → List String → ℕ → S → Outcome ModelsPage × S
  retrieve_models_from none ids spare count s = (fails invalid_argument, s)
  retrieve_models_from (some offset) [] spare count s = await ready s (
      serve (b.list_models offset (pos count) s) internal
        (λ infos s'. (answers (models_page offset infos), s')))
  retrieve_models_from (some offset) (id ∷ ids) spare count s =
      await ready s (retrieve_selected offset (slice offset count (id ∷ ids) spare) s)

  unfoldable pub retrieve_models :
      List String → List String → ℕ → List ℕ → S → Outcome ModelsPage × S
  unfolding parse_int format_int slice retrieve_each
  retrieve_models ids spare count handle s =
      retrieve_models_from (model_offset handle) ids spare count s

  abbrev retrieve_numbers : String → ℕ → Option (List ℤ) → S → Outcome VersionsPage × S
  retrieve_numbers id initial none s = (panics, s)
  retrieve_numbers id initial (some numbers) s =
      then_reply (retrieve_each (b.retrieve_model_version_info id) unknown_status numbers [] s)
        (versions_page initial)

  abbrev retrieve_versions_from :
      String → Option ℕ → List ℤ → List ℤ → ℕ → S → Outcome VersionsPage × S
  retrieve_versions_from id none numbers spare count s = (fails invalid_argument, s)
  retrieve_versions_from id (some initial) [] spare count s = await ready s (
      serve (b.list_model_version_infos id initial (pos count) s) unknown_model_status
        (λ infos s'. (answers (versions_page initial infos), s')))
  retrieve_versions_from id (some initial) (n ∷ numbers) spare count s =
      await ready s (retrieve_numbers id initial (slice (pos initial) count (n ∷ numbers) spare) s)

  unfoldable pub retrieve_version_infos :
      String → List ℤ → List ℤ → ℕ → List ℕ → S → Outcome VersionsPage × S
  unfolding parse_uint format_uint slice retrieve_each next_version make_pb_model_version_info
  retrieve_version_infos id numbers spare count handle s =
      retrieve_versions_from id (initial_number handle) numbers spare count s
