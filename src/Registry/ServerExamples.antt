-- ===== src/Registry/ServerExamples.antt =====
-- The theorems on the server of the model registry at concrete inputs.
use cogment.Prelude.{
  inr, ℕ, ◌+◌, ◌≤◌, ◌≡◌, refl, String, true, false, some, List, [], ◌∷◌, ◌++◌, length, string_key,
  replicate, flatten, All, arith,
}
use cogment.Registry.Types.{ok, pos, VersionInfo, pure, Backend}
use cogment.Registry.MemoryCache.{State}
use cogment.Registry.MemoryCache.Versions.{memory_cache}
use cogment.Registry.MemoryCache.Lru.{bounded_lru, bounded_lru-IsLru}
use cogment.Registry.Server.{
  answers, panics, PbVersionInfo, VersionsPage, ModelsPage, make_pb_model_version_info,
  retrieve_models, retrieve_version_infos, model_offset,
}
use cogment.Registry.Server.Stream.{create_version, retrieve_version_data, send_data}
use cogment.Registry.Server.Transfer.{IsAtMost, send_data_lem}
use cogment.Registry.Server.RoundTrip.{upload, create-retrieve_version_data}
use cogment.Registry.Server.Paging.{
  retrieve_models-panics, retrieve_models-next, retrieve_version_infos-next,
}
use cogment.Registry.Server.Watch.{
  retrieves, locks, waits, stores, broadcasts, turns, version_update,
}
use cogment.Registry.Server.Watched.{
  watcher, Sends, version_update-sends, version_update-misses, version_update-Sends,
}
use cogment.Registry.Examples.{Archive, Cache, small_archive, info_of, two_models, program}
use cogment.Utils.Decimal.{format_int}

-- The small archive, with the information of every model.
abbrev library : Backend Archive
library = record small_archive {
  retrieve_model_info = λ id. pure (record { model_id = id; user_data = [] });
  retrieve_model_last_version_info = λ id. pure (info_of id 4 []);
}

send_data_lem_example :
    (flatten (send_data 2 (5 ∷ 6 ∷ 7 ∷ []) 3).0 ≡ 5 ∷ 6 ∷ 7 ∷ [])
    × All (IsAtMost 2) (send_data 2 (5 ∷ 6 ∷ 7 ∷ []) 3).0
    × ((send_data 2 (5 ∷ 6 ∷ 7 ∷ []) 3).1 ≡ answers tt)
send_data_lem_example = send_data_lem 2 (5 ∷ 6 ∷ 7 ∷ []) 3 (omega arith) (omega arith) (omega arith)

two_chunks : send_data 2 (5 ∷ 6 ∷ 7 ∷ []) 3 ≡ ((5 ∷ 6 ∷ []) ∷ (7 ∷ []) ∷ [], answers tt)
unfolding send_data
two_chunks = refl

abbrev model_head : PbVersionInfo
model_head = record {
  model_id = "m";
  version_number = 0;
  creation_timestamp = 12;
  archived = false;
  data_hash = "";
  data_size = 3;
  user_data = [];
}

abbrev made : VersionInfo
made = record {
  model_id = "m";
  version_number = 4;
  creation_timestamp = 12;
  archived = false;
  data_hash = "sum";
  data_size = 3;
  user_data = [];
}

abbrev halves : List (List ℕ)
halves = (5 ∷ []) ∷ (6 ∷ 7 ∷ []) ∷ []

abbrev uploaded : State Archive Cache
unfolding program
uploaded =
    (create_version (λ bytes. "sum") (memory_cache small_archive (bounded_lru 9)) true 30
      (upload model_head halves) two_models).store

create-retrieve_version_data_example :
    (answer : PbVersionInfo) × (chunks : List (List ℕ)) × (after : State Archive Cache)
    × (create_version
          (λ bytes. "sum")
          (memory_cache small_archive (bounded_lru 9))
          true
          30
          (upload model_head halves)
          two_models
        ≡ record { outcome = answers answer; broadcast = true; store = uploaded })
    × (retrieve_version_data
          (memory_cache small_archive (bounded_lru 9))
          true
          2
          3
          "m"
          (pos answer.version_number)
          uploaded
        ≡ ((chunks, answers tt), after))
    × (flatten chunks ≡ flatten halves)
    × All (IsAtMost 2) chunks
unfolding program uploaded create_version
create-retrieve_version_data_example =
    create-retrieve_version_data small_archive (bounded_lru 9) (bounded_lru-IsLru 9)
      (λ bytes. "sum") 30 model_head halves made two_models uploaded 2 3 refl refl refl
      (omega arith) (omega arith) (omega arith) (omega arith) (omega arith)

retrieve_models-panics_example :
    retrieve_models library true
      ("a" ∷ "b" ∷ [])
      ("" ∷ [])
      3
      (format_int (pos 1))
      two_models.archive
    ≡ (panics, two_models.archive)
retrieve_models-panics_example =
    retrieve_models-panics library "a" ("b" ∷ []) ("" ∷ []) 3 1 two_models.archive (omega arith)
      (omega arith) (inr (omega arith))

abbrev last_page : ModelsPage
last_page = record {
  model_infos =
      record { model_id = "b"; user_data = [] } ∷ record { model_id = ""; user_data = [] } ∷ [];
  next_model_handle = b'3' ∷ [];
}

retrieve_models-next_example :
    (1 ≤ length {A = String} ("a" ∷ "b" ∷ []))
    × (1 + 2 ≤ length {A = String} ("a" ∷ "b" ∷ []) + length {A = String} ("" ∷ []))
    × (length last_page.model_infos ≡ 2)
    × (model_offset last_page.next_model_handle ≡ some (pos 3))
unfolding retrieve_models
retrieve_models-next_example =
    retrieve_models-next library "a" ("b" ∷ []) ("" ∷ []) 2 1 last_page two_models.archive
      two_models.archive (omega arith) (omega arith) refl

retrieve_version_infos-next_example :
    (page : VersionsPage) × (retrieve_version_infos library true "m"
        (pos 3 ∷ [])
        []
        0
        []
        two_models.archive
      ≡ (answers page, two_models.archive))
    × (page.version_infos ≡ make_pb_model_version_info (info_of "m" 3 (8 ∷ 9 ∷ [])) ∷ [])
    × (retrieve_version_infos library true "m"
          (pos 3 ∷ [])
          []
          0
          page.next_version_handle
          two_models.archive
        ≡ (panics, two_models.archive))
unfolding program
retrieve_version_infos-next_example =
    retrieve_version_infos-next library "m" 3 [] (info_of "m" 3 (8 ∷ 9 ∷ [])) two_models.archive
      two_models.archive (omega arith) (omega arith) refl refl

version_update-sends_example :
    version_update library "m"
      (watcher waits 3 [] [])
      (stores [] ∷ broadcasts ∷ turns true true ∷ turns true true ∷ [])
    ≡ watcher locks 4 ([] ++ make_pb_model_version_info (info_of "m" 4 []) ∷ []) []
version_update-sends_example =
    version_update-sends library "m" 3 [] [] [] [] (info_of "m" 4 []) refl (omega arith)

-- The latest version has the number of the archive's entries.
abbrev counting : Backend Archive
counting = record small_archive {
  retrieve_model_last_version_info = λ id s. (ok (info_of id (length s) []), s);
}

version_update-misses_example :
    (version_update counting "m" (watcher retrieves 0 [] ((("m", 1), []) ∷ [])) (
        turns true true
        ∷ stores two_models.archive
        ∷ broadcasts
        ∷ turns true true
        ∷ replicate 5 (turns true true))
      ≡ watcher waits 1
          ([] ++ make_pb_model_version_info (info_of "m" 1 []) ∷ [])
          two_models.archive)
    × (version_update counting "m" (watcher retrieves 0 [] ((("m", 1), []) ∷ [])) (
          turns true true
          ∷ stores two_models.archive
          ∷ broadcasts
          ∷ turns true true
          ∷ (replicate 5 (turns true true) ++ broadcasts ∷ turns true true ∷ turns true true ∷ []))
        ≡ watcher locks 2
            (([] ++ make_pb_model_version_info (info_of "m" 1 []) ∷ [])
              ++ make_pb_model_version_info (info_of "m" 2 []) ∷ [])
            two_models.archive)
version_update-misses_example =
    version_update-misses counting "m" 5 0 [] ((("m", 1), []) ∷ []) ((("m", 1), []) ∷ [])
      two_models.archive two_models.archive (info_of "m" 1 []) (info_of "m" 2 []) refl (omega arith)
      refl (omega arith)

version_update-Sends_example : Sends (watcher retrieves 0 [] []) (
    version_update library "m"
      (watcher retrieves 0 [] [])
      (turns true true ∷ broadcasts ∷ turns true true ∷ []))
version_update-Sends_example =
    version_update-Sends library "m" (watcher retrieves 0 [] [])
      (turns true true ∷ broadcasts ∷ turns true true ∷ [])
