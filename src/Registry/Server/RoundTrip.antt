-- ===== src/Registry/Server/RoundTrip.antt =====
-- The server over the memory cache: a version that was created can be retrieved.
use mathlib.Core.List.{append-nil, append_assoc}
use cogment.Prelude.{
  ℕ, ◌%◌, ◌^◌, ◌≤◌, ◌<◌, ◌≡◌, ◌∙◌, refl, ap, String, Bool, true, false, not, Option, some, List, [],
  ◌∷◌, ◌++◌, ◌&&◌, ◌||◌, length, str_eq, map, All, arith, flatten,
}
use cogment.Registry.Types.{pos, VersionInfo, ok, Backend}
use cogment.Registry.MemoryCache.{CachedVersion, CacheKey, LruCache, State}
use cogment.Registry.MemoryCache.Operations.{create_or_update_model_version}
use cogment.Registry.MemoryCache.Versions.{memory_cache}
use cogment.Registry.MemoryCache.Lru.{IsLru}
use cogment.Registry.MemoryCache.RoundTrip.{create-retrieve}
use cogment.Registry.Server.{answers, PbVersionInfo, make_pb_model_version_info}
use cogment.Registry.Server.Stream.{
  header, body, InStream, receive_body, receive_version, received_args, create_version, send_data,
  retrieve_version_data,
}
use cogment.Registry.Server.Transfer.{IsAtMost, send_data_lem}

receive_body-flatten :
    (info : PbVersionInfo) (ds : List (List ℕ)) (model_data : List ℕ)
    → length (model_data ++ flatten ds) ≡ info.data_size
    → receive_body (some info) true (map body ds) model_data
      ≡ answers (info, model_data ++ flatten ds)
unfolding receive_body
receive_body-flatten info [] model_data h = ground (arith, append-nil model_data)
receive_body-flatten info (d ∷ ds) model_data h =
    let e : (model_data ++ d) ++ flatten ds ≡ model_data ++ flatten (d ∷ ds) =
      append_assoc model_data d (flatten ds) in
    receive_body-flatten info ds (model_data ++ d) (ap length e ∙ h)
    ∙ ap (λ all. answers (info, all)) e

-- The stream of a well-formed upload: the header and the data in chunks.
abbrev pub upload : PbVersionInfo → List (List ℕ) → InStream
upload info ds = record {
  chunks = header (some info) ∷ map body ds;
  ends_well = true;
  takes_reply = true;
}

-- The hash is right, or was not given.
abbrev pub hash_matches : String → String → Bool
hash_matches given computed = str_eq given "" || str_eq given computed

pub receive-upload :
    (info : PbVersionInfo) (ds : List (List ℕ))
    → length (flatten ds) ≡ info.data_size
    → receive_version (upload info ds) ≡ answers (info, flatten ds)
unfolding receive_version
receive-upload info ds h = receive_body-flatten info ds [] h

no_mismatch : (a b : Bool) → (a || b) ≡ true → (not a && not b) ≡ false
no_mismatch a b h = ground arith

module _ {S C : Type 0} (ar : Backend S) (lru : LruCache C)
    {peek : CacheKey → C → Option CachedVersion} (lawful : IsLru lru peek) (hash : List ℕ → String)
    (now : ℕ) where
  create-upload :
      (info : PbVersionInfo) (ds : List (List ℕ)) (made : VersionInfo) (st st' : State S C)
      → length (flatten ds) ≡ info.data_size
      → hash_matches info.data_hash (hash (flatten ds)) ≡ true
      → create_or_update_model_version ar lru info.model_id
          (received_args info (flatten ds) (hash (flatten ds)) now)
          st
        ≡ (ok made, st')
      → create_version hash (memory_cache ar lru) true now (upload info ds) st ≡ record {
        outcome = answers (make_pb_model_version_info made);
        broadcast = true;
        store = st';
      }
  unfolding create_version
  create-upload info ds made st st' sized hashed stored =
      rw (receive-upload info ds sized) (rw (no_mismatch _ _ hashed) (rw stored refl))

  -- A version is uploaded in chunks `ds`, with its size and its hash, and stored through the memory
  -- cache under a positive number of 32 bits. The answer has that number, and those who wait for a
  -- new version are woken. Retrieving the data under the number of the answer then sends the same
  -- bytes, in chunks of at most the configured size, over a stream that takes enough messages.
  pub create-retrieve_version_data :
      (info : PbVersionInfo) (ds : List (List ℕ)) (made : VersionInfo) (st st' : State S C)
      (size accepted : ℕ)
      → length (flatten ds) ≡ info.data_size
      → hash_matches info.data_hash (hash (flatten ds)) ≡ true
      → create_or_update_model_version ar lru info.model_id
          (received_args info (flatten ds) (hash (flatten ds)) now)
          st
        ≡ (ok made, st')
      → 0 < made.version_number
      → made.version_number < 2 ^ 32
      → 0 < size
      → length (flatten ds) ≤ accepted
      → 0 < accepted
      → (answer : PbVersionInfo) × (chunks : List (List ℕ)) × (after : State S C) × (create_version
            hash
            (memory_cache ar lru)
            true
            now
            (upload info ds)
            st
          ≡ record { outcome = answers answer; broadcast = true; store = st' })
        × (retrieve_version_data
              (memory_cache ar lru)
              true
              size
              accepted
              info.model_id
              (pos answer.version_number)
              st'
            ≡ ((chunks, answers tt), after))
        × (flatten chunks ≡ flatten ds)
        × All (IsAtMost size) chunks
  unfolding retrieve_version_data make_pb_model_version_info
  create-retrieve_version_data info ds made st st' size accepted sized hashed stored positive small
        chunked enough nonzero =
      let (after, kept, read, known) =
        create-retrieve ar lru lawful info.model_id
          (received_args info (flatten ds) (hash (flatten ds)) now) made st st' stored positive in
      let (whole, short, ended) = send_data_lem size (flatten ds) accepted chunked enough nonzero in
      let same : made.version_number % 2 ^ 32 ≡ made.version_number = omega arith in
      (
        make_pb_model_version_info made,
        (send_data size (flatten ds) accepted).0,
        after,
        create-upload info ds made st st' sized hashed stored,
        rw same (rw read (ap (λ e. (((send_data size (flatten ds) accepted).0, e), after)) ended)),
        whole,
        short,
      )
