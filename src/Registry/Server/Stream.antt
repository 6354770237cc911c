-- ===== src/Registry/Server/Stream.antt =====
-- modelRegistryServer.go: CreateVersion, which receives a version in chunks, and RetrieveVersionData,
-- which sends one in chunks. A stream of requests is its chunks and how it ends; a stream of replies
-- takes some number of messages and then fails.
use cogment.Prelude.{
  ℕ, zero, suc, ◌+◌, ◌-◌, String, Bool, true, false, not, Option, none, some, List, [], ◌∷◌, ◌++◌,
  ◌==◌, ltb, leb, ◌&&◌, if◌then◌else◌, length, take, drop, str_eq,
}
use cogment.Registry.Types.{ℤ, VersionInfo, VersionArgs, Result, ok, err, Backend}
use cogment.Registry.Server.{
  invalid_argument, canceled, stream_failed, internal, Outcome, answers, fails, panics,
  PbVersionInfo, make_pb_model_version_info, unknown_status,
}

-- A message has a header, whose version information may lack, or a body, or neither.
pub data Chunk : Type 0 where
  header : Option PbVersionInfo → Chunk
  body : List ℕ → Chunk
  neither : Chunk

pub record InStream : Type 0 where
  pub chunks : List Chunk
  pub ends_well : Bool
  pub takes_reply : Bool

-- The loop of CreateVersion; the information that the header lacks is read where the stream ends.
unfoldable pub receive_body :
    Option PbVersionInfo → Bool → List Chunk → List ℕ → Outcome (PbVersionInfo × List ℕ)
receive_body info false [] model_data = fails stream_failed
receive_body none true [] model_data = panics
receive_body (some info) true [] model_data =
    if length model_data == info.data_size
    then answers (info, model_data)
    else fails invalid_argument
receive_body info ends_well (body d ∷ chunks) model_data =
    receive_body info ends_well chunks (model_data ++ d)
receive_body info ends_well (header h ∷ chunks) model_data = fails invalid_argument
receive_body info ends_well (neither ∷ chunks) model_data = fails invalid_argument

abbrev receive_first : Bool → List Chunk → Outcome (PbVersionInfo × List ℕ)
receive_first true [] = fails invalid_argument
receive_first false [] = fails stream_failed
receive_first ends_well (header info ∷ chunks) = receive_body info ends_well chunks []
receive_first ends_well (body d ∷ chunks) = fails invalid_argument
receive_first ends_well (neither ∷ chunks) = fails invalid_argument

unfoldable pub receive_version : InStream → Outcome (PbVersionInfo × List ℕ)
unfolding receive_body
receive_version stream = receive_first stream.ends_well stream.chunks

-- What a request to create a version leaves: the answer, whether those who wait for a new version were
-- woken, and the state of the backend.
pub record Creation (S : Type 0) : Type 0 where
  pub outcome : Outcome PbVersionInfo
  pub broadcast : Bool
  pub store : S

abbrev pub received_args : PbVersionInfo → List ℕ → String → ℕ → VersionArgs
received_args info model_data received_hash now = record {
  version_number = 0;
  creation_timestamp = if ltb 0 info.creation_timestamp then info.creation_timestamp else now;
  archived = info.archived;
  data_hash = received_hash;
  bytes = model_data;
  user_data = info.user_data;
}

-- `hash` is ComputeSHA256Hash, the SHA-256 of the data in base64.
module _ {S : Type 0} (hash : List ℕ → String) (b : Backend S) (ready : Bool) (now : ℕ) where
  abbrev stored_reply : Bool → Result VersionInfo × S → Creation S
  stored_reply takes_reply (ok info, s) = record {
    outcome =
        if takes_reply then answers (make_pb_model_version_info info) else fails stream_failed;
    broadcast = true;
    store = s;
  }
  stored_reply takes_reply (err e, s) = record {
    outcome = fails (internal e);
    broadcast = false;
    store = s;
  }

  abbrev refused : Outcome PbVersionInfo → S → Creation S
  refused outcome s = record { outcome = outcome; broadcast = false; store = s }

  abbrev store_received : Bool → Outcome (PbVersionInfo × List ℕ) → S → Creation S
  store_received takes_reply (fails e) s = refused (fails e) s
  store_received takes_reply panics s = refused panics s
  store_received takes_reply (answers (info, model_data)) s =
      if not (str_eq info.data_hash "") && not (str_eq info.data_hash (hash model_data))
      then refused (fails invalid_argument) s
      else if not ready
      then refused (fails canceled) s
      else stored_reply takes_reply (
          b.create_or_update_model_version info.model_id
            (received_args info model_data (hash model_data) now) s)

  unfoldable pub create_version : InStream → S → Creation S
  unfolding receive_version make_pb_model_version_info
  create_version stream s = store_received stream.takes_reply (receive_version stream) s

-- The loop of RetrieveVersionData from index `i` on, over a stream that takes `accepted` messages; a
-- round for each byte is enough, since the size of the chunks is positive.
unfoldable pub send_from : ℕ → ℕ → List ℕ → ℕ → ℕ → List (List ℕ) × Outcome (Unit {0})
send_from zero size model_data accepted i = ([], answers tt)
send_from (suc rounds) size model_data zero i =
    ([], if ltb i (length model_data) then fails stream_failed else answers tt)
send_from (suc rounds) size model_data (suc accepted) i =
    let rest = send_from rounds size model_data accepted (i + size) in
    let end : ℕ = if leb (length model_data) (i + size) then length model_data else i + size in
    if ltb i (length model_data)
    then (take (end - i) (drop i model_data) ∷ rest.0, rest.1)
    else ([], answers tt)

-- An empty version is one empty chunk.
unfoldable pub send_data : ℕ → List ℕ → ℕ → List (List ℕ) × Outcome (Unit {0})
unfolding send_from
send_data size [] zero = ([], fails stream_failed)
send_data size [] (suc accepted) = ([] ∷ [], answers tt)
send_data size (x ∷ xs) accepted = send_from (length (x ∷ xs)) size (x ∷ xs) accepted 0

module _ {S : Type 0} (b : Backend S) (ready : Bool) (size accepted : ℕ) where
  abbrev data_reply : Result (List ℕ) × S → (List (List ℕ) × Outcome (Unit {0})) × S
  data_reply (ok model_data, s) = (send_data size model_data accepted, s)
  data_reply (err e, s) = (([], fails (unknown_status e)), s)

  -- The chunks that were sent, and how the call ends.
  unfoldable pub retrieve_version_data : String → ℤ → S → (List (List ℕ) × Outcome (Unit {0})) × S
  unfolding send_data
  retrieve_version_data id number s =
      if ready
      then data_reply (b.retrieve_model_version_data id number s)
      else (([], fails canceled), s)
