-- ===== src/Registry/Server/Watch.antt =====
-- modelRegistryServer.go: VersionUpdate, which sends the latest version of a model whenever it is a
-- later one than the last that was sent. The handler takes turns with the requests that create
-- versions, which change the store and then broadcast: a run is a list of such events. A broadcast
-- reaches the handler only while it is in `Wait`.
use cogment.Prelude.{ℕ, Bool, true, false, List, [], ◌∷◌, ◌++◌, ◌==◌, ltb, if◌then◌else◌, String}
use cogment.Registry.Types.{VersionInfo, Result, ok, err, Backend}
use cogment.Registry.Server.{
  invalid_argument, canceled, stream_failed, returned, Outcome, answers, fails, PbVersionInfo,
  make_pb_model_version_info,
}

pub data Phase : Type 0 where
  retrieves : Phase  -- at the top of the loop
  locks : Phase  -- before `newVersion.Wait`
  waits : Phase
  wakes : Phase  -- after it
  finished : Outcome (Unit {0}) → Phase

pub record Watcher (S : Type 0) : Type 0 where
  pub store : S
  pub phase : Phase
  pub last_version : ℕ
  pub sent : List PbVersionInfo

-- A turn of the handler has what its stream does: whether it takes a message, and whether its context
-- is still open.
pub data Event (S : Type 0) : Type 0 where
  stores : S → Event S
  broadcasts : Event S
  turns : Bool → Bool → Event S

module _ {S : Type 0} (b : Backend S) (id : String) where
  abbrev watch_known : Result Bool × S → Watcher S
  watch_known (err e, s) = record {
    store = s;
    phase = finished (fails (returned e));
    last_version = 0;
    sent = [];
  }
  watch_known (ok false, s) = record {
    store = s;
    phase = finished (fails invalid_argument);
    last_version = 0;
    sent = [];
  }
  watch_known (ok true, s) = record { store = s; phase = retrieves; last_version = 0; sent = [] }

  unfoldable pub start_watch : Bool → S → Watcher S
  start_watch ready s =
      if ready
      then watch_known (b.has_model id s)
      else record { store = s; phase = finished (fails canceled); last_version = 0; sent = [] }

  -- What is done with the latest version.
  abbrev pub send_latest : Bool → Watcher S → Result VersionInfo × S → Watcher S
  send_latest takes w (err e, s) = record w { store = s; phase = finished (fails (returned e)) }
  send_latest takes w (ok info, s) =
      if ltb w.last_version info.version_number
      then (if takes
          then record w {
            store = s;
            phase = locks;
            last_version = info.version_number;
            sent = w.sent ++ make_pb_model_version_info info ∷ [];
          }
          else if w.last_version == 0
          then record w { store = s; phase = finished (fails stream_failed) }
          else record w { store = s; phase = finished (answers tt) })
      else record w { store = s; phase = locks }

  unfoldable pub take_turn : Bool → Bool → Watcher S → Phase → Watcher S
  unfolding make_pb_model_version_info
  take_turn takes alive w retrieves =
      send_latest takes w (b.retrieve_model_last_version_info id w.store)
  take_turn takes alive w locks = record w { phase = waits }
  take_turn takes alive w waits = w
  take_turn takes alive w wakes =
      if alive then record w { phase = retrieves } else record w { phase = finished (answers tt) }
  take_turn takes alive w (finished o) = w

  abbrev pub woken : Watcher S → Phase → Watcher S
  woken w waits = record w { phase = wakes }
  woken w retrieves = w
  woken w locks = w
  woken w wakes = w
  woken w (finished o) = w

  unfoldable pub version_update_step : Watcher S → Event S → Watcher S
  unfolding take_turn
  version_update_step w (stores s) = record w { store = s }
  version_update_step w broadcasts = woken w w.phase
  version_update_step w (turns takes alive) = take_turn takes alive w w.phase

  unfoldable pub version_update : Watcher S → List (Event S) → Watcher S
  unfolding version_update_step
  version_update w [] = w
  version_update w (e ∷ es) = version_update (version_update_step w e) es
