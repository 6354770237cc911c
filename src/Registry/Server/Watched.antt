-- ===== src/Registry/Server/Watched.antt =====
-- What a client of VersionUpdate sees.
use mathlib.Core.List.{append-nil, append_assoc, map-append}
use cogment.Prelude.{
  map, inl, inr, ltb→lt, ℕ, zero, suc, ◌<◌, ◌≡◌, ◌∙◌, refl, sym, ap, String, Bool, true, false,
  List, [], ◌∷◌, ◌++◌, ◌==◌, ltb, replicate, arith, Bool-cases,
}
use cogment.Registry.Types.{VersionInfo, Result, ok, err, Backend}
use cogment.Registry.Server.{PbVersionInfo, make_pb_model_version_info}
use cogment.Registry.Server.Watch.{
  send_latest, woken, Phase, retrieves, locks, waits, wakes, finished, Watcher, Event, stores,
  broadcasts, turns, take_turn, version_update_step, version_update,
}

-- The handler in a phase, with the version that it sent last.
abbrev pub watcher : {S : Type 0} → Phase → ℕ → List PbVersionInfo → S → Watcher S
watcher phase last sent s = record { store = s; phase = phase; last_version = last; sent = sent }

-- The numbers of the versions rise strictly, from above `low` up to `high`.
abbrev pub Rises : ℕ → List VersionInfo → ℕ → Type 0
Rises low [] high = low ≡ high
Rises low (info ∷ infos) high = (low < info.version_number) × Rises info.version_number infos high

-- What was sent between two states.
abbrev pub Sends : {S : Type 0} → Watcher S → Watcher S → Type 0
Sends w w' =
    (infos : List VersionInfo) × (w'.sent ≡ w.sent ++ map make_pb_model_version_info infos)
    × Rises w.last_version infos w'.last_version

Rises-append :
    (low mid high : ℕ) (xs ys : List VersionInfo)
    → Rises low xs mid
    → Rises mid ys high
    → Rises low (xs ++ ys) high
Rises-append low mid high [] ys h k = rw h k
Rises-append low mid high (x ∷ xs) ys h k =
    (h.0, Rises-append x.version_number mid high xs ys h.1 k)

nothing_sent :
    (sent : List PbVersionInfo) (last : ℕ)
    → (infos : List VersionInfo) × (sent ≡ sent ++ map make_pb_model_version_info infos)
      × Rises last infos last
nothing_sent sent last = ([], sym (append-nil sent), refl)

Sends-trans : {S : Type 0} (u v w : Watcher S) → Sends u v → Sends v w → Sends u w
Sends-trans u v w (xs, sent, rises) (ys, sent', rises') = (
  xs ++ ys,
  sent'
      ∙ ap (λ l. l ++ map make_pb_model_version_info ys) sent
      ∙ append_assoc u.sent (map make_pb_model_version_info xs) (map make_pb_model_version_info ys)
      ∙ ap (◌++◌ u.sent) (sym (map-append make_pb_model_version_info xs ys)),
  Rises-append u.last_version v.last_version w.last_version xs ys rises rises',
)

module _ {S : Type 0} (b : Backend S) (id : String) where
  -- A client that waits when a later version is stored and broadcast is sent that version in the next
  -- two turns of the handler, while its context is open and its stream takes messages.
  pub version_update-sends :
      (last : ℕ) (sent : List PbVersionInfo) (s0 s s' : S) (info : VersionInfo)
      → b.retrieve_model_last_version_info id s ≡ (ok info, s')
      → last < info.version_number
      → version_update b id
          (watcher waits last sent s0)
          (stores s ∷ broadcasts ∷ turns true true ∷ turns true true ∷ [])
        ≡ watcher locks info.version_number (sent ++ make_pb_model_version_info info ∷ []) s'
  unfolding version_update
  version_update-sends last sent s0 s s' info latest later = rw latest (ground arith)

  idle_turns :
      (n last : ℕ) (sent : List PbVersionInfo) (s : S)
      → version_update b id (watcher waits last sent s) (replicate n (turns true true))
        ≡ watcher waits last sent s
  unfolding version_update
  idle_turns zero last sent s = refl
  idle_turns (suc n) last sent s = idle_turns n last sent s

  idle_then_broadcast :
      (n last : ℕ) (sent : List PbVersionInfo) (s s' : S) (info : VersionInfo)
      → b.retrieve_model_last_version_info id s ≡ (ok info, s')
      → last < info.version_number
      → version_update b id
          (watcher waits last sent s)
          (replicate n (turns true true) ++ broadcasts ∷ turns true true ∷ turns true true ∷ [])
        ≡ watcher locks info.version_number (sent ++ make_pb_model_version_info info ∷ []) s'
  unfolding version_update
  idle_then_broadcast zero last sent s s' info latest later = rw latest (ground arith)
  idle_then_broadcast (suc n) last sent s s' info latest later =
      idle_then_broadcast n last sent s s' info latest later

  first_turn :
      (last : ℕ) (sent : List PbVersionInfo) (s0 s1 : S) (old : VersionInfo) (es : List (Event S))
      → b.retrieve_model_last_version_info id s0 ≡ (ok old, s1)
      → last < old.version_number
      → version_update b id (watcher retrieves last sent s0) (turns true true ∷ es)
        ≡ version_update b id
            (watcher locks old.version_number (sent ++ make_pb_model_version_info old ∷ []) s1)
            es
  unfolding version_update
  first_turn last sent s0 s1 old es first newer = rw first (ground arith)

  -- If a handler at the top of its loop retrieves and sends a version, and a later version is then stored
  -- and broadcast before the handler waits, it waits and does not send that version, however many turns
  -- it takes, while there is no other broadcast; after one more broadcast it sends it.
  pub version_update-misses :
      (n last : ℕ) (sent : List PbVersionInfo) (s0 s1 s s' : S) (old info : VersionInfo)
      → b.retrieve_model_last_version_info id s0 ≡ (ok old, s1)
      → last < old.version_number
      → b.retrieve_model_last_version_info id s ≡ (ok info, s')
      → old.version_number < info.version_number
      → (version_update b id (watcher retrieves last sent s0) (
            turns true true
            ∷ stores s
            ∷ broadcasts
            ∷ turns true true
            ∷ replicate n (turns true true))
          ≡ watcher waits old.version_number (sent ++ make_pb_model_version_info old ∷ []) s)
        × (version_update b id (watcher retrieves last sent s0) (
              turns true true
              ∷ stores s
              ∷ broadcasts
              ∷ turns true true
              ∷ (replicate n (turns true true)
                  ++ broadcasts ∷ turns true true ∷ turns true true ∷ []))
            ≡ watcher locks info.version_number
                ((sent ++ make_pb_model_version_info old ∷ [])
                  ++ make_pb_model_version_info info ∷ [])
                s')
  version_update-misses n last sent s0 s1 s s' old info first newer latest later =
      let sent' = sent ++ make_pb_model_version_info old ∷ [] in
      (
        first_turn last sent s0 s1 old
              (stores s ∷ broadcasts ∷ turns true true ∷ replicate n (turns true true)) first newer
            ∙ (unfold version_update in idle_turns n old.version_number sent' s),
        first_turn last sent s0 s1 old
              (stores s
                ∷ broadcasts
                ∷ turns true true
                ∷ (replicate n (turns true true)
                    ++ broadcasts ∷ turns true true ∷ turns true true ∷ []))
              first newer
            ∙ (unfold version_update in
                idle_then_broadcast n old.version_number sent' s s' info latest later),
      )

  send_latest-Sends :
      (takes : Bool) (w : Watcher S) (r : Result VersionInfo × S)
      → Sends w (send_latest b id takes w r)
  send_latest-Sends takes w (err e, s) = nothing_sent w.sent w.last_version
  send_latest-Sends takes w (ok info, s) =
      elim (Bool-cases (ltb w.last_version info.version_number)) [
        | inr old ↦ rw old (nothing_sent w.sent w.last_version)
        | inl later ↦ elim (Bool-cases takes) [
          | inl taken ↦ rw (later, taken) (info ∷ [], refl, (ltb→lt _ _ later, refl))
          | inr closed ↦ elim (Bool-cases (w.last_version == 0)) [
            | inl first ↦ rw (later, closed, first) (nothing_sent w.sent w.last_version)
            | inr other ↦ rw (later, closed, other) (nothing_sent w.sent w.last_version)
          ]
        ]
      ]

  turn-Sends :
      (takes alive : Bool) (w : Watcher S) (phase : Phase)
      → Sends w (take_turn b id takes alive w phase)
  unfolding take_turn
  turn-Sends takes alive w retrieves =
      send_latest-Sends takes w (b.retrieve_model_last_version_info id w.store)
  turn-Sends takes true w wakes = nothing_sent w.sent w.last_version
  turn-Sends takes false w wakes = nothing_sent w.sent w.last_version
  turn-Sends takes alive w locks = nothing_sent w.sent w.last_version
  turn-Sends takes alive w waits = nothing_sent w.sent w.last_version
  turn-Sends takes alive w (finished o) = nothing_sent w.sent w.last_version

  woken-Sends : (w : Watcher S) (phase : Phase) → Sends w (woken b id w phase)
  woken-Sends w retrieves = nothing_sent w.sent w.last_version
  woken-Sends w locks = nothing_sent w.sent w.last_version
  woken-Sends w waits = nothing_sent w.sent w.last_version
  woken-Sends w wakes = nothing_sent w.sent w.last_version
  woken-Sends w (finished o) = nothing_sent w.sent w.last_version

  step-Sends : (w : Watcher S) (e : Event S) → Sends w (version_update_step b id w e)
  unfolding version_update_step
  step-Sends w (stores s) = nothing_sent w.sent w.last_version
  step-Sends w broadcasts = woken-Sends w w.phase
  step-Sends w (turns takes alive) = turn-Sends takes alive w w.phase

  -- Over any run, whatever is stored and broadcast meanwhile, the versions that a client is sent have
  -- strictly rising numbers, above that of the version that it was sent last.
  pub version_update-Sends :
      (w : Watcher S) (es : List (Event S)) → Sends w (version_update b id w es)
  unfolding version_update
  version_update-Sends w [] = nothing_sent w.sent w.last_version
  version_update-Sends w (e ∷ es) =
      Sends-trans w (version_update_step b id w e)
        (version_update b id (version_update_step b id w e) es) (step-Sends w e)
        (version_update-Sends (version_update_step b id w e) es)
