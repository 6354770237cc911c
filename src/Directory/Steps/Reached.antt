-- ===== src/Directory/Steps/Reached.antt =====
-- Whatever the directory server does, its map has each id once, never 0, and each record knows its id.
use mathlib.Core.Path.{subst}
use cogment.Prelude.{
  ℕ, ◌≡◌, ◌≢◌, refl, sym, ap, ◌∙◌, inl, inr, String, Bool, Option, none, some, List, [], ◌∷◌, ◌==◌,
  ◌||◌, arith, All, Bool-cases, Option-cases, id_key, str_eq,
}
use cogment.Prelude.Dict.{lookup, KeysOnce}
use cogment.Directory.Db.{
  ServiceEndpoint, ServiceDetails, DbRecord, Services, Persistence, MemoryDb, reload,
  make_memory_db, select_by_details, get_new_service_id, reloaded, insert_record,
}
use cogment.Directory.Db.Select.{IsKeyed, insert_record-IsKeyed, delete_record-IsKeyed}
use cogment.Directory.Db.Restart.{lookup-reload}
use cogment.Directory.Health.{Probe, health_check, write_back}
use cogment.Directory.Server.{
  ServerParameters, RegisterRequest, DeregisterRequest, RegisterReply, Fortune, Result, ok, err,
  Outcome, answers, panics, draws_on, db_update, new_record, db_register, register_valid,
  register_given, register, registered, updated, deregister, bad_protocol, bad_service_type,
}
use cogment.Directory.Server.Registration.{deregister-cases}
use cogment.Directory.Inquire.{
  Inquiry, service_id, details, nothing, add_matches, check_matches, matches_of, db_inquire,
}
use cogment.Directory.Inquire.Matches.{add_matches_iff}
use cogment.Directory.Inquire.Order.{All-In}
use cogment.Directory.Db.Laws.{insert_record_lem, stamped}
use cogment.Directory.Steps.Keyed.{
  Keyed, named_at, checked-IsKeyed, scan-IsKeyed, db_update-IsKeyed,
}
use cogment.Directory.Steps.{Step, registers, deregisters, inquires, scans, Reach, starts, steps}

abbrev Registered : Option (MemoryDb × ℕ × String) → Type 0
Registered none = Unit
Registered (some (md, id, secret)) = Keyed md

-- A registration that is answered leaves a good map.
abbrev Answer : Outcome (MemoryDb × RegisterReply) → Type 0
Answer (answers (md, reply)) = Keyed md
Answer panics = Unit
Answer draws_on = Unit

insert_record-none :
    (md : MemoryDb) (r : DbRecord) (draws : List ℕ) (now : ℕ)
    → get_new_service_id md.services draws ≡ none
    → insert_record md r draws now ≡ none
unfolding insert_record
insert_record-none md r draws now e = rw (e, insert_record) refl

module _ (params : ServerParameters) (endpoint : ServiceEndpoint) (wanted : ServiceDetails)
    (permanent : Bool) (token : String) (f : Fortune) where
  db_register-IsKeyed :
      (md : MemoryDb)
      → Keyed md
      → Registered (db_register params md endpoint wanted permanent token f)
  unfolding db_register
  db_register-IsKeyed md v =
      let r = new_record endpoint wanted (params.force_permanent || permanent) token f.new_secret in
      elim (Option-cases (get_new_service_id md.services f.draws)) [
        | inl e ↦ rw (insert_record-none md r f.draws f.now e) tt
        | inr (id, e) ↦
            let (md1, i, z, n, at) = insert_record_lem md r f.draws f.now id e in
            rw i
              (checked-IsKeyed f.probe md1 (stamped r id f.now) f.now 3 z
                (insert_record-IsKeyed md md1 r (stamped r id f.now) f.draws f.now v i)).1
      ]

  registered-IsKeyed :
      (md : MemoryDb) (o : Option (MemoryDb × ℕ × String)) → Registered o → Answer (registered md o)
  registered-IsKeyed md none h = tt
  registered-IsKeyed md (some (md', id, secret)) h = h

  updated-IsKeyed :
      (x : MemoryDb × Result (ℕ × String)) (next : MemoryDb → Outcome (MemoryDb × RegisterReply))
      → Keyed x.0
      → ((md : MemoryDb) → Keyed md → Answer (next md))
      → Answer (updated x next)
  updated-IsKeyed (md, err e) next v h = v
  updated-IsKeyed (md, ok (id, secret)) next v h = elim (Bool-cases (id == 0)) [
    | inl e ↦ rw e (h md v)
    | inr e ↦ rw e v
  ]

  register_valid-IsKeyed :
      (md : MemoryDb)
      → Keyed md
      → Answer (register_valid params md endpoint wanted permanent token f)
  unfolding register_valid
  register_valid-IsKeyed md v =
      updated-IsKeyed (db_update params md endpoint wanted permanent token f.now)
        (λ md'. registered md' (db_register params md' endpoint wanted permanent token f))
        (db_update-IsKeyed params md v endpoint wanted permanent token f.now)
        (λ md' w.
          registered-IsKeyed md' (db_register params md' endpoint wanted permanent token f)
            (db_register-IsKeyed md' w))

  register_given-IsKeyed :
      (md : MemoryDb)
      → Keyed md
      → Answer (register_given params md permanent token f endpoint wanted)
  unfolding register_given
  register_given-IsKeyed md v = elim (Bool-cases (str_eq endpoint.host "")) [
    | inl h ↦ rw h v
    | inr h ↦ elim (Bool-cases (bad_protocol endpoint.protocol)) [
      | inl p ↦ rw (h, p) v
      | inr p ↦ elim (Bool-cases (bad_service_type wanted.type)) [
        | inl t ↦ rw (h, p, t) v
        | inr t ↦ rw (h, p, t) (register_valid-IsKeyed md v)
      ]
    ]
  ]

register-IsKeyed :
    (params : ServerParameters) (md : MemoryDb) (request : RegisterRequest) (token : String)
    (f : Fortune)
    → Keyed md
    → Answer (register params md request token f)
unfolding register
register-IsKeyed params md request token f v = elim (Option-cases request.endpoint) [
  | inl e ↦ rw e tt
  | inr (endpoint, e) ↦ elim (Option-cases request.details) [
    | inl d ↦ rw (e, d) tt
    | inr (wanted, d) ↦
        rw (e, d) (register_given-IsKeyed params endpoint wanted request.permanent token f md v)
  ]
]

deregister-IsKeyed :
    (md : MemoryDb) (request : DeregisterRequest) (token : String)
    → Keyed md
    → Keyed (deregister md request token).0
deregister-IsKeyed md request token v = elim (deregister-cases md request token) [
  | inl (o, e) ↦ rw e (delete_record-IsKeyed md request.service_id v)
  | inr (n, x, e) ↦ rw e v
]

check_matches-IsKeyed :
    (probes : ℕ → Probe) (now : ℕ) (md : MemoryDb) (rs : List DbRecord)
    → All (λ r. r.sid ≢ 0) rs
    → Keyed md
    → Keyed (check_matches probes now md rs).0
unfolding check_matches
check_matches-IsKeyed probes now md [] h v = v
check_matches-IsKeyed probes now md (r ∷ rs) (z, h) v =
    let r' = (health_check (probes r.sid) r now 1).0 in
    check_matches-IsKeyed probes now (write_back md r'.sid r') rs h
      (checked-IsKeyed (probes r.sid) md r now 1 z v).0

matches_named :
    (token : String) (md : MemoryDb) (ids : List ℕ)
    → Keyed md
    → All (λ r. r.sid ≢ 0) (add_matches token md ids)
matches_named token md ids v = All-In (add_matches token md ids) (λ r i.
    let (id, k, e, a) = (add_matches_iff token md ids r).0 i in
    let (s, z) = named_at md id r v e in λ q. z (sym s ∙ q))

matches_of-IsKeyed :
    (params : ServerParameters) (probes : ℕ → Probe) (now : ℕ) (md : MemoryDb) (token : String)
    (ids : List ℕ)
    → Keyed md
    → Keyed (matches_of params probes now md token ids).0
unfolding matches_of
matches_of-IsKeyed params probes now md token ids v = elim (Bool-cases params.check_on_inquire) [
  | inr c ↦ rw c v
  | inl c ↦ rw c (
      check_matches-IsKeyed probes now md (add_matches token md ids) (matches_named token md ids v)
        v)
]

db_inquire-IsKeyed :
    (params : ServerParameters) (probes : ℕ → Probe) (now : ℕ) (md : MemoryDb) (inquiry : Inquiry)
    (token : String)
    → Keyed md
    → Keyed (db_inquire params probes now md inquiry token).0
unfolding db_inquire
db_inquire-IsKeyed params probes now md (service_id id) token v =
    matches_of-IsKeyed params probes now md token (id ∷ []) v
db_inquire-IsKeyed params probes now md (details d) token v =
    matches_of-IsKeyed params probes now md token (select_by_details md d) v
db_inquire-IsKeyed params probes now md nothing token v = v

-- From a map with each id once, never 0 and known to its record, registrations, deregistrations,
-- inquiries and scans, in any order and number, lead to such maps only.
pub Reach-IsKeyed :
    (params : ServerParameters) (start md : MemoryDb)
    → Reach params start md
    → IsKeyed start.services
    → IsKeyed md.services
Reach-IsKeyed params start md starts v = v
Reach-IsKeyed params start md (steps md1 _ r s) v = step s (Reach-IsKeyed params start md1 r v)
  where
    step : {a b : MemoryDb} → Step params a b → Keyed a → Keyed b
    step (registers a b request token f reply e) w =
        subst Answer e (register-IsKeyed params a request token f w)
    step (deregisters a request token) w = deregister-IsKeyed a request token w
    step (inquires a probes now inquiry token) w =
        db_inquire-IsKeyed params probes now a inquiry token w
    step (scans a probes now immediate) w = scan-IsKeyed probes now immediate a w

reload-KeysOnce : (m : Services) → KeysOnce m → KeysOnce (reload m)
unfolding reload
reload-KeysOnce [] h = tt
reload-KeysOnce ((id, r) ∷ m) (n, h) = (lookup-reload m id ∙ rw n refl, reload-KeysOnce m h)

-- A directory that starts again from a file of a good map has a good map.
pub make_memory_db-IsKeyed :
    (file : Persistence) → IsKeyed file.content → IsKeyed (make_memory_db (some file)).services
unfolding make_memory_db
make_memory_db-IsKeyed file v = record {
  once = reload-KeysOnce file.content v.once;
  named = λ id r e. elim (Option-cases (lookup id file.content)) [
    | inl n ↦ absurd (ground (arith, lookup-reload file.content id))
    | inr (r', l) ↦
        let (s, z) = v.named id r' l in
        let p : reloaded r' ≡ r = ground (arith, lookup-reload file.content id) in
        (sym (ap (λ x. x.sid) p) ∙ s, z)
  ];
}
