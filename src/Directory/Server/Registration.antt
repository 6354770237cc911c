-- ===== src/Directory/Server/Registration.antt =====
-- `Register` and `Deregister` of directoryServer.go: what is refused, what is stored, what is removed.
use mathlib.Core.Path.{subst}
use cogment.Prelude.{
  ℕ, ◌≤◌, ◌≡◌, ◌≢◌, refl, ◌∙◌, ◌⊎◌, inl, inr, String, true, false, none, some, ◌==◌, ◌&&◌,
  if◌then◌else◌, arith, Bool-cases, Option-cases, id_key, str_eq, eq_iff,
}
use cogment.Directory.Db.{
  ServiceEndpoint, ServiceDetails, DbRecord, MemoryDb, select_by_id, delete_record,
}
use cogment.Directory.Db.Laws.{select-delete_record}
use cogment.Directory.Server.{
  ServerParameters, RegisterRequest, DeregisterRequest, DirectoryError, Fortune, ok, err, answers,
  unknown_id, authentication_failure, empty_host, invalid_protocol, invalid_service_type,
  db_deregister, register, deregister, register_valid, register_given, bad_protocol,
  bad_service_type,
}

-- The service stands under the request's id, with the caller's token and the request's secret.
abbrev pub Owns : MemoryDb → DeregisterRequest → String → Type 0
Owns md request token =
    (r : DbRecord) × (select_by_id md request.service_id ≡ some r)
    × (r.authentication_token ≡ token)
    × (r.secret ≡ request.secret)

Owns-same :
    (md : MemoryDb) (request : DeregisterRequest) (token : String) (r : DbRecord)
    → select_by_id md request.service_id ≡ some r
    → Owns md request token
    → (str_eq r.authentication_token token && str_eq r.secret request.secret) ≡ true
Owns-same md request token r e (r', e', t, k) =
    let p : r' ≡ r = ground arith in
    subst (λ x. (str_eq x.authentication_token token && str_eq x.secret request.secret) ≡ true) p
      (ground (arith, eq_iff r'.authentication_token token, eq_iff r'.secret request.secret))

-- The two ways in which a deregistration ends.
pub deregister-cases :
    (md : MemoryDb) (request : DeregisterRequest) (token : String)
    → (Owns md request token
        × (deregister md request token ≡ (delete_record md request.service_id, ok tt)))
      ⊎ (¬ Owns md request token
          × (e : DirectoryError) × (deregister md request token ≡ (md, err e)))
unfolding deregister
deregister-cases md request token = elim (Option-cases (select_by_id md request.service_id)) [
  | inl e ↦ inr (λ (r, e', t, k). absurd (ground arith), unknown_id, rw (e, db_deregister) refl)
  | inr (r, e) ↦ elim (Bool-cases (str_eq r.authentication_token token)) [
    | inl t ↦ elim (Bool-cases (str_eq r.secret request.secret)) [
      | inl k ↦ inl (
        (r, e, (eq_iff r.authentication_token token).0 t, (eq_iff r.secret request.secret).0 k),
        rw (e, db_deregister, t, k) refl,
      )
      | inr k ↦ inr (
        λ o. absurd (ground (arith, Owns-same md request token r e o)),
        authentication_failure,
        rw (e, db_deregister, t, k) refl,
      )
    ]
    | inr t ↦ inr (
      λ o. absurd (ground (arith, Owns-same md request token r e o)),
      authentication_failure,
      rw (e, db_deregister, t) refl,
    )
  ]
]

-- `Deregister` succeeds exactly for the caller that holds the token and the secret of the service; it
-- then removes that service alone, and where it fails it changes nothing.
pub deregister_iff :
    (md : MemoryDb) (request : DeregisterRequest) (token : String)
    → let (md', reply) = deregister md request token in
      (Owns md request token
        × (reply ≡ ok tt)
        × ((j : ℕ)
            → select_by_id md' j ≡ (if request.service_id == j then none else select_by_id md j)))
      ⊎ (¬ Owns md request token × ((e : DirectoryError) × (reply ≡ err e)) × (md' ≡ md))
deregister_iff md request token = elim (deregister-cases md request token) [
  | inl (o, e) ↦ rw e (inl (o, refl, λ j. select-delete_record md request.service_id j))
  | inr (n, x, e) ↦ rw e (inr (n, (x, refl), refl))
]

-- What `Register` asks of a request.
pub record IsValid (endpoint : ServiceEndpoint) (details : ServiceDetails) : Type 0 where
  pub host : endpoint.host ≢ ""
  pub protocol : (1 ≤ endpoint.protocol) × (endpoint.protocol ≤ 3)
  pub type : ((1 ≤ details.type) × (details.type ≤ 9)) ⊎ (details.type ≡ 100)

module _ (params : ServerParameters) (md : MemoryDb) (request : RegisterRequest) (token : String)
    (f : Fortune) (endpoint : ServiceEndpoint) (details : ServiceDetails)
    (has_endpoint : request.endpoint ≡ some endpoint)
    (has_details : request.details ≡ some details) where
  pub given :
      register params md request token f
      ≡ register_given params md request.permanent token f endpoint details
  unfolding register
  given = rw (has_endpoint, has_details) refl

  good_protocol : IsValid endpoint details → bad_protocol endpoint.protocol ≡ false
  good_protocol v = ground (arith, v.protocol)

  good_type : IsValid endpoint details → bad_service_type details.type ≡ false
  good_type v = ground (arith, v.type)

  good_host : IsValid endpoint details → str_eq endpoint.host "" ≡ false
  good_host v = ground (arith, v.host, eq_iff endpoint.host "")

  pub valid :
      IsValid endpoint details
      → register params md request token f
        ≡ register_valid params md endpoint details request.permanent token f
  unfolding register_given
  valid v = given ∙ rw (good_host v, good_protocol v, good_type v) refl

  -- `Register` refuses a request without a host, with a protocol or with a service type that is not
  -- one of the API's, and then changes nothing.
  register-invalid :
      ¬ IsValid endpoint details
      → (e : DirectoryError) × (register params md request token f ≡ answers (md, err e))
  unfolding register_given
  register-invalid n = elim (Bool-cases (str_eq endpoint.host "")) [
    | inl h ↦ (empty_host, given ∙ rw h refl)
    | inr h ↦ elim (Bool-cases (bad_protocol endpoint.protocol)) [
      | inl p ↦ (invalid_protocol, given ∙ rw (h, p) refl)
      | inr p ↦ elim (Bool-cases (bad_service_type details.type)) [
        | inl t ↦ (invalid_service_type, given ∙ rw (h, p, t) refl)
        | inr t ↦ absurd (
            n record {
              host = λ x. ground (arith, eq_iff endpoint.host "");
              protocol = ground arith;
              type = ground arith;
            })
      ]
    ]
  ]
