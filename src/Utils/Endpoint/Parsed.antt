-- ===== src/Utils/Endpoint/Parsed.antt =====
-- What is parsed stands for something, prints what is parsed as the same, and what is read from text.
use cogment.Prelude.{
  Option-cases, ◌↔◌, In, ℕ, ◌^◌, ◌<◌, ◌≡◌, ◌∙◌, refl, sym, ap, subst, String, Bool, true, false,
  not, Option, none, some, List, [], ◌∷◌, ◌==◌, ◌&&◌, ◌||◌, if◌then◌else◌, length, str_eq, eq_iff,
  string_key, All, arith, Bool-cases, inl, inr, ◌⊎◌,
}
use cogment.Prelude.Dict.{Dict, insert, KeysOnce, insert-KeysOnce}
use cogment.Utils.Endpoint.{
  type_of, service_types, str_to_api_service_type, parse_grpc, parse_discovery, unmarshal, copy,
  Url, Endpoint, grpc, discovery, client, parse, url, parse_path, parse_port, parse_service_id,
  add_properties, api_service_type_to_str, trim_slash,
}
use cogment.Utils.Endpoint.Printed.{
  reparsed, IsWellFormed, at_address, of_type, one_service, any_client, parse-url, service_added,
}

parse_port_small : (text : List ℕ) (port : ℕ) → parse_port text ≡ some port → port < 2 ^ 32
parse_port_small text port h = ground (arith, h)

grpc-IsWellFormed : (u : Url) (e : Endpoint) → parse_grpc u ≡ some e → IsWellFormed e
grpc-IsWellFormed u e h = elim (Option-cases (parse_port u.port)) [
  | inl failed ↦ absurd (ground (arith, failed, h))
  | inr (port, parsed) ↦
      let same : grpc u.hostname port ≡ e = ground (arith, parsed, h) in
      subst IsWellFormed same (at_address u.hostname port (parse_port_small u.port port parsed))
]

some_pair :
    {A B : Type 0} {a c : A} {b d : B}
    → ◌≡◌ {A = Option (A × B)} (some (a, b)) (some (c, d))
    → (a ≡ c) × (b ≡ d)
some_pair h = ground arith

-- Without the path of a service no id is read.
properties_kept :
    (nb : ℕ) (query : Dict String (List String)) (m properties : Dict String String) (id : ℕ)
    → add_properties false nb query (0, m) ≡ some (id, properties)
    → KeysOnce m
    → (id ≡ 0) × KeysOnce properties
unfolding add_properties
properties_kept nb [] m properties id h once =
    (let (zero_id, same) = some_pair h in (sym zero_id, subst (λ p. KeysOnce p) same once))
properties_kept nb ((key, []) ∷ query) m properties id h once =
    properties_kept nb query (insert key "" m) properties id h (insert-KeysOnce key "" m once)
properties_kept nb ((key, value ∷ []) ∷ query) m properties id h once =
    properties_kept nb query (insert key value m) properties id h (insert-KeysOnce key value m once)
properties_kept nb ((key, value ∷ value' ∷ values) ∷ query) m properties id h once =
    absurd (ground arith)

-- With it, a query of several keys gives no id.
no_id :
    (nb : ℕ) (query : Dict String (List String)) (m properties : Dict String String) (id : ℕ)
    → 1 < nb
    → add_properties true nb query (0, m) ≡ some (id, properties)
    → id ≡ 0
unfolding add_properties
no_id nb [] m properties id many h = ground arith
no_id nb ((key, []) ∷ query) m properties id many h =
    no_id nb query (insert key "" m) properties id many h
no_id nb ((key, value ∷ []) ∷ query) m properties id many h =
    elim (Bool-cases (str_eq key "__id")) [
      | inl same ↦ absurd (ground (arith, same, h))
      | inr other ↦
          no_id nb query (insert key value m) properties id many (rw (other, add_properties) at h)
    ]
no_id nb ((key, value ∷ value' ∷ values) ∷ query) m properties id many h = absurd (ground arith)

single_id :
    (query : Dict String (List String)) (properties : Dict String String) (id : ℕ)
    → add_properties true (length query) query (0, []) ≡ some (id, properties)
    → (id == 0) ≡ false
    → (value : String) × (properties ≡ ("__id", value) ∷ []) × (parse_service_id value ≡ some id)
unfolding add_properties insert
single_id [] properties id h nonzero = absurd (ground (arith, h, nonzero))
single_id ((key, []) ∷ []) properties id h nonzero = absurd (ground (arith, h, nonzero))
single_id ((key, value ∷ []) ∷ []) properties id h nonzero = elim (Bool-cases (str_eq key "__id")) [
  | inr other ↦ absurd (ground (arith, other, h, nonzero))
  | inl same ↦ elim (Option-cases (parse_service_id value)) [
    | inl failed ↦ absurd (ground (arith, same, failed, h))
    | inr (n, valid) ↦
        let h' =
          subst (λ k. add_properties true 1 ((k, value ∷ []) ∷ []) (0, []) ≡ some (id, properties))
            ((eq_iff key "__id").0 same) h in
        let (found, kept) = some_pair (sym (service_added value n valid) ∙ h') in
        (value, sym kept, valid ∙ ap some found)
  ]
]
single_id ((key, value ∷ value' ∷ values) ∷ []) properties id h nonzero = absurd (ground (arith, h))
single_id (e ∷ e' ∷ query) properties id h nonzero = absurd (
    ground (
      arith,
      no_id (length (e ∷ e' ∷ query)) (e ∷ e' ∷ query) [] properties id (omega arith) h,
      nonzero,
    ))

All-In : (P : ℕ → Type 0) (n : ℕ) (ns : List ℕ) → All P ns → In n ns → P n
All-In P n [] all h = absurd h
All-In P n (m ∷ ns) all (inl same) = subst P same all.0
All-In P n (m ∷ ns) all (inr later) = All-In P n ns all.1 later

abbrev numbers : List (String × ℕ) → List ℕ
numbers [] = []
numbers ((name, n) ∷ types) = n ∷ numbers types

type_of-In :
    (types : List (String × ℕ)) (name : String) (n : ℕ)
    → type_of types name ≡ some n
    → In n (numbers types)
unfolding type_of
type_of-In [] name n h = absurd (ground arith)
type_of-In ((s, k) ∷ types) name n h = elim (Bool-cases (str_eq s name)) [
  | inl here ↦ inl (ground (arith, here, h))
  | inr other ↦ inr (type_of-In types name n (ground (arith, other, h)))
]

abbrev IsNamed : ℕ → Type 0
IsNamed type = parse_path (api_service_type_to_str type) ≡ some (type, false)

types-IsNamed : All IsNamed (numbers service_types)
unfolding api_service_type_to_str str_to_api_service_type
types-IsNamed = (refl, (refl, (refl, (refl, (refl, (refl, (refl, (refl, (refl, (refl, tt))))))))))

unknown-IsNamed : IsNamed 0
unfolding api_service_type_to_str str_to_api_service_type
unknown-IsNamed = refl

known_type :
    (path : String) (type : ℕ)
    → str_eq path "" ≡ false
    → str_to_api_service_type path ≡ some type
    → type_of service_types path ≡ some type
unfolding str_to_api_service_type
known_type path type more known = ground (arith, more, known)

path_cases :
    (path : String)
    → (parse_path path ≡ none)
      ⊎ (parse_path path ≡ some (0, true))
      ⊎ ((type : ℕ) × (parse_path path ≡ some (type, false)) × IsNamed type)
path_cases path = elim (Bool-cases (str_eq path "")) [
  | inl empty ↦ rw empty (inr (inr (0, refl, unknown-IsNamed)))
  | inr more ↦ elim (Bool-cases (str_eq path "service")) [
    | inl service ↦ rw (more, service) (inr (inl refl))
    | inr other ↦ elim (Option-cases (str_to_api_service_type path)) [
      | inl none_lem ↦ rw (more, other, none_lem) (inl refl)
      | inr (type, known) ↦
          rw (more, other, known)
            (inr (
              inr (
                type,
                refl,
                All-In IsNamed type (numbers service_types) types-IsNamed
                    (type_of-In service_types path type (known_type path type more known)),
              )))
    ]
  ]
]

discovery_plain :
    (u : Url) (e : Endpoint) (type : ℕ)
    → IsNamed type
    → parse_discovery u (some (type, false)) ≡ some e
    → IsWellFormed e
discovery_plain u e type named h =
    elim (Option-cases (add_properties false (length u.query) u.query (0, []))) [
      | inl failed ↦ absurd (ground (arith, failed, h))
      | inr ((id, properties), added) ↦
          let (zero_id, once) =
            properties_kept (length u.query) u.query [] properties id added tt in
          let same : discovery type properties 0 ≡ e = ground (arith, added, h, zero_id) in
          subst IsWellFormed same (of_type type properties named once)
    ]

discovery_service :
    (u : Url) (e : Endpoint) → parse_discovery u (some (0, true)) ≡ some e → IsWellFormed e
discovery_service u e h =
    elim (Option-cases (add_properties true (length u.query) u.query (0, []))) [
      | inl failed ↦ absurd (ground (arith, failed, h))
      | inr ((id, properties), added) ↦ elim (Bool-cases (id == 0)) [
        | inl without ↦ absurd (ground (arith, added, without, h))
        | inr nonzero ↦
            let (value, only, valid) = single_id u.query properties id added nonzero in
            let same : discovery 0 (("__id", value) ∷ []) id ≡ e =
              ground (arith, added, nonzero, h, only) in
            subst IsWellFormed same (one_service value id valid)
      ]
    ]

discovery-IsWellFormed :
    (u : Url) (e : Endpoint) (path : String)
    → parse_discovery u (parse_path path) ≡ some e
    → IsWellFormed e
discovery-IsWellFormed u e path h =
    let from : (o : Option (ℕ × Bool)) → parse_path path ≡ o → parse_discovery u o ≡ some e =
      λ o same. subst (λ o. parse_discovery u o ≡ some e) same h in
    elim (path_cases path) [
      | inl failed ↦ absurd (ground (arith, from none failed))
      | inr (inl service) ↦ discovery_service u e (from (some (0, true)) service)
      | inr (inr (type, plain, named)) ↦
          discovery_plain u e type named (from (some (type, false)) plain)
    ]

guarded :
    {A : Type 0} {a : A} (b : Bool) (o : Option A) → (if b then none else o) ≡ some a → o ≡ some a
guarded true o h = absurd (ground arith)
guarded false o h = h

some_eq : {A : Type 0} {a b : A} → some a ≡ some b → a ≡ b
some_eq h = ground arith

client-IsWellFormed :
    (u : Url) (e : Endpoint)
    → (if str_eq u.hostname "client" && u.host_is_hostname
        then (if not (str_eq u.path "")
              || u.has_raw_query
              || not (str_eq u.raw_fragment "")
              || u.has_user
            then none
            else some client)
        else none)
      ≡ some e
    → IsWellFormed e
client-IsWellFormed u e h = elim (Bool-cases (str_eq u.hostname "client" && u.host_is_hostname)) [
  | inl here ↦
      let same : some client ≡ some e = guarded _ _ (rw here at h) in
      subst IsWellFormed (some_eq same) any_client
  | inr elsewhere ↦ absurd (ground (arith, elsewhere, h))
]

-- What is parsed is well formed.
pub parse-IsWellFormed : (u : Url) (e : Endpoint) → parse u ≡ some e → IsWellFormed e
unfolding parse
parse-IsWellFormed u e h = elim (Bool-cases (str_eq u.scheme "grpc")) [
  | inl grpc_scheme ↦ grpc-IsWellFormed u e (rw (grpc_scheme, parse) at h)
  | inr other ↦
      let past = guarded (not (str_eq u.scheme "cogment")) _ (rw (other, parse) at h) in
      elim (Bool-cases (str_eq u.hostname "discover" && u.host_is_hostname)) [
        | inl discover ↦
            discovery-IsWellFormed u e (trim_slash u.path) (guarded _ _ (rw discover at past))
        | inr elsewhere ↦ client-IsWellFormed u e (rw elsewhere at past)
      ]
]

-- An endpoint that was parsed prints a URL whose text is parsed as the same endpoint again.
pub parse-url-parse :
    (u : Url) (e : Endpoint)
    → parse u ≡ some e
    → (u' : Url) × (url e ≡ some u') × (parse (reparsed u') ≡ some e)
parse-url-parse u e h = parse-url e (parse-IsWellFormed u e h)

copy_cases : (e : Endpoint) → IsWellFormed e → (copy e ≡ some e) ⊎ ((copy e ≡ none) × (e ≡ client))
unfolding copy
copy_cases _ (at_address host port h) = inl refl
copy_cases _ (of_type type properties named once) = inl refl
copy_cases _ (one_service value id valid) = inl refl
copy_cases _ any_client = inr (refl, refl)

not_client :
    (e : Endpoint)
    → copy e ≡ some e
    → (o : Option Endpoint) → o ≡ some e
    → (o ≡ none) ⊎ (o ≡ some client)
    → ⊥
unfolding copy
not_client e copied o known (inl failed) = ground (arith, known, failed)
not_client e copied o known (inr same) =
    let is_client : e ≡ client = some_eq (sym known ∙ same) in
    let stops : ◌≡◌ {A = Option Endpoint} none (some client) =
      subst (λ x. copy x ≡ some x) is_client copied in
    ground (arith, stops)

-- Reading an endpoint from text stops the process exactly when the text is not an endpoint, instead of
-- returning the error, or when it is the endpoint of the clients.
pub unmarshal_iff : (u : Url) → (unmarshal u ≡ none) ↔ ((parse u ≡ none) ⊎ (parse u ≡ some client))
unfolding unmarshal
unmarshal_iff u = elim (Option-cases (parse u)) [
  | inl failed ↦ (λ h. inl failed, λ h. rw (failed, unmarshal) (unfold copy in refl))
  | inr (e, parsed) ↦ elim (copy_cases e (parse-IsWellFormed u e parsed)) [
    | inl copied ↦ (
      λ h. absurd (ground (arith, copied, rw (parsed, unmarshal) at h)),
      λ h. absurd (not_client e copied (parse u) parsed h),
    )
    | inr (stops, same) ↦ (λ h. inr (parsed ∙ ap some same), λ h. rw (parsed, unmarshal) stops)
  ]
]
