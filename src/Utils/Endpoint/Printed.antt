-- ===== src/Utils/Endpoint/Printed.antt =====
-- Endpoints as text: what an endpoint prints is parsed as that endpoint.
use mathlib.Core.List.{append-nil, append_assoc}
use cogment.Prelude.{
  ℕ, ◌^◌, ◌<◌, ◌≡◌, ◌∙◌, refl, sym, ap, subst, String, Bool, true, false, none, some, List, [], ◌∷◌,
  ◌++◌, ◌==◌, if◌then◌else◌, length, str_eq, eq_iff, string_key, All, arith, Bool-cases, inl, inr,
}
use cogment.Prelude.Dict.{Dict, lookup, insert, KeysOnce}
use cogment.Utils.Decimal.{format_uint, parse-format_uint, format_uint_cons}
use cogment.Utils.Endpoint.{
  parse_grpc, parse_discovery, Url, no_url, Endpoint, grpc, discovery, client, parse, url,
  parse_path, parse_port, parse_service_id, add_properties, single_values, api_service_type_to_str,
  trim_slash, address_url, discovery_url,
}

-- The URL that net/url parses from the text of a URL: a path after the host starts with a slash.
abbrev pub slashed : String → String
slashed path = if str_eq path "" then "" else String.◌∷◌ "/" path

abbrev pub reparsed : Url → Url
reparsed u = record u { path = slashed u.path }

-- The endpoints that stand for something: an address, the services of a type with some properties, one
-- service by its id, or the clients.
pub data IsWellFormed : Endpoint → Type 0 where
  at_address : (host : String) (port : ℕ) → port < 2 ^ 32 → IsWellFormed (grpc host port)
  of_type :
      (type : ℕ) (properties : Dict String String)
      → parse_path (api_service_type_to_str type) ≡ some (type, false)
      → KeysOnce properties
      → IsWellFormed (discovery type properties 0)
  one_service :
      (value : String) (id : ℕ)
      → parse_service_id value ≡ some id
      → IsWellFormed (discovery 0 (("__id", value) ∷ []) id)
  any_client : IsWellFormed client

trim_slash-slashed : (path : String) → trim_slash (slashed path) ≡ path
trim_slash-slashed path = elim (Bool-cases (str_eq path "")) [
  | inl empty ↦ rw empty (sym ((eq_iff path "").0 empty))
  | inr more ↦ rw more refl
]

insert_new :
    (k v : String) (m : Dict String String) → lookup k m ≡ none → insert k v m ≡ m ++ (k, v) ∷ []
unfolding insert lookup
insert_new k v [] h = refl
insert_new k v ((j, w) ∷ m) h = elim (Bool-cases (str_eq j k)) [
  | inl same ↦ absurd (ground (arith, same, h))
  | inr other ↦ rw other (ap (◌∷◌ (j, w)) (insert_new k v m (ground (arith, other, h))))
]

lookup_last :
    (k j v : String) (m : Dict String String)
    → lookup k m ≡ none
    → str_eq j k ≡ false
    → lookup k (m ++ (j, v) ∷ []) ≡ none
unfolding lookup
lookup_last k j v [] h other = rw other refl
lookup_last k j v ((i, w) ∷ m) h other = elim (Bool-cases (str_eq i k)) [
  | inl same ↦ absurd (ground (arith, same, h))
  | inr differs ↦ rw differs (lookup_last k j v m (ground (arith, differs, h)) other)
]

-- The keys of `properties` are new to `m`.
abbrev AreNew : Dict String String → Dict String String → Type 0
AreNew properties m = All (λ e. lookup e.0 m ≡ none) properties

AreNew-step :
    (k v : String) (properties m : Dict String String)
    → lookup k properties ≡ none
    → AreNew properties m
    → AreNew properties (m ++ (k, v) ∷ [])
unfolding lookup
AreNew-step k v [] m h new = tt
AreNew-step k v ((j, w) ∷ properties) m h new = elim (Bool-cases (str_eq j k)) [
  | inl same ↦ absurd (ground (arith, same, h))
  | inr other ↦ (
    lookup_last j k v m new.0 (ground (arith, other, eq_iff k j, eq_iff j k)),
    AreNew-step k v properties m (ground (arith, other, h)) new.1,
  )
]

AreNew-nil : (properties : Dict String String) → AreNew properties []
unfolding lookup
AreNew-nil [] = tt
AreNew-nil (e ∷ properties) = (refl, AreNew-nil properties)

add-single_values :
    (nb : ℕ) (properties m : Dict String String)
    → KeysOnce properties
    → AreNew properties m
    → add_properties false nb (single_values properties) (0, m) ≡ some (0, m ++ properties)
unfolding add_properties
add-single_values nb [] m once new = ap (λ all. some (0, all)) (sym (append-nil m))
add-single_values nb ((k, v) ∷ properties) m once new = rw (insert_new k v m new.0) (
    add-single_values nb properties (m ++ (k, v) ∷ []) once.1
      (AreNew-step k v properties m once.0 new.1)
    ∙ ap (λ all. some (0, all)) (append_assoc m ((k, v) ∷ []) properties))

printed_port : (port : ℕ) → port < 2 ^ 32 → parse_port (format_uint port) ≡ some port
printed_port port h = ground (arith, parse-format_uint port (omega arith))

grpc_parsed :
    (host : String) (port : ℕ) (text : List ℕ)
    → (length text == 0) ≡ false
    → parse_port text ≡ some port
    → parse_grpc
        (record no_url { scheme = "grpc"; hostname = host; host_is_hostname = false; port = text })
      ≡ some (grpc host port)
grpc_parsed host port text nonempty parsed = rw nonempty (ground (arith, parsed))

service_id_ne : (value : String) (id : ℕ) → parse_service_id value ≡ some id → (id == 0) ≡ false
service_id_ne value id valid = ground (arith, valid)

pub service_added :
    (value : String) (id : ℕ)
    → parse_service_id value ≡ some id
    → add_properties true 1 (("__id", value ∷ []) ∷ []) (0, []) ≡ some (id, ("__id", value) ∷ [])
unfolding add_properties insert
service_added value id valid = ground (arith, valid)

if_false : {A : Type 0} {b : Bool} (x y : A) → b ≡ false → (if b then x else y) ≡ y
if_false x y h = rw h refl

-- A well-formed endpoint has a URL, and the text of that URL is parsed as the endpoint.
pub parse-url :
    (e : Endpoint) → IsWellFormed e → (u : Url) × (url e ≡ some u) × (parse (reparsed u) ≡ some e)
unfolding parse url
parse-url _ (at_address host port h) =
    let (c, rest, text) = format_uint_cons port in
    (
      address_url (record { host = host; port = port }),
      refl,
      grpc_parsed host port (format_uint port)
          (subst (λ t. (length t == 0) ≡ false) (sym text) (ground arith)) (printed_port port h),
    )
parse-url _ (of_type type properties named once) = (
  discovery_url (discovery type properties 0) (record { type = type; properties = properties }),
  refl,
  subst
      (λ found.
        parse_discovery
          (reparsed (
            discovery_url (discovery type properties 0)
              (record { type = type; properties = properties })))
          found
        ≡ some (discovery type properties 0))
      (sym (ap parse_path (trim_slash-slashed (api_service_type_to_str type)) ∙ named))
      (rw
        (add-single_values (length (single_values properties)) properties [] once
          (AreNew-nil properties))
        refl),
)
parse-url _ (one_service value id valid) = (
  discovery_url (discovery 0 (("__id", value) ∷ []) id)
      (record { type = 0; properties = ("__id", value) ∷ [] }),
  refl,
  subst
      (λ path.
        parse_discovery
          (reparsed (
            discovery_url (discovery 0 (("__id", value) ∷ []) id)
              (record { type = 0; properties = ("__id", value) ∷ [] })))
          (parse_path (trim_slash (slashed path)))
        ≡ some (discovery 0 (("__id", value) ∷ []) id))
      (sym (if_false "" "service" (service_id_ne value id valid)))
      (rw (service_added value id valid) (rw (service_id_ne value id valid) refl)),
)
parse-url _ any_client = (record no_url { scheme = "cogment"; hostname = "client" }, refl, refl)
