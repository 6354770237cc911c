-- ===== src/Utils/Endpoint.antt =====
-- packages/cli/utils/endpoint/endpoint.go, with grpcStr.go. Text and URLs are the standard library's
-- net/url: an endpoint is parsed from a parsed URL and gives a URL. `RawFragment` is empty unless the
-- fragment is encoded in a way of its own. A pointer that may be nil is an Option; reading through
-- nil stops the process (`none` of `copy`, `resolve`, `unmarshal`).
pub mod Printed
pub mod Parsed
pub mod Resolved
use Prim.Native.Char.{code}
use cogment.Prelude.{
  ℕ, ◌^◌, String, Bool, true, false, not, Option, none, some, List, [], ◌∷◌, ◌==◌, ltb, ◌&&◌, ◌||◌,
  if◌then◌else◌, length, str_eq, string_key,
}
use cogment.Prelude.Dict.{Dict, insert, lookup}
use cogment.Utils.Decimal.{format_uint, parse_uint}

-- A URL of net/url: the results of Hostname and Port, the port as a text that is empty without one, and
-- whether Host is the same as the hostname, with no colon after it and no brackets around it.
pub record Url : Type 0 where
  pub scheme : String
  pub has_user : Bool
  pub hostname : String
  pub host_is_hostname : Bool
  pub port : List ℕ
  pub path : String
  pub has_raw_query : Bool
  pub query : Dict String (List String)
  pub raw_fragment : String

pub data CategoryType : Type 0 where
  invalid_endpoint grpc_endpoint discovery_endpoint client_endpoint : CategoryType

pub record ApiEndpoint : Type 0 where
  pub host : String
  pub port : ℕ

-- The type is the number of the enum.
pub record Details : Type 0 where
  pub type : ℕ
  pub properties : Dict String String

pub record Endpoint : Type 0 where
  pub category : CategoryType
  pub api_endpoint : Option ApiEndpoint
  pub details : Option Details
  pub service_discovery_id : ℕ

-- `Endpoint{}`
abbrev pub no_endpoint : Endpoint
no_endpoint = record {
  category = invalid_endpoint;
  api_endpoint = none;
  details = none;
  service_discovery_id = 0;
}

abbrev pub service_types : List (String × ℕ)
service_types =
    ("actor", 3)
    ∷ ("environment", 4)
    ∷ ("prehook", 5)
    ∷ ("datalog", 6)
    ∷ ("lifecycle", 1)
    ∷ ("actservice", 2)
    ∷ ("datastore", 7)
    ∷ ("modelregistry", 8)
    ∷ ("directory", 9)
    ∷ ("other", 100)
    ∷ []

unfoldable pub name_of : List (String × ℕ) → ℕ → String
name_of [] n = "<invalid>"
name_of ((name, k) ∷ types) n = if k == n then name else name_of types n

unfoldable pub type_of : List (String × ℕ) → String → Option ℕ
type_of [] name = none
type_of ((s, k) ∷ types) name = if str_eq s name then some k else type_of types name

unfoldable pub api_service_type_to_str : ℕ → String
unfolding name_of
api_service_type_to_str n = if n == 0 then "" else name_of service_types n

unfoldable pub str_to_api_service_type : String → Option ℕ
unfolding type_of
str_to_api_service_type name = if str_eq name "" then some 0 else type_of service_types name

abbrev pub codes : String → List ℕ
codes String.[] = []
codes (String.◌∷◌ c s) = code c ∷ codes s

-- `strings.TrimPrefix(path, "/")`
abbrev pub trim_slash : String → String
trim_slash String.[] = ""
trim_slash (String.◌∷◌ c s) = if code c == b'/' then s else String.◌∷◌ c s

-- The path gives the type, and whether it is that of a single service.
abbrev pub parse_path : String → Option (ℕ × Bool)
parse_path path =
    if str_eq path ""
    then some (0, false)
    else if str_eq path "service"
    then some (0, true)
    else elim (str_to_api_service_type path) [ none ↦ none | some type ↦ some (type, false) ]

-- `strconv.ParseUint(value, 10, 64)`, which is not to be 0.
abbrev pub parse_service_id : String → Option ℕ
parse_service_id value = elim (parse_uint (codes value)) [
  | none ↦ none
  | some id ↦ if id == 0 then none else some id
]

-- One round of the loop over the query, of `nb` keys.
abbrev pub add_property :
    Bool → ℕ → String → List String → ℕ × Dict String String → Option (ℕ × Dict String String)
add_property service nb key [] (id, properties) = some (id, insert key "" properties)
add_property service nb key (value ∷ []) (id, properties) =
    if service && str_eq key "__id"
    then (if ltb 1 nb then none else elim (parse_service_id value) [
      | none ↦ none
      | some id' ↦ some (id', insert key value properties)
    ])
    else some (id, insert key value properties)
add_property service nb key (value ∷ value' ∷ values) (id, properties) = none

unfoldable pub add_properties :
    Bool → ℕ → Dict String (List String) → ℕ × Dict String String → Option (ℕ × Dict String String)
add_properties service nb [] found = some found
add_properties service nb ((key, values) ∷ query) found =
    elim (add_property service nb key values found) [
      | none ↦ none
      | some found' ↦ add_properties service nb query found'
    ]

abbrev pub grpc : String → ℕ → Endpoint
grpc host port = record {
  category = grpc_endpoint;
  api_endpoint = some (record { host = host; port = port });
  details = some (record { type = 0; properties = [] });
  service_discovery_id = 0;
}

abbrev pub discovery : ℕ → Dict String String → ℕ → Endpoint
discovery type properties id = record {
  category = discovery_endpoint;
  api_endpoint = some (record { host = ""; port = 0 });
  details = some (record { type = type; properties = properties });
  service_discovery_id = id;
}

abbrev pub client : Endpoint
client = record no_endpoint { category = client_endpoint }

-- `strconv.ParseUint(port, 10, 32)`
abbrev pub parse_port : List ℕ → Option ℕ
parse_port text = elim (parse_uint text) [
  | none ↦ none
  | some port ↦ if ltb port (2 ^ 32) then some port else none
]

abbrev pub parse_grpc : Url → Option Endpoint
parse_grpc url =
    if not (str_eq url.path "")
      || url.has_raw_query
      || not (str_eq url.raw_fragment "")
      || url.has_user
      || length url.port == 0
    then none
    else elim (parse_port url.port) [ none ↦ none | some port ↦ some (grpc url.hostname port) ]

abbrev pub found_service : Bool → ℕ → Option (ℕ × Dict String String) → Option Endpoint
found_service service type none = none
found_service service type (some (id, properties)) =
    if service && id == 0 then none else some (discovery type properties id)

abbrev pub parse_discovery : Url → Option (ℕ × Bool) → Option Endpoint
parse_discovery url none = none
parse_discovery url (some (type, service)) =
    found_service service type (add_properties service (length url.query) url.query (0, []))

-- `Parse`, of a URL; `none` is an error, beside which the code returns `Endpoint{}`.
unfoldable pub parse : Url → Option Endpoint
unfolding add_properties str_to_api_service_type parse_uint
parse url =
    if str_eq url.scheme "grpc"
    then parse_grpc url
    else if not (str_eq url.scheme "cogment")
    then none
    else if str_eq url.hostname "discover" && url.host_is_hostname
    then (if not (str_eq url.raw_fragment "") || url.has_user
        then none
        else parse_discovery url (parse_path (trim_slash url.path)))
    else if str_eq url.hostname "client" && url.host_is_hostname
    then (if not (str_eq url.path "")
          || url.has_raw_query
          || not (str_eq url.raw_fragment "")
          || url.has_user
        then none
        else some client)
    else none

-- `endpointCopy`: the map of the details is copied, which are not to be nil.
unfoldable pub copy : Endpoint → Option Endpoint
copy e = elim e.details [ none ↦ none | some details ↦ some e ]

unfoldable pub endpoint_is_valid : Endpoint → Bool
endpoint_is_valid e = elim e.category [ invalid_endpoint ↦ false | _ ↦ true ]

-- `UnmarshalText`: what is parsed is copied, `Endpoint{}` on an error.
unfoldable pub unmarshal : Url → Option Endpoint
unfolding parse copy
unmarshal url = elim (parse url) [ none ↦ copy no_endpoint | some e ↦ copy e ]

abbrev pub no_url : Url
no_url = record {
  scheme = "";
  has_user = false;
  hostname = "";
  host_is_hostname = true;
  port = [];
  path = "";
  has_raw_query = false;
  query = [];
  raw_fragment = "";
}

abbrev pub single_values : Dict String String → Dict String (List String)
single_values [] = []
single_values ((key, value) ∷ properties) = (key, value ∷ []) ∷ single_values properties

abbrev pub address_url : ApiEndpoint → Url
address_url a = record no_url {
  scheme = "grpc";
  hostname = a.host;
  host_is_hostname = false;
  port = format_uint a.port;
}

abbrev pub discovery_url : Endpoint → Details → Url
discovery_url e details = record no_url {
  scheme = "cogment";
  hostname = "discover";
  path = if e.service_discovery_id == 0 then api_service_type_to_str details.type else "service";
  has_raw_query = not (length details.properties == 0);
  query = single_values details.properties;
}

-- `URL`
unfoldable pub url : Endpoint → Option Url
unfolding format_uint api_service_type_to_str
url e = elim e.category [
  | invalid_endpoint ↦ some no_url
  | grpc_endpoint ↦ elim e.api_endpoint [ none ↦ none | some a ↦ some (address_url a) ]
  | discovery_endpoint ↦ elim e.details [ none ↦ none | some d ↦ some (discovery_url e d) ]
  | client_endpoint ↦ some (record no_url { scheme = "cogment"; hostname = "client" })
]

abbrev pub has_host : Option ApiEndpoint → Option Bool
has_host none = none
has_host (some a) = some (not (str_eq a.host ""))

unfoldable pub is_resolved : Endpoint → Option Bool
is_resolved e = elim e.category [
  | invalid_endpoint ↦ some false
  | grpc_endpoint ↦ some true
  | discovery_endpoint ↦ has_host e.api_endpoint
  | client_endpoint ↦ some false
]

pub data Resolution (A : Type 0) : Type 0 where
  gives : A → Resolution A
  refuses : Resolution A
  panics : Resolution A

abbrev pub resolved_url_at : Option ApiEndpoint → Resolution Url
resolved_url_at none = panics
resolved_url_at (some a) = if str_eq a.host "" then refuses else gives (address_url a)

abbrev pub url_at : Option ApiEndpoint → Resolution Url
url_at none = panics
url_at (some a) = gives (address_url a)

unfoldable pub resolved_url : Endpoint → Resolution Url
unfolding format_uint
resolved_url e = elim e.category [
  | invalid_endpoint ↦ refuses
  | grpc_endpoint ↦ url_at e.api_endpoint
  | discovery_endpoint ↦ resolved_url_at e.api_endpoint
  | client_endpoint ↦ refuses
]

abbrev pub resolve_discovery : ℕ → ApiEndpoint → Details → ℕ → String → ℕ → ℕ → Resolution Endpoint
resolve_discovery requested_id a details service_id hostname port service_type =
    if not (str_eq a.host "")
    then refuses
    else if not (details.type == 0) && not (details.type == service_type)
    then refuses
    else if not (requested_id == 0) && not (requested_id == service_id)
    then refuses
    else gives (record {
      category = discovery_endpoint;
      api_endpoint = some (record { host = hostname; port = port });
      details = some (record { type = service_type; properties = details.properties });
      service_discovery_id = 0;
    })

abbrev pub resolve_parts :
    ℕ → Option ApiEndpoint → Option Details → ℕ → String → ℕ → ℕ → Resolution Endpoint
resolve_parts requested_id none details service_id hostname port service_type = panics
resolve_parts requested_id (some a) none service_id hostname port service_type =
    if not (str_eq a.host "") then refuses else panics
resolve_parts requested_id (some a) (some d) service_id hostname port service_type =
    resolve_discovery requested_id a d service_id hostname port service_type

unfoldable pub resolve : Endpoint → ℕ → String → ℕ → ℕ → Resolution Endpoint
resolve e service_id hostname port service_type = elim e.category [
  | invalid_endpoint ↦ refuses
  | grpc_endpoint ↦ refuses
  | discovery_endpoint ↦
      resolve_parts e.service_discovery_id e.api_endpoint e.details service_id hostname port
        service_type
  | client_endpoint ↦ refuses
]

-- `AuthenticationToken`: the token and whether there is one.
unfoldable pub authentication_token : Endpoint → Resolution (Option String)
authentication_token e = elim e.category [
  | invalid_endpoint ↦ gives none
  | grpc_endpoint ↦ gives none
  | discovery_endpoint ↦ elim e.details [
    | none ↦ panics
    | some d ↦ gives (lookup "__authentication-token" d.properties)
  ]
  | client_endpoint ↦ gives none
]

-- `SetServiceType`
unfoldable pub set_service_type : Endpoint → ℕ → Option Endpoint
set_service_type e service_type = elim e.details [
  | none ↦ none
  | some d ↦ some (record e { details = some (record d { type = service_type }) })
]
