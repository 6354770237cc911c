-- ===== src/Utils/Endpoint/Resolved.antt =====
-- Resolving an endpoint by the directory's answer.
use cogment.Prelude.{
  ℕ, ◌≡◌, refl, String, true, false, some, ◌==◌, ◌&&◌, ◌||◌, if◌then◌else◌, str_eq, arith,
}
use cogment.Prelude.Dict.{Dict}
use cogment.Utils.Endpoint.{
  Endpoint, discovery, address_url, gives, refuses, resolve, is_resolved, resolved_url,
  authentication_token,
}

-- An endpoint that the directory resolved.
abbrev pub resolved : String → ℕ → ℕ → Dict String String → Endpoint
resolved hostname port type properties = record (discovery type properties 0) {
  api_endpoint = some (record { host = hostname; port = port });
}

-- An unresolved discovery endpoint is resolved exactly by a service of the type, where it asks for one,
-- and with the id, where it asks for one. What is resolved has the type and the address of the
-- service; if the host is not empty, it counts as resolved, gives the address as its URL, keeps the
-- token, and is not resolved again.
resolve_lem :
    (type : ℕ) (properties : Dict String String) (requested service_id : ℕ) (hostname : String)
    (port service_type id' : ℕ) (hostname' : String) (port' type' : ℕ)
    → str_eq hostname "" ≡ false
    → (resolve (discovery type properties requested) service_id hostname port service_type ≡ (
        if (type == 0 || type == service_type) && (requested == 0 || requested == service_id)
        then gives (resolved hostname port service_type properties)
        else refuses))
      × (is_resolved (resolved hostname port service_type properties) ≡ some true)
      × (resolved_url (resolved hostname port service_type properties)
          ≡ gives (address_url (record { host = hostname; port = port })))
      × (authentication_token (resolved hostname port service_type properties)
          ≡ authentication_token (discovery type properties requested))
      × (resolve (resolved hostname port service_type properties) id' hostname' port' type'
          ≡ refuses)
unfolding resolve is_resolved resolved_url authentication_token
resolve_lem type properties requested service_id hostname port service_type id' hostname' port'
      type' h =
    (ground arith, rw h refl, rw h refl, refl, rw h refl)
