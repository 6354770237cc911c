-- ===== src/Utils/Examples.antt =====
-- The theorems on the shared helpers at concrete inputs.
use cogment.Prelude.{◌≡◌, refl, true, none, some, [], ◌∷◌, ◌↔◌, ◌⊎◌}
use cogment.Prelude.Dict.{insert}
use cogment.Utils.Endpoint.{Url, no_url, discovery, client, parse, url, unmarshal}
use cogment.Utils.Endpoint.Printed.{reparsed}
use cogment.Utils.Endpoint.Parsed.{parse-url-parse, unmarshal_iff}

-- cogment://discover/actor?__actor_class=plane
abbrev planes : Url
planes = record no_url {
  scheme = "cogment";
  hostname = "discover";
  path = "/actor";
  has_raw_query = true;
  query = ("__actor_class", "plane" ∷ []) ∷ [];
}

parsed_planes : parse planes ≡ some (discovery 3 (("__actor_class", "plane") ∷ []) 0)
unfolding parse insert
parsed_planes = refl

-- cogment://discover/service?__id=7
parsed_service :
    parse (record planes { path = "/service"; query = ("__id", "7" ∷ []) ∷ [] })
    ≡ some (discovery 0 (("__id", "7") ∷ []) 7)
unfolding parse insert
parsed_service = refl

parse-url-parse_example :
    (u' : Url) × (url (discovery 3 (("__actor_class", "plane") ∷ []) 0) ≡ some u')
    × (parse (reparsed u') ≡ some (discovery 3 (("__actor_class", "plane") ∷ []) 0))
parse-url-parse_example =
    parse-url-parse planes (discovery 3 (("__actor_class", "plane") ∷ []) 0) parsed_planes

unmarshal_iff_example :
    (unmarshal planes ≡ none) ↔ ((parse planes ≡ none) ⊎ (parse planes ≡ some client))
unmarshal_iff_example = unmarshal_iff planes
