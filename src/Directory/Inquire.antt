-- ===== src/Directory/Inquire.antt =====
-- `Inquire` and `Status` of packages/cli/services/directory/grpcservers/directoryServer.go. The records
-- that match point into the map, so the checks of an inquiry write there; they run one after another in
-- the model. `sort.Sort` leaves the order of equal elements open; the model sorts by insertion.
-- `rand.Shuffle` swaps each index from the last down with a drawn one. While the handler waits for a
-- first match, others change the database: `World` has what they do, and the network, at each attempt.
pub mod Matches
pub mod Order
pub mod Balance
pub mod Low
pub mod Sent
use cogment.Prelude.{
  ℕ, zero, suc, ◌+◌, ◌-◌, ◌%◌, ◌≡◌, String, Bool, true, false, Option, none, some, List, [], ◌∷◌,
  ◌==◌, ltb, not, ◌&&◌, ◌||◌, if◌then◌else◌, length, get_elem?, set, str_eq, id_key,
}
use cogment.Directory.Db.{ServiceDetails, DbRecord, MemoryDb, select_by_id, select_by_details}
use cogment.Directory.Health.{Probe, health_check, write_back, unserviceable_load}
use cogment.Directory.Server.{ServerParameters, Result, ok, err, empty_request}

pub data Inquiry : Type 0 where
  service_id : ℕ → Inquiry
  details : ServiceDetails → Inquiry
  nothing : Inquiry

abbrev selected : String → Option DbRecord → List DbRecord → List DbRecord
selected token none rest = rest
selected token (some r) rest =
    if not (str_eq r.authentication_token token)
    then rest
    else if r.nb_failed_health_checks == 0
    then r ∷ rest
    else rest

unfoldable pub add_matches : String → MemoryDb → List ℕ → List DbRecord
add_matches token md [] = []
add_matches token md (id ∷ ids) = selected token (select_by_id md id) (add_matches token md ids)

-- The checks on inquiry, of one round each.
unfoldable pub check_matches : (ℕ → Probe) → ℕ → MemoryDb → List DbRecord → MemoryDb × List DbRecord
check_matches probes now md [] = (md, [])
check_matches probes now md (r ∷ rs) =
    let (r', healthy) = health_check (probes r.sid) r now 1 in
    let (md', rest) = check_matches probes now (write_back md r'.sid r') rs in
    (md', if healthy then r' ∷ rest else rest)

unfoldable pub matches_of :
    ServerParameters
    → (ℕ → Probe)
    → ℕ
    → MemoryDb
    → String
    → List ℕ
    → MemoryDb × Result (List DbRecord)
unfolding add_matches check_matches
matches_of params probes now md token ids =
    let found = add_matches token md ids in
    if params.check_on_inquire
    then (let (md', healthy) = check_matches probes now md found in (md', ok healthy))
    else (md, ok found)

unfoldable pub db_inquire :
    ServerParameters
    → (ℕ → Probe)
    → ℕ
    → MemoryDb
    → Inquiry
    → String
    → MemoryDb × Result (List DbRecord)
unfolding matches_of
db_inquire params probes now md (service_id id) token =
    matches_of params probes now md token (id ∷ [])
db_inquire params probes now md (details d) token =
    matches_of params probes now md token (select_by_details md d)
db_inquire params probes now md nothing token = (md, err empty_request)

-- `Less` after `SortByTime`, which puts the most recent first, and after `SortByLoad`.
abbrev pub more_recent : DbRecord → DbRecord → Bool
more_recent r s = ltb s.register_timestamp r.register_timestamp

abbrev pub less_loaded : DbRecord → DbRecord → Bool
less_loaded r s = ltb r.machine_load s.machine_load

unfoldable pub insert_by : (DbRecord → DbRecord → Bool) → DbRecord → List DbRecord → List DbRecord
insert_by less r [] = r ∷ []
insert_by less r (s ∷ rs) =
    let rest = insert_by less r rs in if less s r then s ∷ rest else r ∷ s ∷ rs

unfoldable pub sort_by : (DbRecord → DbRecord → Bool) → List DbRecord → List DbRecord
unfolding insert_by
sort_by less [] = []
sort_by less (r ∷ rs) = insert_by less r (sort_by less rs)

abbrev pub acceptable_load_range : ℕ
acceptable_load_range = 10

abbrev pub load_at : List DbRecord → ℕ → ℕ
load_at rs i = elim (get_elem? rs i) [ none ↦ 0 | some r ↦ r.machine_load ]

abbrev pub take : ℕ → List DbRecord → List DbRecord
take zero rs = []
take (suc n) [] = []
take (suc n) (r ∷ rs) = r ∷ take n rs

-- The loop over `lastServiceableIndex`, which is one less than the number: it looks for the last
-- serviceable record, and cuts the list after it.
unfoldable pub cut_unserviceable : List DbRecord → ℕ → List DbRecord
cut_unserviceable rs zero = rs
cut_unserviceable rs (suc i) =
    let rest = cut_unserviceable rs i in
    if ltb (load_at rs i) unserviceable_load then take (suc i) rs else rest

-- The loop over `lowLoadIndex`: the list ends before the first load above the bound.
unfoldable pub cut_high : ℕ → List DbRecord → List DbRecord
cut_high max_low_load [] = []
cut_high max_low_load (r ∷ rs) =
    let rest = cut_high max_low_load rs in if ltb max_low_load r.machine_load then [] else r ∷ rest

unfoldable pub low_loads : List DbRecord → List DbRecord
unfolding cut_high
low_loads [] = []
low_loads (r ∷ rs) = r ∷ cut_high (r.machine_load + acceptable_load_range) rs

swap_found : List DbRecord → ℕ → ℕ → Option DbRecord → Option DbRecord → List DbRecord
swap_found rs i j (some a) (some b) = set (set rs i b) j a
swap_found rs i j (some a) none = rs
swap_found rs i j none o = rs

unfoldable pub swap : List DbRecord → ℕ → ℕ → List DbRecord
unfolding swap_found
swap rs i j = swap_found rs i j (get_elem? rs i) (get_elem? rs j)

-- The indices down from the number.
unfoldable pub shuffle : (ℕ → ℕ) → ℕ → List DbRecord → List DbRecord
unfolding swap
shuffle draw zero rs = rs
shuffle draw (suc i) rs = shuffle draw i (swap rs (suc i) (draw i % (i + 2)))

unfoldable pub balance : (ℕ → ℕ) → List DbRecord → List DbRecord
unfolding sort_by cut_unserviceable low_loads shuffle
balance draw matches =
    let sorted = sort_by less_loaded matches in
    let low = low_loads (cut_unserviceable sorted (length sorted)) in
    shuffle draw (length low - 1) low

pub record World : Type 0 where
  pub now : ℕ → ℕ
  pub probes : ℕ → ℕ → Probe
  pub others : ℕ → MemoryDb → MemoryDb
  pub draw : ℕ → ℕ

module _ (params : ServerParameters) (w : World) (inquiry : Inquiry) (token : String) where
  -- The loop of the registration lag, with the attempts that are left and the number of the next one.
  unfoldable pub await_matches :
      ℕ → ℕ → MemoryDb → List DbRecord → MemoryDb × Result (List DbRecord)
  unfolding db_inquire
  await_matches count i md (r ∷ rs) = (md, ok (r ∷ rs))
  await_matches zero i md [] = (md, ok [])
  await_matches (suc count) i md [] =
      let (md', matches) = db_inquire params (w.probes i) (w.now i) (w.others i md) inquiry token in
      elim matches [ err e ↦ (md', err e) | ok rs ↦ await_matches count (i + 1) md' rs ]

  abbrev first_matches : MemoryDb × Result (List DbRecord) → MemoryDb × Result (List DbRecord)
  unfolding await_matches
  first_matches (md, err e) = (md, err e)
  first_matches (md, ok rs) = await_matches params.registration_lag 1 md rs

  abbrev arranged : MemoryDb × Result (List DbRecord) → MemoryDb × Result (List DbRecord)
  unfolding balance sort_by
  arranged (md, err e) = (md, err e)
  arranged (md, ok []) = (md, ok [])
  arranged (md, ok (r ∷ rs)) = (
    md,
    ok (
        if not params.load_balancing
        then sort_by more_recent (r ∷ rs)
        else balance w.draw (r ∷ rs)),
  )

  -- The records that the handler sends, in their order.
  unfoldable pub inquire : MemoryDb → MemoryDb × Result (List DbRecord)
  unfolding db_inquire first_matches arranged
  inquire md = arranged (first_matches (db_inquire params (w.probes 0) (w.now 0) md inquiry token))
