-- ===== src/Fleet/Queries.antt =====
-- apps/api/internal/repository/repository.go: the queries on endpoints. Go leaves the order of a
-- list open; here it is that of the map. Averages are kept as a sum and a count.
use zero_agent_scan.Prelude.{
  ℕ, ◌+◌, String, Bool, ◌&&◌, ◌||◌, Option, none, some, List, [], ◌∷◌, Map, lookup, values, ◌==◌,
  length, tally,
}
use zero_agent_scan.Prelude.Text.{codes, lower_codes, occurs, equal_codes}
use zero_agent_scan.Fleet.Records.{Endpoint, CollectorGateway, Repository}
use zero_agent_scan.Fleet.Snapshots.{kept}

-- A search in hostname, address, manufacturer, unit and subnet; the empty text finds all.
unfoldable pub found_by : String → Endpoint → Bool
unfolding lower_codes
found_by search ep =
    let needle = lower_codes search in
    search == ""
    || occurs needle (lower_codes ep.hostname)
    || occurs needle (codes ep.ip_address)
    || occurs needle (lower_codes ep.manufacturer)
    || occurs needle (lower_codes ep.organizational_unit)
    || occurs needle (lower_codes ep.subnet_cidr)

unfoldable pub passes_filters : String → String → String → String → Endpoint → Bool
unfolding found_by lower_codes
passes_filters search os status tier ep =
    found_by search ep
    && (os == "" || occurs (lower_codes os) (lower_codes ep.os_name))
    && (status == "" || ep.status == status)
    && (tier == "" || equal_codes (codes ep.rollout_tier) (lower_codes tier))

pub record Average : Type 0 where
  pub total : ℕ
  pub over : ℕ

-- The fields of the summary that are not constants. Without a pilot host the two averages have no
-- value here, where Go answers 100 and 0.
pub record PilotHealthSummary : Type 0 where
  pub total_pilot_hosts : ℕ
  pub online_pilot_hosts : ℕ
  pub scan_success_rate : Average
  pub average_compliance_score : Average
  pub pilot_hosts : List Endpoint

pub record FleetMetrics : Type 0 where
  pub total_endpoints : ℕ
  pub online_endpoints : ℕ
  pub average_compliance : Average
  pub active_gateways : ℕ
  pub total_gateways : ℕ

unfoldable pub score_sum : List Endpoint → ℕ
score_sum [] = 0
score_sum (ep ∷ eps) = ep.compliance_score + score_sum eps

unfoldable pub online_count : List Endpoint → ℕ
online_count [] = 0
online_count (ep ∷ eps) = tally (ep.status == "online") + online_count eps

unfoldable pub healthy_count : List CollectorGateway → ℕ
healthy_count [] = 0
healthy_count (gw ∷ gws) = tally (gw.status == "healthy") + healthy_count gws

-- `GetEndpointDetail` for the tables `hardware`, `security` and `cisResults`: a table without the
-- endpoint gives the value that holds its ID alone.
pub record EndpointDetail (H S C : Type 0) : Type 0 where
  pub endpoint : Endpoint
  pub hardware : H
  pub security_posture : S
  pub cis_results : List C

abbrev or_bare : {A : Type 0} → A → Option A → A
or_bare bare none = bare
or_bare bare (some a) = a

module _ {P : Type 0} where
  unfoldable pub list_endpoints : String → String → String → String → Repository P → List Endpoint
  unfolding kept passes_filters
  list_endpoints search os status tier r =
      kept (passes_filters search os status tier) (values r.endpoints)

  unfoldable pub get_pilot_health_summary : Repository P → PilotHealthSummary
  unfolding kept score_sum online_count
  get_pilot_health_summary r =
      let hosts = kept (λ ep. ep.rollout_tier == "pilot") (values r.endpoints) in
      record {
        total_pilot_hosts = length hosts;
        online_pilot_hosts = online_count hosts;
        scan_success_rate = record { total = online_count hosts; over = length hosts };
        average_compliance_score = record { total = score_sum hosts; over = length hosts };
        pilot_hosts = hosts;
      }

  unfoldable pub get_fleet_metrics : Repository P → FleetMetrics
  unfolding score_sum online_count healthy_count
  get_fleet_metrics r = record {
    total_endpoints = length (values r.endpoints);
    online_endpoints = online_count (values r.endpoints);
    average_compliance = record {
      total = score_sum (values r.endpoints);
      over = length (values r.endpoints);
    };
    active_gateways = healthy_count (values r.gateways);
    total_gateways = length (values r.gateways);
  }

module _ {H S C : Type 0} (bare_hardware : String → H) (bare_security : String → S) where
  abbrev detail_of :
      String → Map H → Map S → Map (List C) → Option Endpoint → Option (EndpointDetail H S C)
  unfolding lookup
  detail_of id hardware security cis none = none
  detail_of id hardware security cis (some ep) = some (record {
    endpoint = ep;
    hardware = or_bare (bare_hardware id) (lookup id hardware);
    security_posture = or_bare (bare_security id) (lookup id security);
    cis_results = or_bare [] (lookup id cis);
  })

  unfoldable pub get_endpoint_detail :
      {P : Type 0}
      → String
      → Map H
      → Map S
      → Map (List C)
      → Repository P
      → Option (EndpointDetail H S C)
  unfolding lookup detail_of
  get_endpoint_detail id hardware security cis r =
      detail_of id hardware security cis (lookup id r.endpoints)
