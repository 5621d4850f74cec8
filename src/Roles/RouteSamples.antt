-- ===== src/Roles/RouteSamples.antt =====
-- A small contract, for `check_contracts` of alpha-one/scripts/verify_roles.py.
use alpha_one.Base.{
  has_key, none, some, [], ◌∷◌, length, flat_map, Str, mem, str_eq, ◌≡◌, refl, codes,
}
use alpha_one.Roles.{Bindings}
use alpha_one.Roles.Routes.{
  Operation, Contracts, check_contracts, visit_files, visit_paths, visit_item, visit, keyed, given,
  bump, is_marker, lower, upper,
}
use alpha_one.Roles.Operations.{route_of, v1_operations}
use alpha_one.Roles.RouteCount.{Accounted, check_contracts-Accounted}

abbrev bindings : Bindings
bindings = (codes "risk.read", record { scope = none; roles = []; abac = none; note = none }) ∷ []

abbrev v1_operation : Str → Operation
v1_operation permission = record { permission = some permission; phase = codes "V1" }

abbrev contracts : Contracts
contracts =
    (
      codes "10-RSK.openapi.yaml",
      (
        codes "/v1/cases",
        (codes "get", v1_operation (codes "risk.read"))
            ∷ (codes "post", v1_operation (codes "risk.write"))
            ∷ (codes "put", v1_operation (codes "self"))
            ∷ [],
      )
          ∷ [],
    )
    ∷ []

check_contracts-count :
    ((check_contracts bindings contracts).n_v1 ≡ 3)
    × (length (check_contracts bindings contracts).errors ≡ 1)
unfolding check_contracts visit_files visit_paths visit_item visit keyed given bump is_marker lower
    upper mem str_eq has_key
check_contracts-count = (refl, refl)

check_contracts-Accounted_example :
    Accounted bindings (check_contracts bindings contracts)
    × ((check_contracts bindings contracts).n_v1 ≡ length (v1_operations contracts))
    × ((check_contracts bindings contracts).routes ≡ flat_map route_of (v1_operations contracts))
check_contracts-Accounted_example = check_contracts-Accounted bindings contracts
