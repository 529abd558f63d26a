-- ===== src/Mhd/Week/Tests.antt =====
-- A week with one trip, registered twice.
use rio_t_preprocessors.Base.{[], ◌∷◌, ◌≡◌}
use rio_t_preprocessors.Base.Int.{pos}
use rio_t_preprocessors.Commons.Sets.{new_set}
use rio_t_preprocessors.Mhd.Samples.{tram}
use rio_t_preprocessors.Mhd.Store.{GtfsStore}
use rio_t_preprocessors.Mhd.Week.{register_current_week_instances}
use rio_t_preprocessors.Mhd.Week.Again.{register_current_week_instances-again}
use rio_t_preprocessors.Base.{ℕ}

abbrev one_trip_store : GtfsStore ℕ
one_trip_store = record {
  loaded_week_key = "2026W01";
  definitions_by_uid = ("MHD_TRIP_1", tram) ∷ [];
  line_route_index = [];
  registered_week_uids = [];
}

register_current_week_instances-again_example :
    let first = register_current_week_instances (pos 1) one_trip_store new_set in
    register_current_week_instances (pos 2) first.store new_set
    ≡ record { store = first.store; sd_instances = new_set; messages = [] }
register_current_week_instances-again_example =
    register_current_week_instances-again (pos 1) (pos 2) one_trip_store new_set new_set
