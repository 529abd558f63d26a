-- ===== src/Mhd/Store.antt =====
-- backend/mhd-preprocessor/src/gtfs_store.go: the state of `GTFSStore` and its small operations.
use rio_t_preprocessors.Base.{String, string_eq, none, some, List, [], Bool}
use rio_t_preprocessors.Base.Maps.{Dict, lookup, insert, has}
use rio_t_preprocessors.Base.Text.{◌⧺◌}
use rio_t_preprocessors.Mhd.Model.{TripDefinition}

pub record GtfsStore (F : Type 0) : Type 0 where
  pub loaded_week_key : String
  pub definitions_by_uid : Dict String (TripDefinition F)
  pub line_route_index : Dict String (List (TripDefinition F))
  pub registered_week_uids : Dict String (Unit {0})

unfoldable pub new_gtfs_store : {F : Type 0} → GtfsStore F
new_gtfs_store = record {
  loaded_week_key = "";
  definitions_by_uid = [];
  line_route_index = [];
  registered_week_uids = [];
}

unfoldable pub line_route_index_key : String → String → String
unfolding ◌⧺◌
line_route_index_key line_id live_route_id = line_id ⧺ "/" ⧺ live_route_id

module _ {F : Type 0} where
  -- A key that is missing reads as the nil slice.
  unfoldable pub definitions_for : GtfsStore F → String → String → List (TripDefinition F)
  unfolding line_route_index_key lookup
  definitions_for s line_id live_route_id =
      elim (lookup (line_route_index_key line_id live_route_id) s.line_route_index) [
        | none ↦ []
        | some definitions ↦ definitions
      ]

  unfoldable pub mark_week_uid_registered : GtfsStore F → String → GtfsStore F
  unfolding insert
  mark_week_uid_registered s uid = record s {
    registered_week_uids = insert uid tt s.registered_week_uids;
  }

  unfoldable pub is_week_uid_registered : GtfsStore F → String → Bool
  unfolding lookup
  is_week_uid_registered s uid = has uid s.registered_week_uids
