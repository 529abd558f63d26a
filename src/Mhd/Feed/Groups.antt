-- ===== src/Mhd/Feed/Groups.antt =====
-- The stop times that backend/mhd-preprocessor/src/gtfs_store.go keeps for each trip.
use rio_t_preprocessors.Base.{
  Bool, ◌&&◌, ◌||◌, String, string_eq, ◌==◌, Option, List, [], ◌∷◌, ◌++◌, map, any_b, any_b-append,
  ◌≡◌, refl, ◌∙◌, subst, arith,
}
use rio_t_preprocessors.Base.Int.{ℤ, ltb_ℤ}
use rio_t_preprocessors.Base.Maps.{Dict, lookup, insert, lookup-insert}
use rio_t_preprocessors.Base.Sorting.{sort_stable, any_b-sort_stable}
use rio_t_preprocessors.Commons.Kpi.Json.{decoded}
use rio_t_preprocessors.Mhd.Model.{StopTimeRecord}
use rio_t_preprocessors.Mhd.Timetable.{or_nil}
use rio_t_preprocessors.Mhd.Feed.{
  Row, group, by_sequence, trip_key, stop_time_rows, grouped_stop_times, parse_stop_times_csv,
  then_build,
}

module _ {A : Type 0} (key : A → String) (p : A → Bool) where
  group_lem :
      (result : Dict String (List A)) (records : List A) (id : String)
      → any_b p (or_nil (lookup id (group key result records)))
        ≡ (any_b p (or_nil (lookup id result)) || any_b (λ r. key r == id && p r) records)
  unfolding group
  group_lem result [] id = ground arith
  group_lem result (r ∷ rest) id = ground (
    arith,
    group_lem (insert (key r) (or_nil (lookup (key r) result) ++ (r ∷ [])) result) rest id,
    lookup-insert (key r) id (or_nil (lookup (key r) result) ++ (r ∷ [])) result,
    string_eq.beq_iff (key r) id,
    any_b-append p (or_nil (lookup (key r) result)) (r ∷ []),
  )

lookup-sorted :
    (groups : Dict String (List StopTimeRecord)) (id : String)
    → or_nil (lookup id (map (λ e. (e.0, by_sequence e.1)) groups))
      ≡ by_sequence (or_nil (lookup id groups))
unfolding lookup sort_stable
lookup-sorted [] id = refl
lookup-sorted ((k, records) ∷ rest) id = ground (arith, lookup-sorted rest id)

decoded-injective {ℓ} : {A : Type ℓ} (a b : A) → decoded a ≡ decoded b → b ≡ a
decoded-injective a b e = cc

-- Where the rows of stop_times.txt can be read as these records, a trip has a record that passes any test
-- exactly if there is such a record with the ID of the trip.
pub parse_stop_times_csv_lem :
    (atoi : String → ℤ) (rows : Option (List Row)) (records : List StopTimeRecord)
    (found : Dict String (List StopTimeRecord)) (id : String) (p : StopTimeRecord → Bool)
    → stop_time_rows atoi rows ≡ decoded records
    → parse_stop_times_csv atoi rows ≡ decoded found
    → any_b p (or_nil (lookup id found))
      ≡ any_b (λ (r : StopTimeRecord). r.trip_id == id && p r) records
unfolding parse_stop_times_csv lookup
parse_stop_times_csv_lem atoi rows records found id p read parsed =
    let built : decoded (grouped_stop_times records) ≡ decoded found =
      subst (λ o. then_build grouped_stop_times o ≡ decoded found) read parsed in
    rw
      (
        decoded-injective (grouped_stop_times records) found built,
        lookup-sorted (group trip_key [] records) id,
      )
      (any_b-sort_stable (λ (a : StopTimeRecord) b. ltb_ℤ a.stop_sequence b.stop_sequence) p
          (or_nil (lookup id (group trip_key [] records)))
        ∙ group_lem trip_key p [] records id)
