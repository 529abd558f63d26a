-- ===== src/Mhd/Segment/Tests.antt =====
-- Examples for the placement of vehicles: a trip with three stops on a line.
use rio_t_preprocessors.Base.{ℕ, ◌+◌, ◌<◌, ◌≡◌, ◌≢◌, ◌⊎◌, refl, true, false, some, none, get_elem?}
use rio_t_preprocessors.Base.Float.{whole}
use rio_t_preprocessors.Mhd.Samples.{three_stops, stop_at, tram, seen_at}
use rio_t_preprocessors.Mhd.Segment.{
  new_segment_match, segment_progress, valid_coords, clamp_unit, SegmentMatch,
  normalize_stop_identity, segment_index_from_last_stop, build_segment_match,
}
use rio_t_preprocessors.Mhd.Segment.Position.{
  UnitOrder, starts_segment, segment_index_from_last_stop_lem, build_segment_match_lem,
}

segment_index_from_last_stop_lem_example :
    ((j : ℕ) × (segment_index_from_last_stop three_stops "20" ≡ some j)
      × (normalize_stop_identity "20" ≢ "")
      × (starts_segment (normalize_stop_identity "20") three_stops j ≡ true)
      × ((k : ℕ) → j < k → starts_segment (normalize_stop_identity "20") three_stops k ≡ false))
    ⊎ ((segment_index_from_last_stop three_stops "20" ≡ none)
        × ((normalize_stop_identity "20" ≡ "")
            ⊎ ((k : ℕ) → starts_segment (normalize_stop_identity "20") three_stops k ≡ false)))
segment_index_from_last_stop_lem_example = segment_index_from_last_stop_lem three_stops "20"

whole_order : UnitOrder whole
whole_order = record { zero_zero = refl; one_zero = refl; one_one = refl }

abbrev on_second_segment : SegmentMatch ℕ
on_second_segment = record {
  index = 1;
  from = stop_at "U20Z1" 20;
  to = stop_at "U30Z1" 30;
  progress = 0;
}

placed : build_segment_match whole (some tram) (seen_at "20") ≡ some on_second_segment
unfolding build_segment_match segment_index_from_last_stop normalize_stop_identity new_segment_match
    segment_progress valid_coords clamp_unit
placed = refl

build_segment_match_lem_example :
    (get_elem? three_stops 1 ≡ some (stop_at "U20Z1" 20))
    × (get_elem? three_stops (1 + 1) ≡ some (stop_at "U30Z1" 30))
    × (whole.lt 0 0 ≡ false)
    × (whole.lt 1 0 ≡ false)
build_segment_match_lem_example =
    build_segment_match_lem whole whole_order tram (seen_at "20") on_second_segment placed

found_second : segment_index_from_last_stop three_stops "20" ≡ some 1
unfolding segment_index_from_last_stop normalize_stop_identity
found_second = refl
