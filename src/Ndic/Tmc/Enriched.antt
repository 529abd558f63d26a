-- ===== src/Ndic/Tmc/Enriched.antt =====
-- What the enrichment of backend/ndic-preprocessor/src/tmc.go leaves in a publication.
use rio_t_preprocessors.Base.{String, string_eq, Option, List, [], ◌∷◌, ◌≡◌, refl, arith}
use rio_t_preprocessors.Base.Maps.{Dict}
use rio_t_preprocessors.Ndic.Model.{TmcMetadata, Snapshot, ParsedFetch}
use rio_t_preprocessors.Ndic.Tmc.{
  Points, ensure_snapshot_location_codes, first_metadata, enrich_snapshot, enrich_all, enrich_fetch,
}

module _ {F : Type 0} (parse_float : String → Option F) where
  ensure-again :
      (s : Snapshot F)
      → ensure_snapshot_location_codes (ensure_snapshot_location_codes s)
        ≡ ensure_snapshot_location_codes s
  unfolding ensure_snapshot_location_codes
  ensure-again s = ground arith

  first_metadata-again :
      (points : Points) (codes : List String) (old : Option (TmcMetadata F))
      → first_metadata parse_float points codes (first_metadata parse_float points codes old)
        ≡ first_metadata parse_float points codes old
  unfolding first_metadata
  first_metadata-again points [] old = refl
  first_metadata-again points (c ∷ rest) old = ground (arith, first_metadata-again points rest old)

  metadata-codes :
      (s : Snapshot F) (found : Option (TmcMetadata F))
      → ensure_snapshot_location_codes (record s { tmc_metadata = found })
        ≡ record (ensure_snapshot_location_codes s) { tmc_metadata = found }
  unfolding ensure_snapshot_location_codes
  metadata-codes s found = ground arith

  enrich_snapshot-again :
      (points : Points) (s : Snapshot F)
      → enrich_snapshot parse_float points (enrich_snapshot parse_float points s)
        ≡ enrich_snapshot parse_float points s
  unfolding enrich_snapshot
  enrich_snapshot-again points s =
      let t = ensure_snapshot_location_codes s in
      let codes = t.primary_location_code ∷ t.secondary_location_code ∷ [] in
      rw
        (
          metadata-codes t (first_metadata parse_float points codes t.tmc_metadata),
          ensure-again s,
          first_metadata-again points codes t.tmc_metadata,
        )
        refl

  enrich_all-again :
      (points : Points) (snapshots : Dict String (Snapshot F))
      → enrich_all parse_float points (enrich_all parse_float points snapshots)
        ≡ enrich_all parse_float points snapshots
  unfolding enrich_all
  enrich_all-again points [] = refl
  enrich_all-again points ((uid, s) ∷ rest) =
      rw (enrich_snapshot-again points s, enrich_all-again points rest) refl

  -- Enriching a publication that has been enriched with the same table changes nothing.
  pub enrich_fetch-again :
      (points : Points) (fetch : ParsedFetch F)
      → enrich_fetch parse_float points (enrich_fetch parse_float points fetch)
        ≡ enrich_fetch parse_float points fetch
  unfolding enrich_fetch
  enrich_fetch-again points fetch = ground (arith, enrich_all-again points fetch.snapshots)
