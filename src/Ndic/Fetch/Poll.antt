-- ===== src/Ndic/Fetch/Poll.antt =====
-- One poll in backend/ndic-preprocessor/src/fetch.go from the download to the states: the parser, the
-- enrichment and the runtime together.
use rio_t_preprocessors.Base.{
  ◌+◌, Bool, false, ◌||◌, String, string_eq, ◌==◌, Option, none, some, List, [], ◌∷◌, ◌≡◌, refl,
  ◌∙◌, ap, arith, map, elem, length,
}
use rio_t_preprocessors.Base.Int.{ℤ}
use rio_t_preprocessors.Base.Maps.{Dict, lookup, insert}
use rio_t_preprocessors.Base.Time.{Time}
use rio_t_preprocessors.Ndic.Model.{AppConfig, Snapshot, ParsedFetch}
use rio_t_preprocessors.Ndic.Elaborated.{done, Library}
use rio_t_preprocessors.Ndic.Parser.{
  Item, add_item, merge_item, snapshot_for, publication_time_or, extract_publication_time,
}
use rio_t_preprocessors.Ndic.Parser.Merged.{add_all}
use rio_t_preprocessors.Ndic.Parser.Items.{document_items, parse_ndic_xml-items}
use rio_t_preprocessors.Ndic.Tmc.{Points, enrich_fetch, enrich_all}
use rio_t_preprocessors.Ndic.Runtime.{Runtime, Oracle, ndic_instance_uid}
use rio_t_preprocessors.Ndic.Runtime.Registration.{snapshot_uids}
use rio_t_preprocessors.Ndic.Runtime.Activity.{is_active, process_fetch_result-activity}
use rio_t_preprocessors.Ndic.Fetch.{
  Decoders, response, unwrap_xml, parse_unwrapped, read_body, fetch_ndic, parsed, enriched,
  process_fetch, fetch_and_process_ndic_data,
}

or_false : (b : Bool) → (b || false) ≡ b
or_false b = ground arith

module _ {F : Type 0} where
  -- The instances that items are about.
  abbrev pub item_uids : List (Item F) → List String
  item_uids = map (λ item. ndic_instance_uid item.source_id)

  snapshot_uids-insert :
      (source_id x : String) (s : Snapshot F) (m : Dict String (Snapshot F))
      → elem x (snapshot_uids (insert source_id s m))
        ≡ ((ndic_instance_uid source_id == x) || elem x (snapshot_uids m))
  unfolding insert
  snapshot_uids-insert source_id x s [] = ground arith
  snapshot_uids-insert source_id x s ((first, t) ∷ rest) =
      ground (arith, snapshot_uids-insert source_id x s rest, string_eq.beq_iff first source_id)

  snapshot_uids-add_all :
      (x : String) (items : List (Item F)) (m : Dict String (Snapshot F))
      → elem x (snapshot_uids (add_all items m))
        ≡ (elem x (item_uids items) || elem x (snapshot_uids m))
  unfolding add_all add_item
  snapshot_uids-add_all x [] m = refl
  snapshot_uids-add_all x (item ∷ items) m =
      let new = merge_item item (snapshot_for item.source_id (lookup item.source_id m)) in
      ground (
        arith,
        snapshot_uids-add_all x items (add_item item m),
        snapshot_uids-insert item.source_id x new m,
      )

module _ {F : Type 0} (parse_float : String → Option F) where
  snapshot_uids-enrich_all :
      (points : Points) (m : Dict String (Snapshot F))
      → snapshot_uids (enrich_all parse_float points m) ≡ snapshot_uids m
  unfolding enrich_all
  snapshot_uids-enrich_all points [] = refl
  snapshot_uids-enrich_all points ((id, s) ∷ rest) =
      ap (λ ids. ndic_instance_uid id ∷ ids) (snapshot_uids-enrich_all points rest)

  snapshot_uids-enriched :
      (points : Option Points) (fetch : ParsedFetch F)
      → snapshot_uids (enriched parse_float points fetch).snapshots ≡ snapshot_uids fetch.snapshots
  unfolding enriched enrich_fetch
  snapshot_uids-enriched none fetch = refl
  snapshot_uids-enriched (some points) fetch =
      ground (arith, snapshot_uids-enrich_all points fetch.snapshots)

module _ {F : Type 0} (float_of_int : ℤ → F) (parse_float : String → Option F) (config : AppConfig)
    (o : Oracle) (points : Option Points) (library : Library F) (decoders : Decoders F) where
  -- After a poll whose download has a document that can be read, an instance is active exactly if
  -- the document has an item of its source, whatever was active before and with or without a table
  -- for the enrichment.
  pub fetch_and_process_ndic_data-activity :
      (now : Time) (content_type body xml : String) (items : List (Item F)) (rt : Runtime)
      (x : String)
      → unwrap_xml library decoders content_type body ≡ some xml
      → document_items library
          (length (decoders.decode_xml xml).tokens + 1)
          (decoders.decode_xml xml).complete
          (decoders.decode_xml xml).tokens
        ≡ done items
      → is_active (
          lookup x
            (fetch_and_process_ndic_data float_of_int parse_float config o points library decoders
              now
              (response 200 content_type (some body))
              rt).0.0.instance_states)
        ≡ elem x (item_uids items)
  unfolding fetch_and_process_ndic_data fetch_ndic read_body parse_unwrapped parsed process_fetch
  fetch_and_process_ndic_data-activity now content_type body xml items rt x unwrapped read =
      let document = decoders.decode_xml xml in
      let fetch : ParsedFetch F = record {
        publication_time =
            publication_time_or now (extract_publication_time library document.tokens);
        snapshots = add_all items [];
      } in
      let known = enriched parse_float points fetch in
      rw (unwrapped, parse_ndic_xml-items library now document.complete document.tokens items read)
        ((process_fetch_result-activity float_of_int config o known.publication_time known.snapshots
            rt x).0
          ∙ ap (elem x) (snapshot_uids-enriched parse_float points fetch)
          ∙ snapshot_uids-add_all x items []
          ∙ or_false (elem x (item_uids items)))
