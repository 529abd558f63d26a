-- ===== src/Ndic/Parser/Items.antt =====
-- parseNDICXML of backend/ndic-preprocessor/src/parser.go as a whole: the items it reads, the
-- snapshots they make, and the fuel it needs.
use rio_t_preprocessors.Base.{
  ℕ, zero, suc, ◌+◌, Bool, true, false, String, string_eq, bool_eq, ◌==◌, if◌then◌else◌, Option,
  none, some, List, [], ◌∷◌, ◌≡◌, refl, sym, ap, ◌∙◌, inl, inr, Bool-cases, length,
}
use rio_t_preprocessors.Base.Maps.{Dict, lookup}
use rio_t_preprocessors.Base.Time.{Time}
use rio_t_preprocessors.Ndic.Model.{Snapshot}
use rio_t_preprocessors.Ndic.Xml.{
  Token, start_element, end_element, char_data, other_token, split_element,
}
use rio_t_preprocessors.Ndic.Elaborated.{
  document_error, Attempt, done, fails, out_of_fuel, ◌>>=◌, Library, Elaborated,
  parse_elaborated_data,
}
use rio_t_preprocessors.Ndic.Parser.{
  Item, item_of, add_found, add_elaborated, decode_elaborated_payload, parse_snapshots,
  parse_ndic_xml, publication_time_or, extract_publication_time,
}
use rio_t_preprocessors.Ndic.Parser.Expected.{source_snapshot}
use rio_t_preprocessors.Ndic.Parser.Merged.{add_all, add_all-source_snapshot}

module _ {F : Type 0} where
  unfoldable pub with_item : Option (Item F) → List (Item F) → List (Item F)
  with_item none items = items
  with_item (some item) items = item ∷ items

  add_all-with_item :
      (found : Option (Item F)) (items : List (Item F)) (m : Dict String (Snapshot F))
      → add_all (with_item found items) m ≡ add_all items (add_found found m)
  unfolding with_item add_found add_all
  add_all-with_item none items m = refl
  add_all-with_item (some item) items m = refl

module _ {A B C : Type 0} where
  bind_assoc :
      (a : Attempt A) (f : A → Attempt B) (g : B → Attempt C)
      → (a >>= f >>= g) ≡ (a >>= (λ x. f x >>= g))
  unfolding ◌>>=◌
  bind_assoc (done x) f g = refl
  bind_assoc (fails e) f g = refl
  bind_assoc out_of_fuel f g = refl

module _ {A B : Type 0} where
  bind_cong : (a : Attempt A) (f g : A → Attempt B) → ((x : A) → f x ≡ g x) → (a >>= f) ≡ (a >>= g)
  unfolding ◌>>=◌
  bind_cong (done x) f g h = h x
  bind_cong (fails e) f g h = refl
  bind_cong out_of_fuel f g h = refl

module _ {F : Type 0} (library : Library F) where
  -- The items of a document, in order: one for each `elaboratedData` with a source and an entry.
  unfoldable pub document_items : ℕ → Bool → List Token → Attempt (List (Item F))
  unfolding ◌>>=◌ with_item
  document_items zero complete tokens = out_of_fuel
  document_items (suc fuel) complete [] = if complete then done [] else fails document_error
  document_items (suc fuel) complete (start_element local attributes ∷ rest) =
      let skipped = document_items fuel complete rest in
      let read = decode_elaborated_payload (split_element 0 rest) >>= (λ payload.
        parse_elaborated_data library fuel true payload.0 >>= (λ state.
          document_items fuel complete payload.1
          >>= (λ items. done (with_item (item_of state) items)))) in
      if local == "elaboratedData" then read else skipped
  document_items (suc fuel) complete (token ∷ rest) = document_items fuel complete rest

  -- The two loops agree on an element where they agree on the rest.
  one_element :
      (fuel : ℕ) (complete : Bool) (m : Dict String (Snapshot F))
      → ((tokens : List Token) (n : Dict String (Snapshot F))
          → parse_snapshots library fuel complete tokens n
            ≡ (document_items fuel complete tokens >>= (λ items. done (add_all items n))))
      → (payload : List Token × List Token) (state : Elaborated F)
      → parse_snapshots library fuel complete payload.1 (add_elaborated state m) ≡ (
          document_items fuel complete payload.1
          >>= (λ items. done (with_item (item_of state) items))
          >>= (λ items. done (add_all items m)))
  unfolding add_elaborated ◌>>=◌
  one_element fuel complete m same payload state =
      same payload.1 (add_elaborated state m)
      ∙ bind_cong (document_items fuel complete payload.1)
          (λ items. done (add_all items (add_elaborated state m)))
          (λ items. done (with_item (item_of state) items) >>= (λ all. done (add_all all m)))
          (λ items. ap done (sym (add_all-with_item (item_of state) items m)))
      ∙ sym (
          bind_assoc (document_items fuel complete payload.1)
            (λ items. done (with_item (item_of state) items)) (λ items. done (add_all items m)))

  -- The element that `split_element` found, if any.
  elaborated_element :
      (fuel : ℕ) (complete : Bool) (m : Dict String (Snapshot F))
      → ((tokens : List Token) (n : Dict String (Snapshot F))
          → parse_snapshots library fuel complete tokens n
            ≡ (document_items fuel complete tokens >>= (λ items. done (add_all items n))))
      → (found : Option (List Token × List Token))
      → (decode_elaborated_payload found >>= (λ payload.
          parse_elaborated_data library fuel true payload.0
          >>= (λ state. parse_snapshots library fuel complete payload.1 (add_elaborated state m))))
        ≡ (decode_elaborated_payload found
            >>= (λ payload. parse_elaborated_data library fuel true payload.0 >>= (λ state.
                document_items fuel complete payload.1
                >>= (λ items. done (with_item (item_of state) items))))
            >>= (λ items. done (add_all items m)))
  unfolding decode_elaborated_payload ◌>>=◌
  elaborated_element fuel complete m same none = refl
  elaborated_element fuel complete m same (some payload) =
      let items_after = (λ (state : Elaborated F).
        document_items fuel complete payload.1
        >>= (λ items. done (with_item (item_of state) items))) in
      bind_cong (parse_elaborated_data library fuel true payload.0)
        (λ state. parse_snapshots library fuel complete payload.1 (add_elaborated state m))
        (λ state. items_after state >>= (λ items. done (add_all items m)))
        (one_element fuel complete m same payload)
      ∙ sym (
          bind_assoc (parse_elaborated_data library fuel true payload.0) items_after
            (λ items. done (add_all items m)))

  parse_snapshots-items :
      (fuel : ℕ) (complete : Bool) (tokens : List Token) (m : Dict String (Snapshot F))
      → parse_snapshots library fuel complete tokens m
        ≡ (document_items fuel complete tokens >>= (λ items. done (add_all items m)))
  unfolding parse_snapshots document_items add_all ◌>>=◌
  parse_snapshots-items zero complete tokens m = refl
  parse_snapshots-items (suc fuel) true [] m = refl
  parse_snapshots-items (suc fuel) false [] m = refl
  parse_snapshots-items (suc fuel) complete (start_element local attributes ∷ rest) m =
      elim (Bool-cases (local == "elaboratedData")) [
        | inl y ↦ rw y (
            elaborated_element fuel complete m (parse_snapshots-items fuel complete)
              (split_element 0 rest))
        | inr n ↦ rw n (parse_snapshots-items fuel complete rest m)
      ]
  parse_snapshots-items (suc fuel) complete (end_element local ∷ rest) m =
      parse_snapshots-items fuel complete rest m
  parse_snapshots-items (suc fuel) complete (char_data text ∷ rest) m =
      parse_snapshots-items fuel complete rest m
  parse_snapshots-items (suc fuel) complete (other_token ∷ rest) m =
      parse_snapshots-items fuel complete rest m

  -- A document parses exactly if all of its items can be read, and for every source the publication
  -- then holds what the items of that source describe: the first location codes that are not empty,
  -- the latest of the times, the last level, speed and travel time, and the entries in order. A
  -- source without an item has no snapshot.
  pub parse_ndic_xml-source_snapshot :
      (now : Time) (complete : Bool) (tokens : List Token) (source_id : String)
      → (parse_ndic_xml library now complete tokens
          >>= (λ fetch. done (lookup source_id fetch.snapshots)))
        ≡ (document_items (length tokens + 1) complete tokens
            >>= (λ items. done (source_snapshot source_id items)))
  unfolding parse_ndic_xml ◌>>=◌
  parse_ndic_xml-source_snapshot now complete tokens source_id =
      let time = publication_time_or now (extract_publication_time library tokens) in
      let read = document_items (length tokens + 1) complete tokens in
      rw (parse_snapshots-items (length tokens + 1) complete tokens []) (
        bind_assoc (read >>= (λ items. done (add_all items [])))
          (λ all. done (record { publication_time = time; snapshots = all }))
          (λ fetch. done (lookup source_id fetch.snapshots))
        ∙ bind_assoc read (λ items. done (add_all items [])) (λ all. done (lookup source_id all))
        ∙ bind_cong read (λ items. done (lookup source_id (add_all items [])))
            (λ items. done (source_snapshot source_id items))
            (λ items. ap done (add_all-source_snapshot source_id items)))

  -- The publication of a document whose items are known.
  pub parse_ndic_xml-items :
      (now : Time) (complete : Bool) (tokens : List Token) (items : List (Item F))
      → document_items (length tokens + 1) complete tokens ≡ done items
      → parse_ndic_xml library now complete tokens
        ≡ done (record {
          publication_time = publication_time_or now (extract_publication_time library tokens);
          snapshots = add_all items [];
        })
  unfolding parse_ndic_xml ◌>>=◌
  parse_ndic_xml-items now complete tokens items h =
      rw (parse_snapshots-items (length tokens + 1) complete tokens [], h) refl
