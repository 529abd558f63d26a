-- ===== src/Ndic/Parser/Sound.antt =====
-- parseNDICXML of backend/ndic-preprocessor/src/parser.go: it ends on every document, and what its
-- snapshots then hold.
use rio_t_preprocessors.Base.{
  ℕ, zero, suc, ◌+◌, ◌<◌, Bool, true, false, String, string_eq, bool_eq, ◌==◌, Option, none, some,
  List, [], ◌∷◌, ◌≡◌, refl, sym, subst, arith, inl, inr, Bool-cases, length, All, All-append,
  IsDistinct,
}
use rio_t_preprocessors.Base.Maps.{Dict, keys, lookup, insert-IsDistinct, All-insert, All-lookup}
use rio_t_preprocessors.Base.Time.{Time}
use rio_t_preprocessors.Ndic.Model.{RawEntry, Snapshot, ParsedFetch}
use rio_t_preprocessors.Ndic.Xml.{
  Token, start_element, end_element, char_data, other_token, split_element, split_element-shorter,
}
use rio_t_preprocessors.Ndic.Xml.Part.{
  IsWithin, IsWithin-refl, IsWithin-tail, split_element-IsWithin,
}
use rio_t_preprocessors.Ndic.Elaborated.{
  Attempt, done, fails, out_of_fuel, ◌>>=◌, Library, Location, Elaborated, parse_elaborated_data,
}
use rio_t_preprocessors.Ndic.Elaborated.Checked.{
  IsAnyVehicle, IsReadFrom, Keeps, ResultKeeps, parse_elaborated_data-ResultKeeps,
}
use rio_t_preprocessors.Ndic.Parser.{
  Item, merge_item, snapshot_for, add_item, item_from, item_of, add_found, add_elaborated,
  decode_elaborated_payload, parse_snapshots, parse_ndic_xml, publication_time_or,
  extract_publication_time,
}
use rio_t_preprocessors.Ndic.Parser.Merged.{described, merge_item-described}

module _ {F : Type 0} (library : Library F) (document : List Token) where
  -- An entry for any vehicle with the fields of its own type, those of an element of the document.
  abbrev pub IsReading : RawEntry F → Type 0
  IsReading entry = IsAnyVehicle entry.type entry × IsReadFrom library document entry.type entry

  -- A snapshot stands under its own identification, which is not empty.
  abbrev pub IsFiled : String × Snapshot F → Type 0
  IsFiled (id, s) =
      (s.source_identification ≡ id) × ((id == "") ≡ false) × All IsReading s.raw_entries

  abbrev pub AreSound : Dict String (Snapshot F) → Type 0
  AreSound snapshots = IsDistinct (keys snapshots) × All IsFiled snapshots

  abbrev pub SoundSnapshots : Attempt (Dict String (Snapshot F)) → Type 0
  SoundSnapshots (done snapshots) = AreSound snapshots
  SoundSnapshots (fails e) = Unit
  SoundSnapshots out_of_fuel = ⊥

  abbrev pub SoundFetch : Attempt (ParsedFetch F) → Type 0
  SoundFetch (done fetch) = AreSound fetch.snapshots
  SoundFetch (fails e) = Unit
  SoundFetch out_of_fuel = ⊥

  merge_item-IsFiled :
      (id : String) (item : Item F) (s : Snapshot F)
      → IsReading item.entry
      → IsFiled (id, s)
      → IsFiled (id, merge_item item s)
  unfolding described
  merge_item-IsFiled id item s h filed =
      rw (merge_item-described item s)
        (filed.0, filed.1, All-append IsReading s.raw_entries (item.entry ∷ []) filed.2 (h, tt))

  snapshot_for-IsFiled :
      (id : String) (found : Option (Snapshot F)) (m : Dict String (Snapshot F))
      → (id == "") ≡ false
      → lookup id m ≡ found
      → All IsFiled m
      → IsFiled (id, snapshot_for id found)
  unfolding snapshot_for
  snapshot_for-IsFiled id none m n h a = (refl, n, tt)
  snapshot_for-IsFiled id (some s) m n h a = All-lookup IsFiled id s m a h

  add_item-AreSound :
      (item : Item F) (m : Dict String (Snapshot F))
      → (item.source_id == "") ≡ false
      → IsReading item.entry
      → AreSound m
      → AreSound (add_item item m)
  unfolding add_item
  add_item-AreSound item m n h sound =
      let old = snapshot_for item.source_id (lookup item.source_id m) in
      (
        insert-IsDistinct item.source_id (merge_item item old) m sound.0,
        All-insert IsFiled item.source_id (merge_item item old) m
            (merge_item-IsFiled item.source_id item old h
              (snapshot_for-IsFiled item.source_id (lookup item.source_id m) m n refl sound.1))
            sound.1,
      )

  item_from-AreSound :
      (source_id data_type : String) (location : Location) (entry : Option (RawEntry F))
      (m : Dict String (Snapshot F))
      → Keeps library document data_type entry
      → AreSound m
      → AreSound (add_found (item_from source_id data_type location entry) m)
  unfolding item_from add_found
  item_from-AreSound source_id data_type location none m keeps sound = sound
  item_from-AreSound source_id data_type location (some entry) m keeps sound =
      elim (Bool-cases (source_id == "")) [
        | inl y ↦ rw y sound
        | inr n ↦
            let item : Item F = record {
              source_id = source_id;
              data_type = data_type;
              location = location;
              entry = entry;
            } in
            rw n (
              add_item-AreSound item m n
                (subst (λ type. IsAnyVehicle type entry × IsReadFrom library document type entry)
                  (sym keeps.0.1) keeps)
                sound)
      ]

  after_state :
      (a : Attempt (Elaborated F)) (next : Elaborated F → Attempt (Dict String (Snapshot F)))
      → ResultKeeps library document a
      → ((state : Elaborated F)
          → Keeps library document state.data_type state.entry
          → SoundSnapshots (next state))
      → SoundSnapshots (a >>= next)
  unfolding ◌>>=◌
  after_state (done state) next keeps go = go state keeps
  after_state (fails e) next keeps go = tt
  after_state out_of_fuel next keeps go = absurd keeps

  -- The payload's loop has fuel, and the rest of the document has what this one has.
  element-SoundSnapshots :
      (fuel : ℕ) (complete : Bool) (m : Dict String (Snapshot F))
      → ((tokens : List Token) (n : Dict String (Snapshot F))
          → length tokens < fuel
          → IsWithin tokens document
          → AreSound n
          → SoundSnapshots (parse_snapshots library fuel complete tokens n))
      → AreSound m
      → (found : Option (List Token × List Token))
      → ((inner rest : List Token) → found ≡ some (inner, rest) → length inner + length rest < fuel)
      → ((inner rest : List Token)
          → found ≡ some (inner, rest)
          → IsWithin inner document × IsWithin rest document)
      → SoundSnapshots (
          decode_elaborated_payload found >>= (λ payload.
            parse_elaborated_data library fuel true payload.0 >>= (λ state.
              parse_snapshots library fuel complete payload.1 (add_elaborated state m))))
  unfolding decode_elaborated_payload ◌>>=◌ add_elaborated item_of
  element-SoundSnapshots fuel complete m go sound none short inside = tt
  element-SoundSnapshots fuel complete m go sound (some (inner, rest)) short inside =
      after_state (parse_elaborated_data library fuel true inner)
        (λ state. parse_snapshots library fuel complete rest (add_elaborated state m))
        (parse_elaborated_data-ResultKeeps library document fuel true inner
          (omega (arith, short inner rest refl)) (inside inner rest refl).0)
        (λ state keeps.
          go rest (add_elaborated state m) (omega (arith, short inner rest refl))
            (inside inner rest refl).1
            (item_from-AreSound state.source_id state.data_type state.location state.entry m keeps
              sound))

  parse_snapshots-SoundSnapshots :
      (fuel : ℕ) (complete : Bool) (tokens : List Token) (m : Dict String (Snapshot F))
      → length tokens < fuel
      → IsWithin tokens document
      → AreSound m
      → SoundSnapshots (parse_snapshots library fuel complete tokens m)
  unfolding parse_snapshots
  parse_snapshots-SoundSnapshots zero complete tokens m l w sound = absurd (omega (arith, l))
  parse_snapshots-SoundSnapshots (suc fuel) true [] m l w sound = sound
  parse_snapshots-SoundSnapshots (suc fuel) false [] m l w sound = tt
  parse_snapshots-SoundSnapshots (suc fuel) complete (start_element local attributes ∷ rest) m l w
        sound =
      elim (Bool-cases (local == "elaboratedData")) [
        | inl y ↦ rw y (
            element-SoundSnapshots fuel complete m (parse_snapshots-SoundSnapshots fuel complete)
              sound (split_element 0 rest)
              (λ inner after h. omega (arith, l, split_element-shorter 0 rest inner after h))
              (λ inner after h.
                split_element-IsWithin 0 rest inner after document h
                  (IsWithin-tail (start_element local attributes) rest document w)))
        | inr n ↦ rw n (
            parse_snapshots-SoundSnapshots fuel complete rest m (omega (arith, l))
              (IsWithin-tail (start_element local attributes) rest document w) sound)
      ]
  parse_snapshots-SoundSnapshots (suc fuel) complete (end_element local ∷ rest) m l w sound =
      parse_snapshots-SoundSnapshots fuel complete rest m (omega (arith, l))
        (IsWithin-tail (end_element local) rest document w) sound
  parse_snapshots-SoundSnapshots (suc fuel) complete (char_data text ∷ rest) m l w sound =
      parse_snapshots-SoundSnapshots fuel complete rest m (omega (arith, l))
        (IsWithin-tail (char_data text) rest document w) sound
  parse_snapshots-SoundSnapshots (suc fuel) complete (other_token ∷ rest) m l w sound =
      parse_snapshots-SoundSnapshots fuel complete rest m (omega (arith, l))
        (IsWithin-tail (other_token) rest document w) sound

  published_sound :
      (read : Attempt (Dict String (Snapshot F))) (time : Time)
      → SoundSnapshots read
      → SoundFetch (read >>= (λ all. done (record { publication_time = time; snapshots = all })))
  unfolding ◌>>=◌
  published_sound (done all) time sound = sound
  published_sound (fails e) time sound = tt
  published_sound out_of_fuel time sound = absurd sound

-- The parser ends on every document, with an error or with a publication in which every snapshot
-- stands once, under its own identification, which is not empty, and holds only entries for any
-- vehicle. Each entry is read from one element of the document, whose type is "TrafficStatus",
-- "TrafficSpeed" or "TravelTimeData": it has the time and the type of vehicle of that element, and
-- the level, the speed or the duration of that element and neither of the other two readings. Only a
-- speed has a qualifier, the type of vehicle.
pub parse_ndic_xml-SoundFetch :
    {F : Type 0} (library : Library F) (now : Time) (complete : Bool) (tokens : List Token)
    → SoundFetch library tokens (parse_ndic_xml library now complete tokens)
unfolding parse_ndic_xml
parse_ndic_xml-SoundFetch library now complete tokens =
    published_sound library tokens (parse_snapshots library (length tokens + 1) complete tokens [])
      (publication_time_or now (extract_publication_time library tokens))
      (parse_snapshots-SoundSnapshots library tokens (length tokens + 1) complete tokens []
        (omega arith) (IsWithin-refl tokens) (tt, tt))
