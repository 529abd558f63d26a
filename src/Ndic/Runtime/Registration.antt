-- ===== src/Ndic/Runtime/Registration.antt =====
-- Which instances the processing of a publication registers.
use rio_t_preprocessors.Base.{
  true, false, not, ◌&&◌, ◌||◌, String, string_eq, ◌==◌, some, List, [], ◌∷◌, ◌++◌, map, ◌≡◌, arith,
  elem, IsDistinct, Bool-cases, inl, inr,
}
use rio_t_preprocessors.Base.Int.{ℤ}
use rio_t_preprocessors.Base.Maps.{Dict}
use rio_t_preprocessors.Base.Time.{Time}
use rio_t_preprocessors.Commons.Sets.{Set, contains-add}
use rio_t_preprocessors.Commons.Messages.{SdInstanceInfo, info_eq, RegistrationMessage}
use rio_t_preprocessors.Ndic.Model.{Snapshot, AppConfig}
use rio_t_preprocessors.Ndic.Labels.{build_ndic_instance_label}
use rio_t_preprocessors.Ndic.Publish.{build_registration_message}
use rio_t_preprocessors.Ndic.Runtime.{
  Runtime, Oracle, Progress, start_progress, ndic_instance_uid, info, should_register_instance,
  mark_instance_registered, register_snapshot, process_snapshot, process_snapshots,
  process_fetch_result,
}

-- The UIDs of a publication's snapshots, and of registrations.
abbrev pub snapshot_uids : {F : Type 0} → Dict String (Snapshot F) → List String
snapshot_uids = map (λ e. ndic_instance_uid e.0)

abbrev pub registered_uids : List RegistrationMessage → List String
registered_uids = map (λ m. m.sd_instance_uid)

should_register-mark :
    (sd : Set SdInstanceInfo) (uid x : String)
    → should_register_instance (mark_instance_registered sd uid) x
      ≡ (not (uid == x) && should_register_instance sd x)
unfolding should_register_instance mark_instance_registered
should_register-mark sd uid x = ground (
  arith,
  contains-add sd (info uid false) (info x true),
  contains-add sd (info uid false) (info x false),
  string_eq.beq_iff uid x,
)

registered_uids-append :
    (ms : List RegistrationMessage) (m : RegistrationMessage) (x : String)
    → elem x (registered_uids (ms ++ m ∷ []))
      ≡ (elem x (registered_uids ms) || (m.sd_instance_uid == x))
registered_uids-append [] m x = ground arith
registered_uids-append (n ∷ ms) m x = ground (arith, registered_uids-append ms m x)

IsDistinct-snoc :
    (ms : List RegistrationMessage) (m : RegistrationMessage)
    → IsDistinct (registered_uids ms)
    → elem m.sd_instance_uid (registered_uids ms) ≡ false
    → IsDistinct (registered_uids (ms ++ m ∷ []))
IsDistinct-snoc [] m d h = ground arith
IsDistinct-snoc (n ∷ ms) m d h = (
  ground (
    arith,
    registered_uids-append ms m n.sd_instance_uid,
    string_eq.beq_iff n.sd_instance_uid m.sd_instance_uid,
    string_eq.beq_iff m.sd_instance_uid n.sd_instance_uid,
  ),
  IsDistinct-snoc ms m d.1 (ground arith),
)

-- What is registered so far is registered once, and is known.
record IsSettled (sd : Set SdInstanceInfo) (ms : List RegistrationMessage) : Type 0 where
  distinct : IsDistinct (registered_uids ms)
  known : (x : String) → elem x (registered_uids ms) ≡ true → should_register_instance sd x ≡ false

module _ (o : Oracle) (uid label : String) (sd : Set SdInstanceInfo)
    (ms : List RegistrationMessage) where
  register_snapshot-should :
      (x : String)
      → should_register_instance (register_snapshot o uid label sd ms).0 x
        ≡ (not (uid == x) && should_register_instance sd x)
  unfolding register_snapshot
  register_snapshot-should x =
      ground (arith, should_register-mark sd uid x, string_eq.beq_iff uid x)

  register_snapshot-elem :
      (x : String)
      → elem x (registered_uids (register_snapshot o uid label sd ms).1)
        ≡ (elem x (registered_uids ms) || ((uid == x) && should_register_instance sd x))
  unfolding register_snapshot build_registration_message
  register_snapshot-elem x = ground (
    arith,
    registered_uids-append ms (build_registration_message (o.now uid) uid label) x,
    string_eq.beq_iff uid x,
  )

  register_snapshot-IsSettled :
      IsSettled sd ms
      → IsSettled (register_snapshot o uid label sd ms).0 (register_snapshot o uid label sd ms).1
  unfolding register_snapshot build_registration_message
  register_snapshot-IsSettled h = elim (Bool-cases (should_register_instance sd uid)) [
    | inl new ↦
        rw (new, register_snapshot)
          (record {
            distinct =
                IsDistinct-snoc ms (build_registration_message (o.now uid) uid label) h.distinct
                  (ground (arith, h.known uid));
            known = λ x m. ground (
              arith,
              h.known x,
              should_register-mark sd uid x,
              registered_uids-append ms (build_registration_message (o.now uid) uid label) x,
              string_eq.beq_iff uid x,
            );
          })
    | inr old ↦ rw (old, register_snapshot) h
  ]

module _ {F : Type 0} (float_of_int : ℤ → F) (config : AppConfig) (o : Oracle) (t : Time) where
  -- What the loop does to the set of known instances and to the registrations.
  record Registers (sd : Set SdInstanceInfo) (ms : List RegistrationMessage) (uids : List String)
      (sd' : Set SdInstanceInfo) (ms' : List RegistrationMessage) : Type 0 where
    should :
        (x : String)
        → should_register_instance sd' x ≡ (not (elem x uids) && should_register_instance sd x)
    registered :
        (x : String)
        → elem x (registered_uids ms')
          ≡ (elem x (registered_uids ms) || (elem x uids && should_register_instance sd x))
    settled : IsSettled sd ms → IsSettled sd' ms'

  process_snapshots-Registers :
      (l : Dict String (Snapshot F)) (p : Progress F)
      → Registers p.runtime.sd_instances p.registrations
          (snapshot_uids l)
          (process_snapshots float_of_int config o t l p).runtime.sd_instances
          (process_snapshots float_of_int config o t l p).registrations
  unfolding process_snapshots process_snapshot
  process_snapshots-Registers [] p = record {
    should = λ x. ground arith;
    registered = λ x. ground arith;
    settled = λ h. h;
  }
  process_snapshots-Registers ((source_id, snapshot) ∷ rest) p =
      let uid = ndic_instance_uid source_id in
      let sd = p.runtime.sd_instances in
      let ms = p.registrations in
      let label = build_ndic_instance_label (some snapshot) in
      let ih =
        process_snapshots-Registers rest
          (process_snapshot float_of_int config o t source_id snapshot p) in
      record {
        should = λ x. ground (arith, ih.should x, register_snapshot-should o uid label sd ms x);
        registered = λ x. ground (
          arith,
          ih.registered x,
          register_snapshot-should o uid label sd ms x,
          register_snapshot-elem o uid label sd ms x,
        );
        settled = λ h. ih.settled (register_snapshot-IsSettled o uid label sd ms h);
      }

  -- A publication registers exactly the instances of its snapshots that were not known before,
  -- each once, and leaves all of them known and no other instance that was not.
  pub process_fetch_result-registrations :
      (snapshots : Dict String (Snapshot F)) (rt : Runtime)
      → let after =
          process_fetch_result float_of_int config o
            (record { publication_time = t; snapshots = snapshots })
            rt in
        IsDistinct (registered_uids after.1)
        × ((x : String)
            → elem x (registered_uids after.1)
              ≡ (elem x (snapshot_uids snapshots) && should_register_instance rt.sd_instances x))
        × ((x : String)
            → should_register_instance after.0.sd_instances x ≡ (
                not (elem x (snapshot_uids snapshots))
                && should_register_instance rt.sd_instances x))
  unfolding process_fetch_result
  process_fetch_result-registrations snapshots rt =
      let loop = process_snapshots-Registers snapshots (start_progress rt) in
      (
        (loop.settled (record { distinct = tt; known = λ x h. cc })).distinct,
        loop.registered,
        loop.should,
      )
