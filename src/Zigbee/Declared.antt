-- ===== src/Zigbee/Declared.antt =====
-- src/zigbee_ep.c: what a tick writes against what the data model declares.
use flexit_cs60_control.Shared.{
  ℕ, ◌-◌, ltb, ◌≡◌, refl, Bool, true, false, not, ◌&&◌, List, [], ◌∷◌, ◌++◌, get_or, set, All, ◌==◌,
  if◌then◌else◌, Option, none, some,
}
use flexit_cs60_control.Shared.Int.{ℤ, pos}
use flexit_cs60_control.Zigbee.{Pending, State, temp_count}
use flexit_cs60_control.Zigbee.Publish.{
  Attr, measured_value, analog_input, binary_input, analog_value, fan_mode, analog_ep_id,
  binary_ep_id, publish_temps, publish_dirty, publish_link, publish_tick, temp_stale_ms,
  temp_unknown,
}
use flexit_cs60_control.Zigbee.Model.{
  ClusterId, basic_cluster, identify_cluster, fan_control_cluster, binary_input_cluster,
  temp_measurement_cluster, analog_input_cluster, analog_value_cluster, AttrId, zcl_version_id,
  manufacturer_name_id, model_identifier_id, power_source_id, identify_time_id, fan_mode_id,
  fan_mode_sequence_id, description_id, out_of_service_id, present_value_id, status_flags_id,
  temp_value_id, temp_min_value_id, temp_max_value_id, tolerance_id, temp_label_id,
  max_present_value_id, min_present_value_id, reliability_id, resolution_id, engineering_units_id,
  application_type_id, relinquish_default_id, Access, canned, read_only, reporting,
  read_write_reporting, Attribute, Cluster, Endpoint, ctrl_ep, supply_ep, intake_ep, heat_exch_ep,
  heating_ep, temp_ep, ai_ep, av_setpoint_ep, bi_cluster, ep_list,
}

-- A place for each identifier, to compare them by.
abbrev cluster_no : ClusterId → ℕ
cluster_no basic_cluster = 0
cluster_no identify_cluster = 1
cluster_no fan_control_cluster = 2
cluster_no binary_input_cluster = 3
cluster_no temp_measurement_cluster = 4
cluster_no analog_input_cluster = 5
cluster_no analog_value_cluster = 6

abbrev attr_no : AttrId → ℕ
attr_no zcl_version_id = 0
attr_no manufacturer_name_id = 1
attr_no model_identifier_id = 2
attr_no power_source_id = 3
attr_no identify_time_id = 4
attr_no fan_mode_id = 5
attr_no fan_mode_sequence_id = 6
attr_no description_id = 7
attr_no out_of_service_id = 8
attr_no present_value_id = 9
attr_no status_flags_id = 10
attr_no temp_value_id = 11
attr_no temp_min_value_id = 12
attr_no temp_max_value_id = 13
attr_no tolerance_id = 14
attr_no temp_label_id = 15
attr_no max_present_value_id = 16
attr_no min_present_value_id = 17
attr_no reliability_id = 18
attr_no resolution_id = 19
attr_no engineering_units_id = 20
attr_no application_type_id = 21
attr_no relinquish_default_id = 22

-- The accesses of the declarations of an attribute.
abbrev attr_accesses : AttrId → List Attribute → List Access
attr_accesses id [] = []
attr_accesses id (a ∷ rest) =
    if attr_no a.attr_id == attr_no id
    then a.access ∷ attr_accesses id rest
    else attr_accesses id rest

abbrev cluster_accesses : ClusterId → AttrId → List Cluster → List Access
cluster_accesses cluster id [] = []
cluster_accesses cluster id (c ∷ cs) =
    (if cluster_no c.cluster_id == cluster_no cluster then attr_accesses id c.attributes else [])
    ++ cluster_accesses cluster id cs

abbrev pub accesses : ℕ → ClusterId → AttrId → List Endpoint → List Access
accesses ep cluster id [] = []
accesses ep cluster id (e ∷ es) =
    (if e.ep_id == ep then cluster_accesses cluster id e.clusters else [])
    ++ accesses ep cluster id es

-- The target of a write of `publish_tick`, as the model declares it.
abbrev pub declared : {F : Type 0} → List Endpoint → Attr F → List Access
declared eps (measured_value ep v) = accesses ep temp_measurement_cluster temp_value_id eps
declared eps (analog_input ep v) = accesses ep analog_input_cluster present_value_id eps
declared eps (binary_input ep v) = accesses ep binary_input_cluster present_value_id eps
declared eps (analog_value ep v) = accesses ep analog_value_cluster present_value_id eps
declared eps (fan_mode ep v) = accesses ep fan_control_cluster fan_mode_id eps

-- What a declaration reports; `own` says for which clusters the descriptor that ZBOSS itself gives
-- the value reports.
abbrev pub reports : (ClusterId → Bool) → ClusterId → Access → Bool
reports own cluster canned = own cluster
reports own cluster read_only = false
reports own cluster reporting = true
reports own cluster read_write_reporting = true

-- One declaration, which reports.
abbrev pub reports_once : (ClusterId → Bool) → ClusterId → List Access → Bool
reports_once own cluster [] = false
reports_once own cluster (a ∷ []) = reports own cluster a
reports_once own cluster (a ∷ b ∷ rest) = false

-- The cluster of a write.
abbrev pub cluster_of : {F : Type 0} → Attr F → ClusterId
cluster_of (measured_value ep v) = temp_measurement_cluster
cluster_of (analog_input ep v) = analog_input_cluster
cluster_of (binary_input ep v) = binary_input_cluster
cluster_of (analog_value ep v) = analog_value_cluster
cluster_of (fan_mode ep v) = fan_control_cluster

module _ (own : ClusterId → Bool) (F : Type 0) where
  abbrev pub IsDeclared : Attr F → Type 0
  IsDeclared w = reports_once own (cluster_of w) (declared ep_list w) ≡ true

  All-append :
      (xs ys : List (Attr F)) → All IsDeclared xs → All IsDeclared ys → All IsDeclared (xs ++ ys)
  All-append [] ys a b = b
  All-append (x ∷ xs) ys a b = (a.0, All-append xs ys a.1 b)

  All-if :
      (b : Bool) (xs : List (Attr F)) → All IsDeclared xs → All IsDeclared (if b then xs else [])
  All-if true xs a = a
  All-if false xs a = tt

  dirty-IsDeclared :
      {A : Type 0}
      → (write : ℕ → A → Attr F) (eps : List ℕ) (ds : List Bool) (vs : List A)
      → All (λ ep. (v : A) → IsDeclared (write ep v)) eps
      → All IsDeclared (publish_dirty write eps ds vs)
  unfolding publish_dirty
  dirty-IsDeclared write [] ds vs a = tt
  dirty-IsDeclared write (ep ∷ eps) [] vs a = tt
  dirty-IsDeclared write (ep ∷ eps) (d ∷ ds) [] a = tt
  dirty-IsDeclared write (ep ∷ eps) (true ∷ ds) (v ∷ vs) a =
      (a.0 v, dirty-IsDeclared write eps ds vs a.1)
  dirty-IsDeclared write (ep ∷ eps) (false ∷ ds) (v ∷ vs) a = dirty-IsDeclared write eps ds vs a.1

  -- What one channel comes to.
  abbrev channel : Bool → Bool → (x y z : List Bool) → ℤ → ℤ → List Bool × List (Attr F)
  channel dirty silent x y z v w =
      if dirty
      then (x, measured_value 2 v ∷ [])
      else if silent
      then (y, measured_value 2 w ∷ [])
      else (z, [])

  temps_cases :
      own temp_measurement_cluster ≡ true
      → (dirty silent : Bool) (x y z : List Bool) (v w : ℤ)
      → All IsDeclared (channel dirty silent x y z v w).1
  unfolding ep_list ctrl_ep supply_ep intake_ep heat_exch_ep heating_ep temp_ep ai_ep av_setpoint_ep
      bi_cluster
  temps_cases r true silent x y z v w = (r, tt)
  temps_cases r false true x y z v w = (r, tt)
  temps_cases r false false x y z v w = tt

  temps-IsDeclared :
      own temp_measurement_cluster ≡ true
      → (q : Pending F) (now : ℕ) (stale : List Bool)
      → All IsDeclared (publish_temps q now temp_count 0 stale).1
  unfolding publish_temps
  temps-IsDeclared r q now stale =
      let last = get_or q.temp_last_ms 0 0 in
      temps_cases r (get_or q.temp_dirty 0 false)
        (not (get_or stale 0 false) && not (last == 0) && ltb temp_stale_ms (now - last))
        (set stale 0 false) (set stale 0 true) stale (get_or q.temp_cc 0 (pos 0)) temp_unknown

  link-IsDeclared : (up : Bool) (last : Option Bool) → All IsDeclared (publish_link up last)
  unfolding publish_link ep_list ctrl_ep supply_ep intake_ep heat_exch_ep heating_ep temp_ep ai_ep
      av_setpoint_ep bi_cluster
  link-IsDeclared up none = (refl, tt)
  link-IsDeclared true (some true) = tt
  link-IsDeclared true (some false) = (refl, tt)
  link-IsDeclared false (some true) = (refl, tt)
  link-IsDeclared false (some false) = tt

module _ {F T : Type 0} where
  -- Whatever waits and whatever is stale, each attribute that a tick writes is one that the data
  -- model declares, once, for that cluster of that endpoint, and it reports. The conditions are that
  -- ZBOSS's own descriptors of the measured temperature and of the analog inputs' value report;
  -- nothing is supposed of its others.
  pub publish_tick-IsDeclared :
      (own : ClusterId → Bool) (now : ℕ) (link_up : Bool) (z : State F T)
      → own temp_measurement_cluster ≡ true
      → own analog_input_cluster ≡ true
      → All (IsDeclared own F) (publish_tick now link_up z).1
  unfolding publish_tick ep_list ctrl_ep supply_ep intake_ep heat_exch_ep heating_ep temp_ep ai_ep
      av_setpoint_ep bi_cluster
  publish_tick-IsDeclared own now link_up z temps inputs =
      let q = z.pending in
      All-append own F _ _
        (All-append own F _ _
          (All-append own F _ _
            (All-append own F _ _
              (All-append own F _ _ (temps-IsDeclared own F temps q now z.temp_stale) (
                dirty-IsDeclared own F analog_input analog_ep_id q.analog_dirty q.analog_val
                  (λ v. inputs, (λ v. inputs, (λ v. inputs, tt)))))
              (dirty-IsDeclared own F binary_input binary_ep_id q.binary_dirty q.binary_val
                (λ v. refl, (λ v. refl, (λ v. refl, (λ v. refl, (λ v. refl, tt)))))))
            (link-IsDeclared own F link_up z.cs60_link_state))
          (All-if own F q.setpoint_dirty _ (refl, tt)))
        (All-if own F q.mode_dirty _ (refl, tt))
