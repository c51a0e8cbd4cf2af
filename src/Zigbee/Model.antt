-- ===== src/Zigbee/Model.antt =====
-- src/zigbee_ep.c, the data model: which attributes each cluster of each endpoint has. ZBOSS gives
-- the identifiers their numbers; an attribute that is declared without a type and an access has
-- those that ZBOSS gives it.
use Prim.Native.String.{String}
use flexit_cs60_control.Shared.{ℕ, Bool, true, List, [], ◌∷◌, ◌++◌, replicate, if◌then◌else◌}
use flexit_cs60_control.Shared.Text.{codes}
use flexit_cs60_control.Zigbee.{State, temp_count}

-- ZB_ZCL_CLUSTER_ID_...
pub data ClusterId : Type 0 where
  basic_cluster identify_cluster fan_control_cluster binary_input_cluster temp_measurement_cluster
        analog_input_cluster analog_value_cluster :
      ClusterId

-- ZB_ZCL_ATTR_..._ID, and FLEXIT_ATTR_TEMP_LABEL_ID.
pub data AttrId : Type 0 where
  zcl_version_id manufacturer_name_id model_identifier_id power_source_id identify_time_id
        fan_mode_id fan_mode_sequence_id description_id out_of_service_id present_value_id
        status_flags_id temp_value_id temp_min_value_id temp_max_value_id tolerance_id temp_label_id
        max_present_value_id min_present_value_id reliability_id resolution_id engineering_units_id
        application_type_id relinquish_default_id :
      AttrId

-- How an attribute is declared: by ZBOSS's descriptor, or with its access.
pub data Access : Type 0 where
  canned read_only reporting read_write_reporting : Access

-- An attribute, and the bytes of the ZCL character strings among the initial values.
pub record Attribute : Type 0 where
  pub attr_id : AttrId
  pub access : Access
  pub text : List ℕ

pub record Cluster : Type 0 where
  pub cluster_id : ClusterId
  pub attributes : List Attribute

-- `ZB_AF_DECLARE_ENDPOINT_DESC` with what the simple descriptor announces.
pub record Endpoint : Type 0 where
  pub ep_id : ℕ
  pub clusters : List Cluster
  pub announced : List ClusterId

-- ZB_ZCL_SET_ATTR_DESC
abbrev attr : AttrId → Attribute
attr id = record { attr_id = id; access = canned; text = [] }

-- ZB_ZCL_SET_ATTR_DESC_M
abbrev attr_m : AttrId → Access → Attribute
attr_m id access = record { attr_id = id; access = access; text = [] }

-- A character string: the length byte, then the text.
abbrev attr_text : AttrId → Access → ℕ → String → Attribute
attr_text id access len text = record { attr_id = id; access = access; text = len ∷ codes text }

-- FLEXIT_BI_DECL with FLEXIT_BI_CLUSTER_DESC
unfoldable pub bi_cluster : ℕ → String → Cluster
bi_cluster len bi_label = record {
  cluster_id = binary_input_cluster;
  attributes =
      attr_text description_id read_only len bi_label
      ∷ attr out_of_service_id
      ∷ attr_m present_value_id reporting
      ∷ attr status_flags_id
      ∷ [];
}

unfoldable pub ctrl_ep : Endpoint
unfolding bi_cluster
ctrl_ep = record {
  ep_id = 1;
  clusters =
      record {
        cluster_id = basic_cluster;
        attributes =
            attr zcl_version_id
            ∷ attr_text manufacturer_name_id canned 0x0B "SolidSystem"
            ∷ attr_text model_identifier_id canned 0x13 "flexit-cs60-control"
            ∷ attr power_source_id
            ∷ [];
      }
      ∷ record { cluster_id = identify_cluster; attributes = attr identify_time_id ∷ [] }
      ∷ record {
        cluster_id = fan_control_cluster;
        attributes = attr_m fan_mode_id read_write_reporting ∷ attr fan_mode_sequence_id ∷ [];
      }
      ∷ bi_cluster 0x0D "Filter change"
      ∷ [];
  announced = basic_cluster ∷ identify_cluster ∷ fan_control_cluster ∷ binary_input_cluster ∷ [];
}

-- FLEXIT_TEMP_EP
unfoldable pub temp_ep : ℕ → ℕ → String → ℕ → String → Endpoint
unfolding bi_cluster
temp_ep id len label bi_len bi_label = record {
  ep_id = id;
  clusters =
      record {
        cluster_id = temp_measurement_cluster;
        attributes =
            attr temp_value_id
            ∷ attr temp_min_value_id
            ∷ attr temp_max_value_id
            ∷ attr tolerance_id
            ∷ attr_text temp_label_id read_only len label
            ∷ [];
      }
      ∷ bi_cluster bi_len bi_label
      ∷ [];
  announced = temp_measurement_cluster ∷ binary_input_cluster ∷ [];
}

-- What FLEXIT_AI_EP_NO_APPTYPE declares by hand; FLEXIT_AI_EP hands ZBOSS the same attributes and
-- an application type behind them.
abbrev ai_attributes : ℕ → String → List Attribute
ai_attributes len label =
    attr_text description_id canned len label
    ∷ attr max_present_value_id
    ∷ attr min_present_value_id
    ∷ attr out_of_service_id
    ∷ attr present_value_id
    ∷ attr reliability_id
    ∷ attr resolution_id
    ∷ attr status_flags_id
    ∷ attr engineering_units_id
    ∷ []

unfoldable pub ai_ep : List Attribute → ℕ → ℕ → String → ℕ → String → Endpoint
unfolding bi_cluster
ai_ep last id len label bi_len bi_label = record {
  ep_id = id;
  clusters =
      record { cluster_id = analog_input_cluster; attributes = ai_attributes len label ++ last }
      ∷ bi_cluster bi_len bi_label
      ∷ [];
  announced = analog_input_cluster ∷ binary_input_cluster ∷ [];
}

unfoldable pub av_setpoint_ep : Endpoint
unfolding bi_cluster
av_setpoint_ep = record {
  ep_id = 7;
  clusters =
      record {
        cluster_id = analog_value_cluster;
        attributes =
            attr_text description_id canned 0x08 "setpoint"
            ∷ attr out_of_service_id
            ∷ attr_m present_value_id read_write_reporting
            ∷ attr reliability_id
            ∷ attr relinquish_default_id
            ∷ attr status_flags_id
            ∷ attr engineering_units_id
            ∷ attr application_type_id
            ∷ [];
      }
      ∷ bi_cluster 0x14 "CS60 RS485 connected"
      ∷ [];
  announced = analog_value_cluster ∷ binary_input_cluster ∷ [];
}

unfoldable pub supply_ep : Endpoint
unfolding temp_ep
supply_ep = temp_ep 2 0x06 "supply" 0x18 "Supply air sensor faulty"

unfoldable pub intake_ep : Endpoint
unfolding ai_ep
intake_ep = ai_ep [] 4 0x16 "Intake air temperature" 0x19 "Outdoor air sensor faulty"

unfoldable pub heat_exch_ep : Endpoint
unfolding ai_ep
heat_exch_ep =
    ai_ep (attr application_type_id ∷ []) 5 0x0E "Heat exchanger" 0x15 "Heat exchanger faulty"

unfoldable pub heating_ep : Endpoint
unfolding ai_ep
heating_ep =
    ai_ep (attr application_type_id ∷ []) 6 0x0F "Heating element" 0x12 "Overheat triggered"

-- `ep_list_flexit_ctx`
unfoldable pub ep_list : List Endpoint
unfolding ctrl_ep supply_ep intake_ep heat_exch_ep heating_ep av_setpoint_ep
ep_list = ctrl_ep ∷ supply_ep ∷ intake_ep ∷ heat_exch_ep ∷ heating_ep ∷ av_setpoint_ep ∷ []

-- What `zigbee_ep_init` asks of ZBOSS and of the management of uploads.
pub data InitCall : Type 0 where
  register_device_ctx : List Endpoint → InitCall
  register_device_cb mgmt_callback_register zigbee_enable : InitCall

-- `zigbee_ep_init`, with `app_clusters_attr_init`: the calls, and the temperatures that are stale
-- from then on; `radio_yield` says whether FLEXIT_DFU_RADIO_YIELD is defined.
unfoldable pub zigbee_ep_init : {F T : Type 0} → Bool → State F T → State F T × List InitCall
unfolding ep_list
zigbee_ep_init radio_yield z = (
  record z { temp_stale = replicate temp_count true },
  register_device_ctx ep_list
      ∷ register_device_cb
      ∷ ((if radio_yield then mgmt_callback_register ∷ [] else []) ++ zigbee_enable ∷ []),
)
