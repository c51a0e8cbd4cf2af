-- ===== src/Zigbee/Tests.antt =====
-- src/zigbee_ep.c: concrete sequences of signals and upload events.
use flexit_cs60_control.Shared.{
  ℕ, ◌≡◌, refl, Bool, true, false, ◌&&◌, List, [], ◌∷◌, length, leb, ◌==◌,
}
use flexit_cs60_control.Zigbee.Model.{
  Attribute, Cluster, Endpoint, ctrl_ep, supply_ep, intake_ep, heat_exch_ep, heating_ep, temp_ep,
  ai_ep, av_setpoint_ep, bi_cluster, ep_list,
}
use flexit_cs60_control.Zigbee.Network.{
  Net, net_boot, device_first_start, zboss_signal_handler, factory_reset, track, expedite,
  start_publishing, dfu_started, dfu_radio_yield_cb, dfu_resume_work_fn, radio_boot, Radio, joining,
}
use flexit_cs60_control.Zigbee.Reach.{
  booted, signalled, reset, IsTimed, Reachable-IsTimed, on_air, event, is_armed, radio_returns,
}

-- A first start, and then a factory reset that the stack takes.
abbrev resetting : Net
resetting = factory_reset true (zboss_signal_handler device_first_start true net_boot)

Reachable-IsTimed_example : IsTimed resetting
Reachable-IsTimed_example =
    Reachable-IsTimed (reset true (signalled device_first_start true booted))

opened_window : resetting.net_state ≡ joining
unfolding factory_reset zboss_signal_handler track expedite start_publishing
opened_window = refl

abbrev uploading : Radio
uploading = dfu_radio_yield_cb true dfu_started radio_boot

upload_suspends : uploading.thread_suspended ≡ true
unfolding dfu_radio_yield_cb
upload_suspends = refl

radio_returns_example :
    (uploading.thread_suspended ≡ true → is_armed uploading.dfu_resume_work ≡ true)
    × ((dfu_resume_work_fn uploading).thread_suspended ≡ false)
radio_returns_example = radio_returns uploading (event true dfu_started on_air)

-- The first byte of each character string is its length, and there are at most 8 endpoints.
abbrev is_zcl_string : List ℕ → Bool
is_zcl_string [] = true
is_zcl_string (len ∷ text) = len == length text

abbrev strings_fit : List Attribute → Bool
strings_fit [] = true
strings_fit (a ∷ attrs) = is_zcl_string a.text && strings_fit attrs

abbrev clusters_fit : List Cluster → Bool
clusters_fit [] = true
clusters_fit (c ∷ cs) = strings_fit c.attributes && clusters_fit cs

abbrev endpoints_fit : List Endpoint → Bool
endpoints_fit [] = true
endpoints_fit (e ∷ es) = clusters_fit e.clusters && endpoints_fit es

model_fits : (endpoints_fit ep_list ≡ true) × (leb (length ep_list) 8 ≡ true)
unfolding ep_list ctrl_ep supply_ep intake_ep heat_exch_ep heating_ep temp_ep ai_ep av_setpoint_ep
    bi_cluster
model_fits = (refl, refl)
