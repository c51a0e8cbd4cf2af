-- ===== src/Zigbee/Network.antt =====
-- src/zigbee_ep.c: the coarse network state, the factory reset and the radio yield during a
-- firmware upload. Timers are the work items and alarms that are armed, with their seconds.
use flexit_cs60_control.Shared.{
  ℕ, ◌+◌, ◌-◌, Bool, true, false, not, ◌&&◌, Option, none, some, if◌then◌else◌,
}

-- `enum zigbee_net_state`
pub data NetState : Type 0 where
  idle joining joined : NetState

-- The signals of ZBOSS that the handler acts on.
pub data Signal : Type 0 where
  device_first_start device_reboot steering leave no_active_links_left other : Signal

-- The static state, and what is armed: alarms of `join_window_expire`, of `publish_tick`, and the
-- delay of `reboot_work`.
pub record Net : Type 0 where
  pub net_state : NetState
  pub factory_reset_pending : Bool
  pub publish_started : Bool
  pub join_alarms : ℕ
  pub publish_alarms : ℕ
  pub reboot_work : Option ℕ

abbrev pub net_boot : Net
net_boot = record {
  net_state = idle;
  factory_reset_pending = false;
  publish_started = false;
  join_alarms = 0;
  publish_alarms = 0;
  reboot_work = none;
}

-- `atomic_cas(&net_state, ZIGBEE_NET_JOINING, ZIGBEE_NET_IDLE)`
abbrev pub closed : NetState → NetState
closed idle = idle
closed joining = idle
closed joined = joined

-- `join_window_expire`, whose alarm has gone off.
unfoldable pub join_window_expire : Net → Net
join_window_expire n = record n { join_alarms = n.join_alarms - 1; net_state = closed n.net_state }

-- The switch of `zboss_signal_handler`; `ok` says that the signal's status is RET_OK.
unfoldable pub track : Signal → Bool → Net → Net
track device_first_start ok n =
    if ok then record n { net_state = joining; join_alarms = n.join_alarms + 1 } else n
track device_reboot ok n = record n { net_state = if ok then joined else idle }
track steering ok n = if ok then record n { net_state = joined } else n
track leave ok n = record n { net_state = idle }
track no_active_links_left ok n = record n { net_state = idle }
track other ok n = n

abbrev pub is_leave : Signal → Bool
is_leave leave = true
is_leave _ = false

abbrev pub is_start : Signal → Bool
is_start device_first_start = true
is_start device_reboot = true
is_start _ = false

-- The part behind the switch: a reset that waits for the leave, and the first publishing tick.
unfoldable pub expedite : Signal → Net → Net
expedite sig n =
    if is_leave sig && n.factory_reset_pending then record n { reboot_work = some 1 } else n

unfoldable pub start_publishing : Signal → Net → Net
start_publishing sig n =
    if not n.publish_started && is_start sig
    then record n { publish_started = true; publish_alarms = n.publish_alarms + 1 }
    else n

unfoldable pub zboss_signal_handler : Signal → Bool → Net → Net
zboss_signal_handler sig ok n = start_publishing sig (expedite sig (track sig ok n))

-- `zigbee_ep_factory_reset`; `scheduled` says that ZBOSS took the reset.
unfoldable pub factory_reset : Bool → Net → Net
factory_reset scheduled n =
    if n.factory_reset_pending
    then n
    else if scheduled
    then record n { factory_reset_pending = true; reboot_work = some 5 }
    else record n { factory_reset_pending = false }

-- The upload events of MCUmgr.
pub data Upload : Type 0 where
  dfu_started chunk_write_complete dfu_pending dfu_stopped other_event : Upload

-- `zboss_dfu_suspended`, whether the ZBOSS thread is suspended, and the delay of
-- `dfu_resume_work`.
pub record Radio : Type 0 where
  pub zboss_dfu_suspended : Bool
  pub thread_suspended : Bool
  pub dfu_resume_work : Option ℕ

abbrev pub radio_boot : Radio
radio_boot = record {
  zboss_dfu_suspended = false;
  thread_suspended = false;
  dfu_resume_work = none;
}

-- FLEXIT_DFU_ZBOSS_RESUME_S
abbrev pub dfu_zboss_resume_s : ℕ
dfu_zboss_resume_s = 30

unfoldable pub zboss_dfu_resume : Radio → Radio
zboss_dfu_resume r =
    if r.zboss_dfu_suspended
    then record r { zboss_dfu_suspended = false; thread_suspended = false }
    else r

-- `dfu_resume_work_fn`, whose delay has run out.
unfoldable pub dfu_resume_work_fn : Radio → Radio
dfu_resume_work_fn r = zboss_dfu_resume (record r { dfu_resume_work = none })

-- `created` is the answer of `zigbee_debug_zboss_thread_is_created`.
unfoldable pub dfu_radio_yield_cb : Bool → Upload → Radio → Radio
dfu_radio_yield_cb created dfu_started r =
    let yielded =
      if created && not r.zboss_dfu_suspended
      then record r { zboss_dfu_suspended = true; thread_suspended = true }
      else r in
    record yielded { dfu_resume_work = some dfu_zboss_resume_s }
dfu_radio_yield_cb created chunk_write_complete r = record r {
  dfu_resume_work = some dfu_zboss_resume_s;
}
dfu_radio_yield_cb created dfu_pending r = record r { dfu_resume_work = some dfu_zboss_resume_s }
dfu_radio_yield_cb created dfu_stopped r = zboss_dfu_resume (record r { dfu_resume_work = none })
dfu_radio_yield_cb created other_event r = r
