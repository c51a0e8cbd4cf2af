-- ===== src/Zigbee/Reach.antt =====
-- What holds in src/zigbee_ep.c after any sequence of signals, resets, timers and upload events.
use flexit_cs60_control.Shared.{
  ℕ, ◌<◌, ◌≡◌, refl, Bool, true, false, not, ◌&&◌, Option, none, some, arith, if◌then◌else◌,
  Bool-cases, inl, inr, ◌∙◌,
}
use flexit_cs60_control.Zigbee.Network.{
  NetState, idle, joining, joined, Signal, device_first_start, device_reboot, steering, leave,
  no_active_links_left, other, Net, net_boot, join_window_expire, closed, track, expedite,
  start_publishing, zboss_signal_handler, factory_reset, Upload, dfu_started, chunk_write_complete,
  dfu_pending, dfu_stopped, other_event, Radio, radio_boot, zboss_dfu_resume, dfu_resume_work_fn,
  dfu_radio_yield_cb, is_leave, is_start,
}

-- The states of the network part that events lead to. A timer goes off only if it is armed; a
-- publishing tick arms itself again, which leaves the count of its alarms as it is.
pub data Reachable : Net → Type 0 where
  booted : Reachable net_boot
  signalled :
      (sig : Signal) (ok : Bool) {n : Net} → Reachable n → Reachable (zboss_signal_handler sig ok n)
  window_closed : {n : Net} → Reachable n → 0 < n.join_alarms → Reachable (join_window_expire n)
  reset : (scheduled : Bool) {n : Net} → Reachable n → Reachable (factory_reset scheduled n)

abbrev pub is_armed : Option ℕ → Bool
is_armed none = false
is_armed (some n) = true

-- What the timers owe to the flags.
pub record IsTimed (n : Net) : Type 0 where
  pub window : n.net_state ≡ joining → 0 < n.join_alarms
  pub reboot : n.factory_reset_pending ≡ true → is_armed n.reboot_work ≡ true
  pub one_tick : n.publish_alarms ≡ (if n.publish_started then 1 else 0)

track-IsTimed : (sig : Signal) (ok : Bool) (n : Net) → IsTimed n → IsTimed (track sig ok n)
unfolding track
track-IsTimed device_first_start true n h = record {
  window = λ e. omega arith;
  reboot = h.reboot;
  one_tick = h.one_tick;
}
track-IsTimed device_first_start false n h = h
track-IsTimed device_reboot true n h = record {
  window = λ e. ground arith;
  reboot = h.reboot;
  one_tick = h.one_tick;
}
track-IsTimed device_reboot false n h = record {
  window = λ e. ground arith;
  reboot = h.reboot;
  one_tick = h.one_tick;
}
track-IsTimed steering true n h = record {
  window = λ e. ground arith;
  reboot = h.reboot;
  one_tick = h.one_tick;
}
track-IsTimed steering false n h = h
track-IsTimed leave ok n h = record {
  window = λ e. ground arith;
  reboot = h.reboot;
  one_tick = h.one_tick;
}
track-IsTimed no_active_links_left ok n h = record {
  window = λ e. ground arith;
  reboot = h.reboot;
  one_tick = h.one_tick;
}
track-IsTimed other ok n h = h

expedite-IsTimed : (sig : Signal) (n : Net) → IsTimed n → IsTimed (expedite sig n)
unfolding expedite
expedite-IsTimed sig n h = elim (Bool-cases (is_leave sig && n.factory_reset_pending)) [
  | inl e ↦ rw e (record { window = h.window; reboot = λ x. refl; one_tick = h.one_tick })
  | inr e ↦ rw e h
]

start_publishing-IsTimed : (sig : Signal) (n : Net) → IsTimed n → IsTimed (start_publishing sig n)
unfolding start_publishing
start_publishing-IsTimed sig n h = elim (Bool-cases (not n.publish_started && is_start sig)) [
  | inl e ↦
      rw e (record { window = h.window; reboot = h.reboot; one_tick = ground (arith, h.one_tick) })
  | inr e ↦ rw e h
]

join_window_expire-IsTimed : (n : Net) → IsTimed n → IsTimed (join_window_expire n)
unfolding join_window_expire
join_window_expire-IsTimed n h = record {
  window = λ e. absurd (never n.net_state e);
  reboot = h.reboot;
  one_tick = h.one_tick;
}
  where
    never : (s : NetState) → closed s ≡ joining → ⊥
    never idle e = ground arith
    never joining e = ground arith
    never joined e = ground arith

factory_reset-IsTimed :
    (scheduled : Bool) (n : Net) → IsTimed n → IsTimed (factory_reset scheduled n)
unfolding factory_reset
factory_reset-IsTimed scheduled n h = elim (Bool-cases n.factory_reset_pending) [
  | inl e ↦ simp e h
  | inr e ↦ elim (Bool-cases scheduled) [
    | inl o ↦ rw (e, o) (record { window = h.window; reboot = λ x. refl; one_tick = h.one_tick })
    | inr o ↦
        rw (e, o) (record { window = h.window; reboot = λ x. ground arith; one_tick = h.one_tick })
  ]
]

-- In every reachable state: while the status shows the join window, an alarm that closes it is
-- armed; while a factory reset is pending, the reboot is; and the publishing tick runs at most
-- once at a time, namely once after the stack has started.
pub Reachable-IsTimed : {n : Net} → Reachable n → IsTimed n
unfolding zboss_signal_handler
Reachable-IsTimed booted = record {
  window = λ e. ground arith;
  reboot = λ e. ground arith;
  one_tick = refl;
}
Reachable-IsTimed (signalled sig ok {n} r) =
    start_publishing-IsTimed sig (expedite sig (track sig ok n))
      (expedite-IsTimed sig (track sig ok n) (track-IsTimed sig ok n (Reachable-IsTimed r)))
Reachable-IsTimed (window_closed {n} r armed) = join_window_expire-IsTimed n (Reachable-IsTimed r)
Reachable-IsTimed (reset scheduled {n} r) = factory_reset-IsTimed scheduled n (Reachable-IsTimed r)

-- The states of the radio that upload events lead to.
pub data Yielded : Radio → Type 0 where
  on_air : Yielded radio_boot
  event :
      (created : Bool) (e : Upload) {r : Radio}
      → Yielded r
      → Yielded (dfu_radio_yield_cb created e r)
  timeout :
      {r : Radio} → Yielded r → is_armed r.dfu_resume_work ≡ true → Yielded (dfu_resume_work_fn r)

-- A suspended thread is known to be, and its watchdog is armed.
pub record IsGuarded (r : Radio) : Type 0 where
  pub known : r.thread_suspended ≡ r.zboss_dfu_suspended
  pub guarded : r.thread_suspended ≡ true → is_armed r.dfu_resume_work ≡ true

upload-IsGuarded :
    (created : Bool) (e : Upload) (r : Radio)
    → IsGuarded r
    → IsGuarded (dfu_radio_yield_cb created e r)
unfolding dfu_radio_yield_cb zboss_dfu_resume
upload-IsGuarded created dfu_started r h =
    elim (Bool-cases (created && not r.zboss_dfu_suspended)) [
      | inl e ↦ rw e (record { known = refl; guarded = λ x. refl })
      | inr e ↦ rw e (record { known = h.known; guarded = λ x. refl })
    ]
upload-IsGuarded created chunk_write_complete r h = record { known = h.known; guarded = λ x. refl }
upload-IsGuarded created dfu_pending r h = record { known = h.known; guarded = λ x. refl }
upload-IsGuarded created dfu_stopped r h = elim (Bool-cases r.zboss_dfu_suspended) [
  | inl e ↦ rw e (record { known = refl; guarded = λ x. ground arith })
  | inr e ↦ rw e (record { known = h.known ∙ e; guarded = λ x. ground (arith, h.known, x) })
]
upload-IsGuarded created other_event r h = h

timeout-IsGuarded :
    (r : Radio)
    → IsGuarded r
    → IsGuarded (dfu_resume_work_fn r) × ((dfu_resume_work_fn r).thread_suspended ≡ false)
unfolding dfu_resume_work_fn zboss_dfu_resume
timeout-IsGuarded r h = elim (Bool-cases r.zboss_dfu_suspended) [
  | inl e ↦ rw e (record { known = refl; guarded = λ x. ground arith }, refl)
  | inr e ↦
      rw e (record { known = h.known ∙ e; guarded = λ x. ground (arith, h.known, x) }, h.known ∙ e)
]

Yielded-IsGuarded : {r : Radio} → Yielded r → IsGuarded r
Yielded-IsGuarded on_air = record { known = refl; guarded = λ x. ground arith }
Yielded-IsGuarded (event created e {r} y) = upload-IsGuarded created e r (Yielded-IsGuarded y)
Yielded-IsGuarded (timeout {r} y armed) = (timeout-IsGuarded r (Yielded-IsGuarded y)).0

-- Whatever the upload events, the ZBOSS thread is suspended only while the watchdog is armed, and
-- when the watchdog goes off the thread runs again.
pub radio_returns :
    (r : Radio)
    → Yielded r
    → (r.thread_suspended ≡ true → is_armed r.dfu_resume_work ≡ true)
      × ((dfu_resume_work_fn r).thread_suspended ≡ false)
radio_returns r y = let h = Yielded-IsGuarded y in (h.guarded, (timeout-IsGuarded r h).1)
