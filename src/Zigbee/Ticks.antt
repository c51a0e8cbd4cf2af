-- ===== src/Zigbee/Ticks.antt =====
-- src/zigbee_ep.c, `publish_tick`: what successive ticks write.
use flexit_cs60_control.Shared.{
  ℕ, zero, suc, ◌+◌, ◌-◌, ◌≤◌, ◌<◌, ◌≡◌, ◌≢◌, refl, ap, Bool, true, false, some, List, [], ◌∷◌,
  ◌++◌, All, arith, get_or, replicate, ltb, ◌==◌, if◌then◌else◌, Bool-cases, inl, inr,
}
use flexit_cs60_control.Zigbee.{Pending, State, temp_count}
use flexit_cs60_control.Zigbee.Publish.{
  Attr, measured_value, publish_temps, publish_dirty, publish_link, publish_tick, taken,
  analog_input, binary_input, analog_ep_id, binary_ep_id, analog_value, av_ep_setpoint, fan_mode,
  ctrl_endpoint, temp_stale_ms, temp_unknown,
}

module _ {F : Type 0} where
  nothing_dirty :
      {A : Type 0} (write : ℕ → A → Attr F) (eps : List ℕ) (n : ℕ) (vs : List A)
      → publish_dirty write eps (replicate n false) vs ≡ []
  unfolding publish_dirty
  nothing_dirty write [] n vs = refl
  nothing_dirty write (ep ∷ eps) zero vs = refl
  nothing_dirty write (ep ∷ eps) (suc n) [] = refl
  nothing_dirty write (ep ∷ eps) (suc n) (v ∷ vs) = nothing_dirty write eps n vs

  link_published : (link_up : Bool) → publish_link {F = F} link_up (some link_up) ≡ []
  unfolding publish_link
  link_published true = refl
  link_published false = refl

  -- No fresh temperature, and a channel that is stale or heard from lately: nothing to write.
  temps_quiet :
      (q : Pending F) (now : ℕ) (stale : List Bool)
      → get_or q.temp_dirty 0 false ≡ false
      → (get_or stale 0 false ≡ false → now ≤ get_or q.temp_last_ms 0 0 + temp_stale_ms)
      → publish_temps q now temp_count 0 stale ≡ (stale, [])
  unfolding publish_temps
  temps_quiet q now stale clean lately = elim (Bool-cases (get_or stale 0 false)) [
    | inl e ↦ rw (clean, e)
    | inr e ↦
        let soon : ltb temp_stale_ms (now - get_or q.temp_last_ms 0 0) ≡ false =
          ground (arith, lately e) in
        rw (clean, e, soon) (ground arith)
  ]

  temps_silent :
      (q : Pending F) (now : ℕ)
      → get_or q.temp_dirty 0 false ≡ false
      → get_or q.temp_last_ms 0 0 ≢ 0
      → get_or q.temp_last_ms 0 0 + temp_stale_ms < now
      → publish_temps q now temp_count 0 (false ∷ [])
        ≡ (true ∷ [], measured_value 2 temp_unknown ∷ [])
  unfolding publish_temps
  temps_silent q now clean heard old =
      let late : ltb temp_stale_ms (now - get_or q.temp_last_ms 0 0) ≡ true = ground arith in
      let known : (get_or q.temp_last_ms 0 0 == 0) ≡ false = ground arith in
      rw (clean, known, late) refl

module _ {F T : Type 0} where
  quiet_tick :
      (now : ℕ) (link_up : Bool) (z : State F T) (q : Pending F)
      → z.pending ≡ taken q
      → z.cs60_link_state ≡ some link_up
      → (get_or z.temp_stale 0 false ≡ false → now ≤ get_or q.temp_last_ms 0 0 + temp_stale_ms)
      → (publish_tick now link_up z).1 ≡ []
  unfolding publish_tick
  quiet_tick now link_up z q waits linked lately =
      rw
        (
          waits,
          linked,
          temps_quiet (taken q) now z.temp_stale refl lately,
          link_published link_up,
          nothing_dirty analog_input analog_ep_id 3 q.analog_val,
          nothing_dirty binary_input binary_ep_id 5 q.binary_val,
        )
        refl

  -- A tick leaves nothing to write: the next one, with no setter called in between, the same link
  -- and a temperature that is no older than a minute, writes no attribute.
  pub second_tick_quiet :
      (now later : ℕ) (link_up : Bool) (z : State F T)
      → later ≤ get_or z.pending.temp_last_ms 0 0 + temp_stale_ms
      → (publish_tick later link_up (publish_tick now link_up z).0).1 ≡ []
  second_tick_quiet now later link_up z h =
      quiet_tick later link_up (publish_tick now link_up z).0 z.pending
        (unfold publish_tick in refl) (unfold publish_tick in refl) (λ e. h)

  -- What ticks at these times write, with the same link and no setter called in between.
  abbrev pub later_ticks : List ℕ → Bool → State F T → List (List (Attr F))
  later_ticks [] link_up z = []
  later_ticks (now ∷ times) link_up z =
      let (z', attrs) = publish_tick now link_up z in attrs ∷ later_ticks times link_up z'

  stale_kept :
      (now : ℕ) (link_up : Bool) (z : State F T) (q : Pending F)
      → z.pending ≡ taken q
      → z.temp_stale ≡ true ∷ []
      → (publish_tick now link_up z).0.temp_stale ≡ true ∷ []
  unfolding publish_tick
  stale_kept now link_up z q waits flagged =
      rw
        (
          waits,
          flagged,
          temps_quiet (taken q) now (true ∷ []) refl (λ e. absurd (ground (arith, e))),
        )
        refl

  quiet_ticks :
      (times : List ℕ) (link_up : Bool) (z : State F T) (q : Pending F)
      → z.pending ≡ taken q
      → z.cs60_link_state ≡ some link_up
      → z.temp_stale ≡ true ∷ []
      → All (λ attrs. attrs ≡ []) (later_ticks times link_up z)
  quiet_ticks [] link_up z q waits linked flagged = tt
  quiet_ticks (now ∷ times) link_up z q waits linked flagged = (
    quiet_tick now link_up z q waits linked
        (λ e. absurd (ground (arith, ap (λ t. get_or t 0 false) flagged, e))),
    quiet_ticks times link_up (publish_tick now link_up z).0 z.pending (unfold publish_tick in refl)
        (unfold publish_tick in refl) (stale_kept now link_up z q waits flagged),
  )

  -- A temperature that was shown and then not heard from for more than a minute: the tick writes
  -- ZCL's invalid value first, and all later ticks, however many, with the same link and no setter
  -- called in between, write nothing.
  pub stale_once :
      (now : ℕ) (later : List ℕ) (link_up : Bool) (z : State F T)
      → z.temp_stale ≡ false ∷ []
      → get_or z.pending.temp_dirty 0 false ≡ false
      → get_or z.pending.temp_last_ms 0 0 ≢ 0
      → get_or z.pending.temp_last_ms 0 0 + temp_stale_ms < now
      → let (z', attrs) = publish_tick now link_up z in
        (z'.temp_stale ≡ true ∷ [])
        × ((rest : List (Attr F)) × (attrs ≡ measured_value 2 temp_unknown ∷ rest))
        × All (λ attrs. attrs ≡ []) (later_ticks later link_up z')
  stale_once now later link_up z shown clean heard old =
      let silent = temps_silent z.pending now clean heard old in
      let flagged : (publish_tick now link_up z).0.temp_stale ≡ true ∷ [] =
        unfold publish_tick in rw (shown, silent) refl in
      (
        flagged,
        (
          publish_dirty analog_input analog_ep_id z.pending.analog_dirty z.pending.analog_val
              ++ publish_dirty binary_input binary_ep_id z.pending.binary_dirty z.pending.binary_val
              ++ publish_link link_up z.cs60_link_state
              ++ (if z.pending.setpoint_dirty
                  then analog_value av_ep_setpoint z.pending.setpoint_val ∷ []
                  else [])
              ++ (if z.pending.mode_dirty then fan_mode ctrl_endpoint z.pending.mode ∷ [] else []),
          unfold publish_tick in rw (shown, silent) refl,
        ),
        quiet_ticks later link_up (publish_tick now link_up z).0 z.pending
            (unfold publish_tick in refl) (unfold publish_tick in refl) flagged,
      )
