-- ===== src/Mirror/Link.antt =====
-- src/panel_mirror.c, `panel_mirror_cs60_link_up` after a status block.
use flexit_cs60_control.Shared.{
  ℕ, ◌+◌, ◌^◌, ◌≤◌, ◌<◌, ◌≡◌, ◌≢◌, refl, false, List, [], arith, leb, Below,
}
use flexit_cs60_control.Platform.{Platform}
use flexit_cs60_control.Accum.{Accum, contents}
use flexit_cs60_control.Accum.Buffer.{IsValid}
use flexit_cs60_control.Mirror.{State, boot, cs60_link_up}
use flexit_cs60_control.Mirror.Decode.{World, accum_size, mirror_feed}
use flexit_cs60_control.Mirror.Reception.{status_frame, status_received}

pub link_since :
    (stale_ms now last : ℕ) (s : State)
    → s.last_fc10_uptime_ms ≡ last
    → last ≢ 0
    → last ≤ now
    → now < 2 ^ 64
    → cs60_link_up stale_ms now s ≡ leb now (last + stale_ms)
unfolding cs60_link_up
link_since stale_ms now last s e h k big = ground arith

-- The link is down at boot; and after a status block was received at a time other than 0, it is up
-- for exactly the `stale_ms` milliseconds that follow.
pub link_up_lem :
    (p : Platform) (words : List ℕ) (a : Accum) (w : World) (stale_ms now : ℕ)
    → Below 65536 words
    → IsValid accum_size a
    → contents a ≡ []
    → p.uptime w.calls ≢ 0
    → p.uptime w.calls ≤ now
    → now < 2 ^ 64
    → (cs60_link_up stale_ms now boot ≡ false)
      × (cs60_link_up stale_ms now (mirror_feed p a w (status_frame p words)).1.state
          ≡ leb now (p.uptime w.calls + stale_ms))
unfolding cs60_link_up
link_up_lem p words a w stale_ms now b v e h k big =
    let shown = (status_received p words b a w v e).1 in
    (
      refl,
      unfold cs60_link_up in
          link_since stale_ms now (p.uptime w.calls)
            (mirror_feed p a w (status_frame p words)).1.state shown.heard h k big,
    )
