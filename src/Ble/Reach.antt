-- ===== src/Ble/Reach.antt =====
-- src/ble_transport.c: the states that the callbacks and the works can reach together, where the
-- host holds one link at most (CONFIG_BT_MAX_CONN=1).
use Prim.Native.String.{String}
use flexit_cs60_control.Shared.{
  ℕ, ◌+◌, ◌≡◌, refl, ap, ◌∙◌, Bool, true, false, ◌||◌, not, Option, none, some, List, arith, ◌==◌,
  if◌then◌else◌, inl, inr, Bool-cases,
}
use flexit_cs60_control.Shared.Text.{codes}
use flexit_cs60_control.Platform.{Platform}
use flexit_cs60_control.Ble.{
  State, ble_boot, connected, disconnected, adv_restart_work_handler, clearbond_work_fn,
}
use flexit_cs60_control.Ble.Stream.{Host}
use flexit_cs60_control.Ble.Parse.{
  begins, Libc, Command, stream, state, zbstate, stop, zbreset, clearbond, mode, setpoint, unknown,
  command,
}
use flexit_cs60_control.Ble.Command.{
  Device, mode_command, setpoint_command, run_command, nus_received,
}

-- A command leaves the connection, its references and the restart work as they are.
abbrev pub SameLink : State → State → Type 0
SameLink s t =
    (t.current_conn ≡ s.current_conn)
    × (t.references ≡ s.references)
    × (t.adv_restart_work ≡ s.adv_restart_work)

module _ (h : Host) (p : Platform) (libc : Libc) (scheduled : Bool) (payload : List ℕ) where
  mode_command-ble : (d : Device) → (mode_command h libc payload d).ble ≡ d.ble
  unfolding mode_command
  mode_command-ble d = ground arith

  setpoint_command-ble : (d : Device) → (setpoint_command h payload d).ble ≡ d.ble
  unfolding setpoint_command
  setpoint_command-ble d = ground arith

  run_command-SameLink :
      (c : Command) (d : Device) → SameLink d.ble (run_command h p libc scheduled c payload d).ble
  unfolding run_command
  run_command-SameLink stream d = (refl, refl, refl)
  run_command-SameLink state d = (refl, refl, refl)
  run_command-SameLink zbstate d = (refl, refl, refl)
  run_command-SameLink stop d = (refl, refl, refl)
  run_command-SameLink zbreset d = (refl, refl, refl)
  run_command-SameLink clearbond d = (refl, refl, refl)
  run_command-SameLink mode d = rw mode_command-ble (refl, refl, refl)
  run_command-SameLink setpoint d = rw setpoint_command-ble (refl, refl, refl)
  run_command-SameLink unknown d = (refl, refl, refl)

-- The link that the host holds: its connection, and whether its client has sent a command that
-- begins with "stream" since it connected.
abbrev pub Link : Type 0
Link = Option (ℕ × Bool)

abbrev pub asks : List ℕ → Bool
asks payload = begins (codes "stream") payload

-- One event, with the link before and after it.
pub data Event : Link → State → Link → State → Type 0 where
  link_up :
      (conn sec : ℕ) (s : State) → Event none s (some (conn, false)) (connected conn 0 sec s).0
  link_failed :
      (conn err sec : ℕ) (l : Link) (s : State)
      → (err == 0) ≡ false
      → Event l s l (connected conn err sec s).0
  link_down :
      (conn : ℕ) (asked : Bool) (s : State)
      → Event (some (conn, asked)) s none (disconnected conn s)
  received :
      (h : Host) (p : Platform) (libc : Libc) (scheduled : Bool) (payload : List ℕ) (conn : ℕ)
      (asked : Bool) (d : Device)
      → Event
          (some (conn, asked))
          d.ble
          (some (conn, asked || asks payload))
          (nus_received h p libc scheduled payload d).ble
  restarts : (l : Link) (s : State) → Event l s l (adv_restart_work_handler s).0
  forgets : (l : Link) (s : State) → Event l s l (clearbond_work_fn s).0

pub data Reachable : Link → State → Type 0 where
  boots : Reachable none ble_boot
  then_event : {l l' : Link} {s s' : State} → Reachable l s → Event l s l' s' → Reachable l' s'

abbrev pub conn_of : Link → Option ℕ
conn_of none = none
conn_of (some (conn, asked)) = some conn

-- The references that a link holds.
abbrev pub held : Link → ℕ
held none = 0
held (some l) = 1

abbrev pub has_asked : Link → Bool
has_asked none = false
has_asked (some (conn, asked)) = asked

pub record IsLinked (l : Link) (s : State) : Type 0 where
  pub conn_is_link : s.current_conn ≡ conn_of l
  pub counted : s.references ≡ held l
  pub streams_asked : (not s.stream_active || has_asked l) ≡ true

abbrev is_stream : Command → Bool
is_stream stream = true
is_stream state = false
is_stream zbstate = false
is_stream stop = false
is_stream zbreset = false
is_stream clearbond = false
is_stream mode = false
is_stream setpoint = false
is_stream unknown = false

others :
    (a b c d e f g : Bool)
    → is_stream (
        if a
        then state
        else (if b
            then zbstate
            else (if c
                then stop
                else (if d
                    then zbreset
                    else (if e
                        then clearbond
                        else (if f then mode else (if g then setpoint else unknown)))))))
      ≡ false
others a b c d e f g = ground arith

not_stream : (payload : List ℕ) → asks payload ≡ false → is_stream (command payload) ≡ false
unfolding command
not_stream payload e =
    let key = λ (word : String). begins (codes word) payload in
    rw e (
      others (key "state") (key "zbstate") (key "stop") (key "zbreset") (key "clearbond")
        (key "mode") (key "setpoint"))

module _ (h : Host) (p : Platform) (libc : Libc) (scheduled : Bool) (payload : List ℕ) where
  -- Only "stream" switches the stream on.
  run_command-streams :
      (c : Command) (d : Device) (asked : Bool)
      → is_stream c ≡ false
      → (not d.ble.stream_active || asked) ≡ true
      → (not (run_command h p libc scheduled c payload d).ble.stream_active || asked) ≡ true
  unfolding run_command
  run_command-streams stream d asked e k = absurd (ground (arith, e))
  run_command-streams state d asked e k = k
  run_command-streams zbstate d asked e k = k
  run_command-streams stop d asked e k = refl
  run_command-streams zbreset d asked e k = k
  run_command-streams clearbond d asked e k = k
  run_command-streams mode d asked e k = rw mode_command-ble k
  run_command-streams setpoint d asked e k = rw setpoint_command-ble k
  run_command-streams unknown d asked e k = k

  received-streams :
      (d : Device) (asked : Bool)
      → (not d.ble.stream_active || asked) ≡ true
      → (not (nus_received h p libc scheduled payload d).ble.stream_active
          || (asked || asks payload))
        ≡ true
  unfolding nus_received
  received-streams d asked k = elim (Bool-cases (asks payload)) [
    | inl e ↦ rw e (ground arith)
    | inr e ↦
        let quiet = run_command-streams (command payload) d asked (not_stream payload e) k in
        rw e (ground (arith, quiet))
  ]

Event-IsLinked : {l l' : Link} {s s' : State} → Event l s l' s' → IsLinked l s → IsLinked l' s'
unfolding connected disconnected nus_received adv_restart_work_handler clearbond_work_fn
Event-IsLinked (link_up conn sec s) i = record {
  conn_is_link = refl;
  counted = ap (λ n. n + 1) i.counted;
  streams_asked = i.streams_asked;
}
Event-IsLinked (link_failed conn err sec l s failed) i = rw failed i
Event-IsLinked (link_down conn asked s) i = record {
  conn_is_link = rw i.conn_is_link (ground arith);
  counted = rw (i.conn_is_link, i.counted) (ground arith);
  streams_asked = refl;
}
Event-IsLinked (received h p libc scheduled payload conn asked d) i =
    let same = run_command-SameLink h p libc scheduled payload (command payload) d in
    record {
      conn_is_link = same.0 ∙ i.conn_is_link;
      counted = same.1 ∙ i.counted;
      streams_asked = received-streams h p libc scheduled payload d asked i.streams_asked;
    }
Event-IsLinked (restarts l s) i = record {
  conn_is_link = i.conn_is_link;
  counted = i.counted;
  streams_asked = i.streams_asked;
}
Event-IsLinked (forgets l s) i = record {
  conn_is_link = i.conn_is_link;
  counted = i.counted;
  streams_asked = i.streams_asked;
}

-- In every reachable state `current_conn` is the link that the host holds, one reference is held
-- for it and none without it, and the stream is on only if there is a link whose client has sent a
-- payload that begins with "stream" since it connected.
pub Reachable-IsLinked : (l : Link) (s : State) → Reachable l s → IsLinked l s
Reachable-IsLinked _ _ boots = record { conn_is_link = refl; counted = refl; streams_asked = refl }
Reachable-IsLinked l s (then_event before e) = Event-IsLinked e (Reachable-IsLinked _ _ before)
