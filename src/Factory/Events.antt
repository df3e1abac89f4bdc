-- ===== src/Factory/Events.antt =====
-- backend/api/modules/FactoryResetRuntime.cpp: `start`, `stop`, `drainOutput`, `finish` and the
-- slots, and when Qt calls them.
use everest_ui.Base.{
  ℕ, ◌*◌, ◌/◌, ◌-◌, Bool, true, false, ◌&&◌, not, List, [], ◌∷◌, ◌++◌, Option, some, if◌then◌else◌,
  ◌==◌, leb, ltb, length, is_empty, drop,
}
use everest_ui.Base.Text.{Text, codes, trimmed}
use everest_ui.Base.Int.{ℤ, pos, to_int, int_max}
use everest_ui.Base.Json.{bool, field, end}
use everest_ui.Qt.{Qt}
use everest_ui.Api.Types.{ModuleResponse, error_fields}
use everest_ui.Login.State.{LoginPath, WriteCalls, block_login_for_reboot}
use everest_ui.Factory.Evse.{Actions, eligible}
use everest_ui.Factory.State.{
  Factory, Phase, response, failed, rebooting, idle, preparation, safety_check, stop_everest,
  command, ProcessState, not_running, starting, started,
}

-- What a slot does: a response that it emits, and its calls of the process and of EVerest.
pub data Output : Type 0 where
  respond : ModuleResponse → Output
  everest_stopped terminate kill : Output
  run : (program : Text) → (arguments : List Text) → Output

-- What the code of others returns inside a slot: `splitCommand` of Qt, the actions, and the file
-- system under the login state.
pub record World : Type 0 where
  pub split_command : Text → List Text
  pub actions : Actions
  pub path : LoginPath
  pub calls : WriteCalls
  pub removed : Bool
  -- what the two channels of the process still hold
  pub standard_output : Text
  pub standard_error : Text

-- The events: `start` when it is due, the timers, the signals of the process.
pub data Event : Type 0 where
  start_fires timeout_fires kill_fires keepalive_fires : Event
  process_started failed_to_start : Event
  process_finished : (code : ℕ) → (normal_exit : Bool) → Event
  output_ready : Event

pub record Result : Type 0 where
  pub factory : Factory
  pub out : List Output

abbrev pub default_command : Text
default_command = codes "/usr/sbin/factory-reset --force --reboot"

-- The execution time-out from the text of its setting.
unfoldable pub timeout_from : Option ℤ → ℕ
timeout_from (some (pos seconds)) =
    if ltb 0 seconds && leb seconds (int_max / 1000) then seconds * 1000 else 20000
timeout_from _ = 20000

-- `right(n)`
abbrev pub right : ℕ → Text → Text
right n s = drop (length s - n) s

abbrev pub is_not_running : ProcessState → Bool
is_not_running not_running = true
is_not_running _ = false

abbrev pub is_starting : ProcessState → Bool
is_starting starting = true
is_starting _ = false

abbrev pub is_started : ProcessState → Bool
is_started started = true
is_started _ = false

unfoldable pub drain_output : (out err : Text) → Factory → Factory
drain_output out err s = record s {
  stdout = right 65536 (s.stdout ++ out);
  stderr = right 65536 (s.stderr ++ err);
}

-- The output that is left belongs to the log of a command.
unfoldable pub drain_command : World → Phase → Factory → Factory
drain_command w command s = drain_output w.standard_output w.standard_error s
drain_command w _ s = s

-- The status that `finish` leaves.
unfoldable pub judge : World → (success attempted : Bool) → Factory → Factory
judge w success true s = record (drain_command w s.phase s) {
  status = if success then rebooting else failed;
  reboot_expected = success;
}
judge w success false s = record s { status = idle }

module _ (q : Qt) where
  -- The parameters and the success of the last response, and the effect on the login state.
  abbrev pub answer_success : World → Factory → Result
  answer_success w s =
      let blocked =
        block_login_for_reboot q w.path w.calls w.removed (codes "factory_reset") s.login in
      let expected = field (codes "reboot_expected") (bool true) in
      record {
        factory = record s { login = blocked.file; exited = blocked.exits };
        out =
            respond (
              response s.request blocked.result
                (expected
                  (if blocked.result then end else error_fields (codes "login_state_unavailable")))
                true)
            ∷ [];
      }

  abbrev pub answer_failure : (attempted : Bool) → Factory → Result
  answer_failure attempted s = record {
    factory = s;
    out =
        respond (
          response s.request false
            (error_fields (
              if attempted
              then codes "factory_reset_failed"
              else codes "factory_reset_not_allowed"))
            true)
        ∷ [];
  }

  abbrev pub answer : World → (success attempted : Bool) → Factory → Result
  answer w true attempted s = answer_success w s
  answer w false attempted s = answer_failure attempted s

  unfoldable pub finish : World → (success attempted : Bool) → Factory → Result
  finish w success attempted s =
      if not s.is_running
      then record { factory = s; out = [] }
      else answer w success attempted (
          judge w success attempted (record s {
            timeout = false;
            kill_timer = false;
            keepalive = false;
            is_running = false;
          }))

  -- `start` behind the test of the parsed command.
  unfoldable pub start_checked : World → (program : Text) → List Text → Factory → Result
  start_checked w program arguments s =
      let r = finish w false false (record s { phase = safety_check }) in
      let f = finish w false true (record s { phase = stop_everest }) in
      if not (eligible q w.actions s.checking s.reboot_expected)
      then r
      else if not w.actions.stop_everest
      then record { factory = f.factory; out = everest_stopped ∷ f.out }
      else record {
        factory = record s { phase = command; timeout = true; process = starting };
        out = everest_stopped ∷ run program arguments ∷ [];
      }

  unfoldable pub start_parsed : World → List Text → Factory → Result
  start_parsed w [] s = finish w false true s
  start_parsed w (program ∷ arguments) s =
      if is_empty program then finish w false true s else start_checked w program arguments s

  abbrev pub configured : World → Text → Text
  configured w key = trimmed q.is_space (w.actions.config key)

  unfoldable pub start : World → Factory → Result
  start w s =
      let text = configured w (codes "factory_reset_command") in
      start_parsed w (w.split_command (if is_empty text then default_command else text)) (record s {
        phase = preparation;
        start_due = false;
        execution_timeout_ms =
            timeout_from (to_int (configured w (codes "factory_reset_timeout_seconds")));
        timed_out = false;
        stdout = [];
        stderr = [];
        reboot_expected = false;
      })

  unfoldable pub stop : World → Factory → Result
  stop w s =
      let late = record s { timed_out = true } in
      if is_not_running s.process
      then finish w false true late
      else record { factory = record late { kill_timer = true }; out = terminate ∷ [] }

  unfoldable pub on_started : World → Factory → Result
  on_started w s =
      let up = record s { process = started } in
      if s.timed_out then stop w up else record { factory = record up { timeout = true }; out = [] }

  unfoldable pub handle : World → Event → Factory → Result
  handle w start_fires s = start w s
  handle w timeout_fires s = stop w (record s { timeout = false })
  handle w kill_fires s = record { factory = record s { kill_timer = false }; out = kill ∷ [] }
  handle w keepalive_fires s = record {
    factory = s;
    out = respond (response s.request true end false) ∷ [];
  }
  handle w process_started s = on_started w s
  handle w failed_to_start s = finish w false true (record s { process = not_running })
  handle w (process_finished code normal_exit) s =
      finish w (not s.timed_out && normal_exit && code == 0) true
        (record s { process = not_running })
  handle w output_ready s = record {
    factory = drain_output w.standard_output w.standard_error s;
    out = [];
  }

-- When Qt calls the slot: a timer fires if it runs, and a process that is started either starts or
-- fails to, and finishes once.
unfoldable pub happens : Event → Factory → Bool
happens start_fires s = s.start_due
happens timeout_fires s = s.timeout
happens kill_fires s = s.kill_timer
happens keepalive_fires s = s.keepalive
happens process_started s = is_starting s.process
happens failed_to_start s = is_starting s.process
happens (process_finished code normal_exit) s = is_started s.process
happens output_ready s = is_started s.process
