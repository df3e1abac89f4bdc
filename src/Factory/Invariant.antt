-- ===== src/Factory/Invariant.antt =====
-- backend/api/modules/FactoryResetRuntime.cpp: theorems on the members between two slots.
use everest_ui.Base.{
  Bool, true, false, ◌&&◌, ◌||◌, not, List, ◌≡◌, ◌⊎◌, arith, refl, ◌==◌, [], ◌∷◌, is_empty, sym,
  subst, if_both, if◌then◌else◌,
}
use everest_ui.Base.Text.{Text, codes, eqb}
use everest_ui.Base.Json.{value}
use everest_ui.Qt.{Qt, QtLaws}
use everest_ui.Api.Types.{ModuleRequest, ModuleResponse}
use everest_ui.Login.State.{LoginPath, read_login_state}
use everest_ui.Login.Laws.{block_login_for_reboot-closed}
use everest_ui.Factory.Evse.{Actions, eligible}
use everest_ui.Factory.State.{
  Factory, Phase, command, none, preparation, safety_check, stop_everest, Status, idle, failed,
  running, rebooting, is_true, handle_request, not_running, started,
}
use everest_ui.Factory.Events.{
  World, Event, start_fires, timeout_fires, kill_fires, keepalive_fires, process_started,
  failed_to_start, process_finished, output_ready, is_not_running, handle, happens, start,
  start_parsed, start_checked, finish, judge, drain_command, answer, Result, stop, on_started,
  drain_output,
}
use everest_ui.Factory.Runs.{Runs, begins, requests, slots}

abbrev pub is_running_status : Status → Bool
is_running_status running = true
is_running_status _ = false

abbrev pub is_rebooting : Status → Bool
is_rebooting rebooting = true
is_rebooting _ = false

running_rebooting : (t : Status) → is_running_status t ≡ true → is_rebooting t ≡ false
running_rebooting running h = refl
running_rebooting rebooting h = absurd (ground arith)
running_rebooting idle h = refl
running_rebooting failed h = refl

-- No reset runs, and nothing of one is left.
abbrev pub is_shut : Factory → Bool
is_shut s =
    not s.is_running
    && not s.start_due
    && not s.timeout
    && not s.kill_timer
    && not s.keepalive
    && is_not_running s.process

-- A reset waits for `start`.
abbrev pub is_waiting : Factory → Bool
is_waiting s =
    s.is_running
    && s.start_due
    && not s.timeout
    && not s.kill_timer
    && s.keepalive
    && is_not_running s.process

-- The process is up, and its time runs or is over.
abbrev pub is_executing : Factory → Bool
is_executing s =
    s.is_running
    && not s.start_due
    && s.keepalive
    && not (is_not_running s.process)
    && (s.timeout || s.timed_out)

-- Login stays closed for the readers of that path.
abbrev pub IsBarred : Qt → LoginPath → Factory → Type 0
IsBarred q path s = (s.exited ≡ true) ⊎ ((read_login_state q path s.login).allowed ≡ false)

pub record IsConsistent (q : Qt) (path : LoginPath) (s : Factory) : Type 0 where
  pub status : is_running_status s.status ≡ s.is_running
  pub expected : is_rebooting s.status ≡ s.reboot_expected
  pub life : (is_shut s || is_waiting s || is_executing s) ≡ true
  pub login : s.reboot_expected ≡ true → IsBarred q path s

-- Only the two kept outputs may change.
pub drain_command_keeps :
    (w : World) (p : Phase) (s : Factory)
    → (out : Text) × (err : Text) × (drain_command w p s ≡ record s { stdout = out; stderr = err })
unfolding drain_command drain_output
drain_command_keeps w command s = (_, _, refl)
drain_command_keeps w none s = (s.stdout, s.stderr, refl)
drain_command_keeps w preparation s = (s.stdout, s.stderr, refl)
drain_command_keeps w safety_check s = (s.stdout, s.stderr, refl)
drain_command_keeps w stop_everest s = (s.stdout, s.stderr, refl)

-- `finish` reaches a predicate that its two answers have on the members that it sets.
pub finish_reaches {ℓ} :
    (P : Result → Type ℓ) (q : Qt) (w : World) (success attempted : Bool) (s : Factory)
    → s.is_running ≡ true
    → ((out err : Text)
        → P (
            answer q w success attempted (record s {
              timeout = false;
              kill_timer = false;
              keepalive = false;
              is_running = false;
              stdout = out;
              stderr = err;
              status = if attempted then (if success then rebooting else failed) else idle;
              reboot_expected = if attempted then success else s.reboot_expected;
            })))
    → P (finish q w success attempted s)
unfolding finish judge
finish_reaches P q w success true s h k =
    let stopped : Factory = record s {
      timeout = false;
      kill_timer = false;
      keepalive = false;
      is_running = false;
    } in
    let (out, err, e) = drain_command_keeps w s.phase stopped in
    rw h (
      subst
        (λ d. P (
          answer q w success true (record d {
            status = if success then rebooting else failed;
            reboot_expected = success;
          })))
        (sym e) (k out err))
finish_reaches P q w success false s h k = rw h (k s.stdout s.stderr)

module _ (q : Qt) (laws : QtLaws q) (path : LoginPath) where
  finish_failed :
      (w : World) (attempted : Bool) (s : Factory)
      → s.is_running ≡ true
      → s.reboot_expected ≡ false
      → s.start_due ≡ false
      → is_not_running s.process ≡ true
      → IsConsistent q path (finish q w false attempted s).factory
  finish_failed w true s h e d p =
      finish_reaches (λ r. IsConsistent q path r.factory) q w false true s h
        λ out err. record {
          status = refl;
          expected = refl;
          life = ground arith;
          login = λ b. absurd (ground arith);
        }
  finish_failed w false s h e d p =
      finish_reaches (λ r. IsConsistent q path r.factory) q w false false s h
        λ out err. record {
          status = refl;
          expected = sym e;
          life = ground arith;
          login = λ b. absurd (ground arith);
        }

  finish_succeeded :
      (w : World) (s : Factory)
      → w.path ≡ path
      → s.is_running ≡ true
      → s.start_due ≡ false
      → is_not_running s.process ≡ true
      → IsConsistent q path (finish q w true true s).factory
  unfolding eqb
  finish_succeeded w s same h d p =
      finish_reaches (λ r. IsConsistent q path r.factory) q w true true s h
        λ out err. record {
          status = refl;
          expected = refl;
          life = ground arith;
          login = λ _. rw (← same) (
              block_login_for_reboot-closed q laws w.path w.calls w.removed (codes "factory_reset")
                s.login refl);
        }

  -- A reset that `start` has taken up.
  abbrev is_taken : Factory → Bool
  is_taken s =
      s.is_running
      && not s.reboot_expected
      && not s.start_due
      && not s.timeout
      && not s.kill_timer
      && s.keepalive
      && is_not_running s.process

  start_checked-IsConsistent :
      (w : World) (program : Text) (arguments : List Text) (s : Factory)
      → is_running_status s.status ≡ true
      → is_taken s ≡ true
      → IsConsistent q path (start_checked q w program arguments s).factory
  unfolding start_checked
  start_checked-IsConsistent w program arguments s run h =
      if_both (λ (r : Result). IsConsistent q path r.factory)
        (not (eligible q w.actions s.checking s.reboot_expected))
        (λ _.
          finish_failed w false (record s { phase = safety_check }) (ground arith) (ground arith)
            (ground arith) (ground arith))
        (λ _.
          if_both (λ (r : Result). IsConsistent q path r.factory) (not w.actions.stop_everest)
            (λ _.
              finish_failed w true (record s { phase = stop_everest }) (ground arith) (ground arith)
                (ground arith) (ground arith))
            (λ _. record {
              status = ground arith;
              expected = (let no = running_rebooting s.status run in ground arith);
              life = ground arith;
              login = λ b. absurd (ground arith);
            }))

  parsed-IsConsistent :
      (w : World) (parts : List Text) (s : Factory)
      → is_running_status s.status ≡ true
      → is_taken s ≡ true
      → IsConsistent q path (start_parsed q w parts s).factory
  unfolding start_parsed
  parsed-IsConsistent w [] s run h =
      finish_failed w true s (ground arith) (ground arith) (ground arith) (ground arith)
  parsed-IsConsistent w (program ∷ arguments) s run h =
      if_both (λ (r : Result). IsConsistent q path r.factory) (is_empty program)
        (λ _. finish_failed w true s (ground arith) (ground arith) (ground arith) (ground arith))
        (λ _. start_checked-IsConsistent w program arguments s run h)

  start-IsConsistent :
      (w : World) (s : Factory)
      → is_running_status s.status ≡ true
      → is_waiting s ≡ true
      → IsConsistent q path (start q w s).factory
  unfolding start
  start-IsConsistent w s run h = parsed-IsConsistent w (w.split_command _) _ run (ground arith)

  stop-IsConsistent :
      (w : World) (s : Factory)
      → is_running_status s.status ≡ true
      → s.reboot_expected ≡ false
      → s.is_running && s.keepalive && not s.start_due ≡ true
      → IsConsistent q path (stop q w s).factory
  unfolding stop
  stop-IsConsistent w s run e h =
      if_both (λ (r : Result). IsConsistent q path r.factory) (is_not_running s.process)
        (λ p.
          finish_failed w true (record s { timed_out = true }) (ground arith) e (ground arith) p)
        (λ p. record {
          status = ground arith;
          expected = (let no = running_rebooting s.status run in ground arith);
          life = ground arith;
          login = λ b. absurd (ground arith);
        })

  started-IsConsistent :
      (w : World) (s : Factory)
      → is_running_status s.status ≡ true
      → s.reboot_expected ≡ false
      → s.is_running && s.keepalive && not s.start_due ≡ true
      → IsConsistent q path (on_started q w s).factory
  unfolding on_started
  started-IsConsistent w s run e h =
      if_both (λ (r : Result). IsConsistent q path r.factory) s.timed_out
        (λ _. stop-IsConsistent w (record s { process = started }) run e h)
        (λ _. record {
          status = ground arith;
          expected = (let no = running_rebooting s.status run in ground arith);
          life = ground arith;
          login = λ b. absurd (ground arith);
        })

  finish-IsConsistent :
      (w : World) (success : Bool) (s : Factory)
      → w.path ≡ path
      → s.is_running ≡ true
      → s.reboot_expected ≡ false
      → s.start_due ≡ false
      → is_not_running s.process ≡ true
      → IsConsistent q path (finish q w success true s).factory
  finish-IsConsistent w true s same h e d p = finish_succeeded w s same h d p
  finish-IsConsistent w false s same h e d p = finish_failed w true s h e d p

  handle-IsConsistent :
      (w : World) (e : Event) (s : Factory)
      → happens e s ≡ true
      → w.path ≡ path
      → IsConsistent q path s
      → IsConsistent q path (handle q w e s).factory
  unfolding handle happens drain_output
  handle-IsConsistent w start_fires s h same c =
      let l = c.life in let t = c.status in start-IsConsistent w s (ground arith) (ground arith)
  handle-IsConsistent w timeout_fires s h same c =
      let l = c.life in
      let t = c.status in
      let e = c.expected in
      let no = running_rebooting s.status in
      stop-IsConsistent w (record s { timeout = false }) (ground arith) (ground arith)
        (ground arith)
  handle-IsConsistent w kill_fires s h same c = record {
    status = c.status;
    expected = c.expected;
    life = (let l = c.life in ground arith);
    login = c.login;
  }
  handle-IsConsistent w keepalive_fires s h same c = c
  handle-IsConsistent w output_ready s h same c = record {
    status = c.status;
    expected = c.expected;
    life = c.life;
    login = c.login;
  }
  handle-IsConsistent w process_started s h same c =
      let l = c.life in
      let t = c.status in
      let e = c.expected in
      let no = running_rebooting s.status in
      started-IsConsistent w s (ground arith) (ground arith) (ground arith)
  handle-IsConsistent w failed_to_start s h same c =
      let l = c.life in
      let t = c.status in
      let e = c.expected in
      let no = running_rebooting s.status in
      finish_failed w true (record s { process = not_running }) (ground arith) (ground arith)
        (ground arith) refl
  handle-IsConsistent w (process_finished code normal_exit) s h same c =
      let l = c.life in
      let t = c.status in
      let e = c.expected in
      let no = running_rebooting s.status in
      finish-IsConsistent w (not s.timed_out && normal_exit && code == 0)
        (record s { process = not_running }) same (ground arith) (ground arith) (ground arith) refl

  request-IsConsistent :
      (actions : Actions) (r : ModuleRequest) (busy : Bool) (s : Factory)
      → IsConsistent q path s
      → IsConsistent q path (handle_request q actions r busy s).0
  unfolding handle_request
  request-IsConsistent actions r busy s c =
      if_both P (eqb r.action (codes "read_status")) (λ _. c)
        (λ _.
          if_both P (not (eqb r.action (codes "reset"))) (λ _. c)
            (λ _.
              if_both P (s.is_running || busy || s.reboot_expected) (λ _. c)
                (λ free.
                  if_both P (not (is_true (value (codes "confirm") r.parameters))) (λ _. c)
                    (λ _.
                      let l = c.life in
                      record {
                        status = refl;
                        expected = ground arith;
                        life = ground arith;
                        login = λ b. absurd (ground arith);
                      }))))
    where
      P : Factory × ModuleResponse → Type 0
      P a = IsConsistent q path a.0

  -- Whatever requests and events come, in whatever order: the status is `running` exactly while a
  -- reset runs and `rebooting` exactly while a reboot is expected; a reset that runs either waits
  -- for its start or has a process whose time runs or is over, and without one no timer runs and
  -- no process is up; and while a reboot is expected the login state bars every login, or the
  -- process has exited.
  pub Runs-IsConsistent :
      (s : Factory) (resets : List ModuleRequest) (answered : List ModuleResponse)
      → Runs q path s resets answered
      → IsConsistent q path s
  Runs-IsConsistent _ _ _ (begins login) = record {
    status = refl;
    expected = refl;
    life = refl;
    login = λ b. absurd (ground arith);
  }
  Runs-IsConsistent _ _ _ (requests actions r busy s resets answered run) =
      request-IsConsistent actions r busy s (Runs-IsConsistent s resets answered run)
  Runs-IsConsistent _ _ _ (slots w e s resets answered run h same) =
      handle-IsConsistent w e s h same (Runs-IsConsistent s resets answered run)
