-- ===== src/Factory/Guard.antt =====
-- backend/api/modules/FactoryResetRuntime.cpp: theorems on what precedes the command, and on the
-- sizes of its time and its outputs.
use everest_ui.Base.{
  ℕ, ◌==◌, Bool, true, false, ◌&&◌, not, List, [], ◌∷◌, any, All, ◌≡◌, inl, inr, refl, sym, arith,
  Bool-cases, subst, if_both, is_empty, length,
}
use everest_ui.Base.Text.{Text, codes, eqb, trimmed}
use everest_ui.Base.Json.{Fields, value, to_object}
use everest_ui.Qt.{Qt}
use everest_ui.Factory.Evse.{Actions, eligible, resolve_evse_indices, find_managers, collect}
use everest_ui.Factory.Coverage.{IsCovered, collect_covers}
use everest_ui.Factory.State.{Factory, started, not_running, safety_check, stop_everest}
use everest_ui.Factory.Events.{
  Output, World, Event, Result, start_fires, timeout_fires, kill_fires, keepalive_fires,
  process_started, failed_to_start, process_finished, output_ready, is_not_running, answer, handle,
  start, start_parsed, start_checked, finish, stop, on_started,
}
use everest_ui.Factory.Invariant.{finish_reaches}
use everest_ui.Factory.Answers.{finish_idle}

abbrev pub is_run : Output → Bool
is_run (Output.run _ _) = true
is_run _ = false

abbrev pub managers_of : Actions → List Fields
managers_of actions =
    find_managers (to_object (value (codes "active_modules") actions.effective_config))

-- The guard is switched off, or each EvseManager of the configuration has a number, and the
-- charging points of these numbers are unplugged.
pub data IsGuarded (q : Qt) (actions : Actions) : Type 0 where
  switched_off :
      eqb
          (q.to_lower
            (trimmed q.is_space (actions.config (codes "factory_reset_require_unplugged"))))
          (codes "false")
        ≡ true
      → IsGuarded q actions
  checked :
      (indices : List ℕ)
      → is_empty indices ≡ false
      → actions.unplugged indices ≡ true
      → All (IsCovered (length (managers_of actions)) indices) (managers_of actions)
      → IsGuarded q actions

eligible_guarded :
    (q : Qt) (actions : Actions) (checking expected : Bool)
    → eligible q actions checking expected ≡ true
    → IsGuarded q actions
unfolding eligible resolve_evse_indices
eligible_guarded q actions checking expected h =
    elim (Bool-cases (
      eqb
        (q.to_lower (trimmed q.is_space (actions.config (codes "factory_reset_require_unplugged"))))
        (codes "false"))) [
          | inl e ↦ switched_off e
          | inr e ↦
              let nonempty : is_empty
                    (collect (length (managers_of actions)) [] (managers_of actions))
                  ≡ false =
                ground arith in
              checked (collect (length (managers_of actions)) [] (managers_of actions)) nonempty
                (ground arith)
                (collect_covers (length (managers_of actions)) [] (managers_of actions) nonempty)
        ]

module _ (q : Qt) (w : World) where
  -- What is known if the command is run.
  abbrev pub IsSafe : Result → Type 0
  IsSafe r = any is_run r.out ≡ true → (w.actions.stop_everest ≡ true) × IsGuarded q w.actions

  finish_safe :
      (success attempted : Bool) (s : Factory)
      → any is_run (finish q w success attempted s).out ≡ false
  finish_safe success attempted s = elim (Bool-cases s.is_running) [
    | inl h ↦
        finish_reaches (λ r. any is_run r.out ≡ false) q w success attempted s h
          λ out err. answer_safe success attempted _
    | inr h ↦
        subst (λ (r : Result). any is_run r.out ≡ false)
          (sym (finish_idle q w success attempted s h)) refl
  ]
    where
      answer_safe :
          (success attempted : Bool) (s : Factory)
          → any is_run (answer q w success attempted s).out ≡ false
      answer_safe true attempted s = refl
      answer_safe false attempted s = refl

  never : (b : Bool) {A : Type 0} → b ≡ false → b ≡ true → A
  never b e h = absurd (ground arith)

  start_checked-IsSafe :
      (program : Text) (arguments : List Text) (s : Factory)
      → IsSafe (start_checked q w program arguments s)
  unfolding start_checked
  start_checked-IsSafe program arguments s =
      if_both IsSafe (not (eligible q w.actions s.checking s.reboot_expected))
        (λ _. never _ (finish_safe false false (record s { phase = safety_check })))
        (λ e.
          if_both IsSafe (not w.actions.stop_everest)
            (λ _. never _ (finish_safe false true (record s { phase = stop_everest })))
            (λ st _. (
              ground arith,
              eligible_guarded q w.actions s.checking s.reboot_expected (ground arith),
            )))

  parsed-IsSafe : (parts : List Text) (s : Factory) → IsSafe (start_parsed q w parts s)
  unfolding start_parsed
  parsed-IsSafe [] s = never _ (finish_safe false true s)
  parsed-IsSafe (program ∷ arguments) s =
      if_both IsSafe (is_empty program) (λ _. never _ (finish_safe false true s))
        (λ _. start_checked-IsSafe program arguments s)

  stop_safe : (s : Factory) → any is_run (stop q w s).out ≡ false
  unfolding stop
  stop_safe s =
      if_both (λ (r : Result). any is_run r.out ≡ false) (is_not_running s.process)
        (λ _. finish_safe false true (record s { timed_out = true })) (λ _. refl)

  -- Whatever the slot: if it runs the command, `executeEverestStop` has succeeded in it, and the
  -- guard has been passed: it is switched off, or each EvseManager of the effective configuration
  -- has a number in a list of charging points that have been found unplugged.
  pub handle_guarded :
      (e : Event) (s : Factory)
      → any is_run (handle q w e s).out ≡ true
      → (w.actions.stop_everest ≡ true) × IsGuarded q w.actions
  unfolding handle start on_started
  handle_guarded start_fires s = parsed-IsSafe (w.split_command _) _
  handle_guarded timeout_fires s = never _ (stop_safe (record s { timeout = false }))
  handle_guarded kill_fires s = never false refl
  handle_guarded keepalive_fires s = never false refl
  handle_guarded output_ready s = never false refl
  handle_guarded process_started s =
      if_both IsSafe s.timed_out (λ _. never _ (stop_safe (record s { process = started })))
        (λ _. never false refl)
  handle_guarded failed_to_start s =
      never _ (finish_safe false true (record s { process = not_running }))
  handle_guarded (process_finished code normal_exit) s = never _ (
      finish_safe (not s.timed_out && normal_exit && code == 0) true
        (record s { process = not_running }))
