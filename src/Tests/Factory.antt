-- ===== src/Tests/Factory.antt =====
-- The factory reset, at concrete inputs.
use everest_ui.Base.{true, false, [], ◌∷◌, ◌++◌, ◌≡◌, refl, any}
use everest_ui.Base.Text.{codes, eqb, trimmed, drop_while, drop_while_end}
use everest_ui.Base.Int.{pos}
use everest_ui.Base.Json.{Fields, field, end, bool, str, obj, value}
use everest_ui.Api.Types.{ModuleRequest, factory_reset}
use everest_ui.Login.State.{LoginPath, LoginFile, WriteCalls}
use everest_ui.Factory.Evse.{
  Actions, eligible, resolve_evse_indices, collect, manager_index, find_managers,
}
use everest_ui.Factory.State.{Factory, new_factory, handle_request}
use everest_ui.Factory.Events.{
  World, start_fires, handle, happens, start, start_parsed, start_checked,
}
use everest_ui.Factory.Runs.{Runs, begins, requests, slots, accepted, answers}
use everest_ui.Factory.Invariant.{IsConsistent, Runs-IsConsistent}
use everest_ui.Factory.Answers.{reset_ids, response_ids, unanswered, Runs-answered}
use everest_ui.Factory.Guard.{is_run, IsGuarded, handle_guarded}
use everest_ui.Tests.Sample.{sample, sample-QtLaws}

abbrev path : LoginPath
path = record { is_absolute = true; is_directory_link = false; is_file_link = false }

abbrev all_written : WriteCalls
all_written = record { opened = true; permitted = true; written = true; committed = true }

abbrev configuration : Fields
configuration =
    field (codes "active_modules")
      (obj
        (field (codes "evse") (obj (field (codes "module") (str (codes "EvseManager")) end)) end))
      end

abbrev pub actions : Actions
actions = record {
  config = λ key. [];
  effective_config = configuration;
  unplugged = λ indices. true;
  stop_everest = true;
}

abbrev world : World
world = record {
  split_command = λ command. command ∷ [];
  actions = actions;
  path = path;
  calls = all_written;
  removed = true;
  standard_output = [];
  standard_error = [];
}

abbrev reset : ModuleRequest
reset = record {
  request_id = pos 7;
  group = factory_reset;
  action = codes "reset";
  parameters = field (codes "confirm") (bool true) end;
}

abbrev fresh : Factory
fresh = new_factory LoginFile.missing

abbrev accepted_state : Factory
accepted_state = (handle_request sample actions reset false fresh).0

is_due : happens start_fires accepted_state ≡ true
unfolding happens handle_request eqb value
is_due = refl

abbrev started_state : Factory
started_state = (handle sample world start_fires accepted_state).factory

started_run :
    Runs sample path started_state
      ([] ++ accepted reset (handle_request sample actions reset false fresh).1)
      ([] ++ answers (handle sample world start_fires accepted_state).out)
started_run =
    slots world start_fires accepted_state
      ([] ++ accepted reset (handle_request sample actions reset false fresh).1) []
      (requests actions reset false fresh [] [] (begins LoginFile.missing)) is_due refl

Runs-IsConsistent_example : IsConsistent sample path started_state
Runs-IsConsistent_example =
    Runs-IsConsistent sample sample-QtLaws path started_state
      ([] ++ accepted reset (handle_request sample actions reset false fresh).1)
      ([] ++ answers (handle sample world start_fires accepted_state).out) started_run

Runs-answered_example :
    reset_ids ([] ++ accepted reset (handle_request sample actions reset false fresh).1)
    ≡ response_ids ([] ++ answers (handle sample world start_fires accepted_state).out)
      ++ unanswered started_state
Runs-answered_example =
    Runs-answered sample path started_state
      ([] ++ accepted reset (handle_request sample actions reset false fresh).1)
      ([] ++ answers (handle sample world start_fires accepted_state).out) started_run

-- The command is run.
runs : any is_run (handle sample world start_fires accepted_state).out ≡ true
unfolding handle start start_parsed start_checked handle_request eqb value eligible
    resolve_evse_indices collect manager_index find_managers trimmed drop_while drop_while_end
runs = refl

handle_guarded_example : (true ≡ true) × IsGuarded sample actions
handle_guarded_example = handle_guarded sample world start_fires accepted_state runs
