-- ===== src/Config/Store.antt =====
-- backend/config/LayeredConfig.cpp: `Store`, which keeps the last valid snapshot.
use everest_ui.Base.{Bool, true, false, ◌&&◌, not, Option, none, some, if◌then◌else◌}
use everest_ui.Qt.{Qt}
use everest_ui.Config.Line.{ConfigFile, ConfigError, defaults_missing, defaults_without_directives}
use everest_ui.Config.Layers.{Snapshot, empty_snapshot, is_valid, Paths, load}

pub record Store : Type 0 where
  pub paths : Paths
  pub snapshot : Snapshot
  pub loaded : Bool
  pub last_error : Option ConfigError

abbrev pub new_store : Paths → Store
new_store paths = record {
  paths = paths;
  snapshot = empty_snapshot;
  loaded = false;
  last_error = none;
}

-- The candidate, refused if it loses defaults that were there before.
unfoldable pub judge : Snapshot → Snapshot → Snapshot
judge previous candidate =
    if is_valid candidate && previous.defaults_loaded && not candidate.defaults_loaded
    then record candidate { error = some defaults_missing }
    else if is_valid candidate
        && previous.defaults_have_directives
        && not candidate.defaults_have_directives
    then record candidate { error = some defaults_without_directives }
    else candidate

-- What `read` returns with the new store.
unfoldable pub read_candidate : Snapshot → Store → Store × Snapshot
read_candidate candidate s =
    if is_valid candidate
    then (record s { snapshot = candidate; loaded = true; last_error = none }, candidate)
    else (record s { last_error = candidate.error }, if not s.loaded then candidate else s.snapshot)

unfoldable pub read : Qt → (defaults overlay : ConfigFile) → Store → Store × Snapshot
unfolding read_candidate judge
read q defaults overlay s = read_candidate (judge s.snapshot (load q s.paths defaults overlay)) s
