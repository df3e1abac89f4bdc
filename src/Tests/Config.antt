-- ===== src/Tests/Config.antt =====
-- The layers of a configuration, at concrete inputs.
use everest_ui.Base.{is_empty, true, false, [], ◌∷◌, none, ◌≡◌, refl, if◌then◌else◌}
use everest_ui.Base.Text.{
  Text, codes, eqb, trimmed, drop_while, drop_while_end, contains, index_of, split, join, ends,
}
use everest_ui.Config.Line.{
  ConfigFile, contents, parse_line, parse_trimmed, valid_key, read_file, strip_bom,
}
use everest_ui.Config.Layers.{is_valid, Paths, load, load_layer, load_lines, apply}
use everest_ui.Config.Store.{new_store, read, judge}
use everest_ui.Config.Overlay.{set, OverlayCalls, write_overlay, rewrite, keep_lines, new_text}
use everest_ui.Config.Meaning.{settle, value_of, file_verdict, load-value_of}
use everest_ui.Config.Update.{written}
use everest_ui.Config.Effect.{write_overlay-load}
use everest_ui.Config.Retain.{read_all, read_retains}
use everest_ui.Tests.Sample.{sample, sample-QtLaws}

abbrev paths : Paths
paths = record { defaults = codes "/etc/ui.conf"; overlay = codes "/etc/ui.conf.d/x.conf" }

abbrev defaults : ConfigFile
defaults = contents (codes "port = 80\nhost=a\n")

abbrev overlay : ConfigFile
overlay = contents (codes "# note\n!host\n")

abbrev new_overlay : Text
new_overlay = codes "# note\n!host\nport=8080\n"

abbrev calls : OverlayCalls
calls = record {
  no_symlinks = true;
  no_symlinks_locked = true;
  is_defaults = false;
  directory = true;
  locked = true;
  opened = true;
  written = true;
  committed = true;
}

valid_before : is_valid (load sample paths defaults overlay) ≡ true
unfolding load load_layer load_lines apply parse_line parse_trimmed valid_key read_file strip_bom
    trimmed drop_while drop_while_end contains index_of split
valid_before = refl

wrote :
    write_overlay sample calls paths.overlay (codes "port") set (codes " 8080") overlay
    ≡ (contents new_overlay, true)
unfolding write_overlay rewrite keep_lines new_text parse_line parse_trimmed valid_key read_file
    strip_bom trimmed drop_while drop_while_end contains index_of split join ends eqb
wrote = refl

load-value_of_example :
    value_of (codes "port") (load sample paths defaults overlay)
    ≡ settle
        (file_verdict sample (codes "port") paths.overlay overlay)
        (settle (file_verdict sample (codes "port") paths.defaults defaults) none)
load-value_of_example = load-value_of sample paths defaults overlay (codes "port") refl valid_before

write_overlay-load_example :
    (is_valid (load sample paths defaults (contents new_overlay)) ≡ true)
    × ((j : Text)
        → is_empty j ≡ false
        → value_of j (load sample paths defaults (contents new_overlay)) ≡ (
            if eqb (codes "port") j
            then settle
                (written sample set (codes " 8080"))
                (settle (file_verdict sample j paths.defaults defaults) none)
            else value_of j (load sample paths defaults overlay)))
write_overlay-load_example =
    write_overlay-load sample sample-QtLaws calls paths (codes "port") set (codes " 8080") defaults
      overlay new_overlay wrote refl valid_before

abbrev broken : ConfigFile
broken = contents (codes "no separator\n")

read_once : (read_all sample ((defaults, overlay) ∷ []) (new_store paths)).loaded ≡ true
unfolding read_all read judge load load_layer load_lines apply parse_line parse_trimmed valid_key
    read_file strip_bom trimmed drop_while drop_while_end contains index_of split
read_once = refl

-- The overlay is broken behind the first read.
read_retains_example :
    let s = read_all sample ((defaults, overlay) ∷ []) (new_store paths) in
    let r = read sample defaults broken s in
    let disk = load sample s.paths defaults broken in
    (is_valid r.1 ≡ true)
    × (r.1 ≡ (if is_valid (judge s.snapshot disk) then disk else s.snapshot))
    × (r.0.snapshot ≡ r.1)
    × (s.snapshot.defaults_loaded ≡ true → r.1.defaults_loaded ≡ true)
    × (s.snapshot.defaults_have_directives ≡ true → r.1.defaults_have_directives ≡ true)
read_retains_example =
    read_retains sample paths ((defaults, overlay) ∷ []) defaults broken read_once
