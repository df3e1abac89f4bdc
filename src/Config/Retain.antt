-- ===== src/Config/Retain.antt =====
-- backend/config/LayeredConfig.cpp: theorems on a sequence of calls of `Store::read`.
use everest_ui.Base.{true, false, List, [], ◌∷◌, ◌≡◌, refl, if◌then◌else◌, arith}
use everest_ui.Qt.{Qt}
use everest_ui.Config.Line.{ConfigFile}
use everest_ui.Config.Layers.{empty_snapshot, is_valid, Paths, load}
use everest_ui.Config.Store.{Store, new_store, judge, read}

-- The snapshot that is kept is valid; it is blank before the first success.
pub record IsSound (s : Store) : Type 0 where
  pub valid : is_valid s.snapshot ≡ true
  pub blank : s.loaded ≡ false → s.snapshot ≡ empty_snapshot

module _ (q : Qt) where
  read-IsSound :
      (defaults overlay : ConfigFile) (s : Store)
      → IsSound s
      → IsSound (read q defaults overlay s).0
  unfolding read
  read-IsSound defaults overlay s h = ground arith

  -- A store and the states of the files that it reads, one after the other.
  unfoldable pub read_all : List (ConfigFile × ConfigFile) → Store → Store
  read_all [] s = s
  read_all ((d, o) ∷ fs) s = read_all fs (read q d o s).0

  read_all-IsSound :
      (fs : List (ConfigFile × ConfigFile)) (s : Store) → IsSound s → IsSound (read_all fs s)
  unfolding read_all
  read_all-IsSound [] s h = h
  read_all-IsSound ((d, o) ∷ fs) s h = read_all-IsSound fs (read q d o s).0 (read-IsSound d o s h)

  -- Whatever the files were before, a read by a store that has loaded once returns a valid snapshot:
  -- the one on disk, if that is valid and has not lost the defaults, and otherwise exactly the last
  -- one kept. Once defaults were read, or had directives, every snapshot returned has them.
  pub read_retains :
      (paths : Paths) (fs : List (ConfigFile × ConfigFile)) (defaults overlay : ConfigFile)
      → let s = read_all fs (new_store paths) in
        let r = read q defaults overlay s in
        let disk = load q s.paths defaults overlay in
        s.loaded ≡ true
        → (is_valid r.1 ≡ true)
          × (r.1 ≡ (if is_valid (judge s.snapshot disk) then disk else s.snapshot))
          × (r.0.snapshot ≡ r.1)
          × (s.snapshot.defaults_loaded ≡ true → r.1.defaults_loaded ≡ true)
          × (s.snapshot.defaults_have_directives ≡ true → r.1.defaults_have_directives ≡ true)
  unfolding read
  read_retains paths fs defaults overlay loaded =
      let h = read_all-IsSound fs (new_store paths) (record { valid = refl; blank = λ _. refl }) in
      let valid = h.valid in ground arith
