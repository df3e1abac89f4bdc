-- ===== src/Factory/Evse.antt =====
-- backend/api/modules/FactoryResetRuntime.cpp: `resolveEvseIndices` and `eligible`.
use everest_ui.Base.{
  ℕ, Bool, true, false, ◌&&◌, ◌||◌, not, List, [], ◌∷◌, ◌++◌, Option, none, some, if◌then◌else◌,
  ◌==◌, leb, ltb, length, is_empty, any,
}
use everest_ui.Base.Text.{Text, codes, eqb, trimmed}
use everest_ui.Base.Int.{pos, int_max}
use everest_ui.Base.Json.{Json, undefined, num, Fields, end, field, value, to_object, to_string}
use everest_ui.Qt.{Qt}

abbrev pub is_undefined : Json → Bool
is_undefined undefined = true
is_undefined _ = false

abbrev pub is_evse_manager : Json → Bool
is_evse_manager v = eqb (to_string (value (codes "module") (to_object v))) (codes "EvseManager")

-- The loop over `active_modules`.
unfoldable pub find_managers : Fields → List Fields
find_managers end = []
find_managers (field k v fs) =
    let rest = find_managers fs in if is_evse_manager v then to_object v ∷ rest else rest

-- A double that is a positive integer in the range of `int`.
abbrev pub evse_number : Json → Option ℕ
evse_number (num (pos n)) = if ltb 0 n && leb n int_max then some n else none
evse_number _ = none

-- The number of one manager; `none` is the early return.
unfoldable pub manager_index : (managers : ℕ) → Fields → Option ℕ
manager_index managers manager =
    let mapping = value (codes "mapping") manager in
    let index = value (codes "evse") (to_object (value (codes "module") (to_object mapping))) in
    if is_undefined mapping && managers == 1 then some 1 else evse_number index

abbrev pub contains_number : ℕ → List ℕ → Bool
contains_number n = any (λ m. m == n)

-- The second loop; the result so far is the second argument.
unfoldable pub collect : (managers : ℕ) → List ℕ → List Fields → List ℕ
collect managers result [] = result
collect managers result (manager ∷ rest) = elim (manager_index managers manager) [
  | none ↦ []
  | some n ↦ collect managers (if contains_number n result then result else result ++ (n ∷ [])) rest
]

unfoldable pub resolve_evse_indices : Fields → List ℕ
resolve_evse_indices configuration =
    let managers = find_managers (to_object (value (codes "active_modules") configuration)) in
    collect (length managers) [] managers

-- The functions of `Actions`, and what they return when they are called.
pub record Actions : Type 0 where
  pub config : Text → Text
  pub effective_config : Fields
  pub unplugged : List ℕ → Bool
  pub stop_everest : Bool

module _ (q : Qt) where
  -- `eligible`, with the two members that it reads.
  unfoldable pub eligible : Actions → (checking reboot_expected : Bool) → Bool
  eligible actions checking reboot_expected =
      let v =
        q.to_lower
          (trimmed q.is_space (actions.config (codes "factory_reset_require_unplugged"))) in
      let indices = resolve_evse_indices actions.effective_config in
      if checking || reboot_expected
      then false
      else if eqb v (codes "false")
      then true
      else not (is_empty indices) && actions.unplugged indices
