-- ===== src/Base/Json.antt =====
-- JSON values as `QJsonValue` shows them to the code. A number is an integer, or some other
-- double, of which the code only asks that it is none.
use mathlib.Core.Bool.{Bool, true, false}
use mathlib.Core.List.{[]}
use everest_ui.Base.Int.{ℤ}
use everest_ui.Base.Text.{Text, eqb}
use everest_ui.Base.Tests.{if◌then◌else◌}

mutual
  pub data Json : Type 0 where
    undefined null : Json
    bool : Bool → Json
    num : ℤ → Json
    fraction : Json
    str : Text → Json
    arr : Items → Json
    obj : Fields → Json

  pub data Items : Type 0 where
    nil : Items
    cons : Json → Items → Items

  pub data Fields : Type 0 where
    end : Fields
    field : Text → Json → Fields → Fields

-- `object.value(key)`: undefined where the key is missing.
unfoldable pub value : Text → Fields → Json
value k end = undefined
value k (field j v fs) = if eqb j k then v else value k fs

-- `toObject()`
abbrev pub to_object : Json → Fields
to_object (obj fs) = fs
to_object _ = end

-- `toString()`
abbrev pub to_string : Json → Text
to_string (str s) = s
to_string _ = []

abbrev pub is_object : Json → Bool
is_object (obj _) = true
is_object _ = false

abbrev pub is_string : Json → Bool
is_string (str _) = true
is_string _ = false

abbrev pub is_bool : Json → Bool
is_bool (bool _) = true
is_bool _ = false

-- `toBool()`
abbrev pub to_bool : Json → Bool
to_bool (bool b) = b
to_bool _ = false

-- `object.insert(key, value)`
unfoldable pub set_value : Text → Json → Fields → Fields
set_value k v end = field k v end
set_value k v (field j w fs) = if eqb j k then field j v fs else field j w (set_value k v fs)

-- `object.remove(key)`
unfoldable pub remove_value : Text → Fields → Fields
remove_value k end = end
remove_value k (field j v fs) =
    let rest = remove_value k fs in if eqb j k then rest else field j v rest

-- `isDouble()`
abbrev pub is_double : Json → Bool
is_double (num _) = true
is_double fraction = true
is_double _ = false

-- `toBool(other)`
abbrev pub to_bool_or : Bool → Json → Bool
to_bool_or other (bool b) = b
to_bool_or other _ = other
