-- ===== src/Router/Gate.antt =====
-- backend/api/RequestHandler.cpp: theorems on the requests that reach the modules.
use everest_ui.Base.{ℕ, true, Option, ◌≡◌}
use everest_ui.Base.Text.{Text}
use everest_ui.Base.Int.{ℤ}
use everest_ui.Base.Json.{Json}
use everest_ui.Login.State.{LoginState}
use everest_ui.Router.State.{Handler}
use everest_ui.Router.Send.{Result}
use everest_ui.Router.Reach.{IsGated, reaches}

abbrev Gated : ℤ → ℕ → LoginState → Option Json → Handler → Result → Type 0
Gated truncated sequence login document s r =
    reaches r ≡ true → IsGated truncated sequence login document s r
