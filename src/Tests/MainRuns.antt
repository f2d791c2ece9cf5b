-- ===== src/Tests/MainRuns.antt =====
-- The command of src/main.py with the default settings, and with the reloader.
use smartcourse_core.Base.{[], refl, true, ◌∷◌, ◌≡◌}
use smartcourse_core.Config.{Settings, default_settings, failed}
use smartcourse_core.Main.{command, str}

abbrev served : Settings
served = default_settings failed

abbrev reloading : Settings
reloading = record served { app = record served.app { reload = true; port = 80 } }

str_five_digits : str 10203 ≡ "10203"
str_five_digits = refl

command_default :
    command "python" served
    ≡ "python" ∷ "-m" ∷ "uvicorn" ∷ "src.main:app" ∷ "--host" ∷ "0.0.0.0" ∷ "--port" ∷ "8000" ∷ []
unfolding command
command_default = refl

command_with_reload :
    command "python" reloading
    ≡ "python" ∷ "-m" ∷ "uvicorn" ∷ "src.main:app" ∷ "--host" ∷ "0.0.0.0" ∷ "--port" ∷ "80"
      ∷ "--reload" ∷ "--reload-dir" ∷ "src" ∷ []
unfolding command
command_with_reload = refl
