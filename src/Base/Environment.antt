-- ===== src/Base/Environment.antt =====
-- `std::getenv`: the environment is an input. The function `get_env` stands in config_manager.cpp,
-- frame_saver.cpp, publisher.cpp and main.cpp.
use mathlib.Core.Path.{◌≡◌, refl}
use mathlib.Core.Option.{Option, none, some}
use frame_processor.Base.Strings.{Text}

abbrev pub Environment : Type 0
Environment = Text → Option Text

unfoldable pub get_env : Environment → Text → Text → Text
get_env env var default_value = elim (env var) [ none ↦ default_value | some val ↦ val ]

pub get_env-none :
    (env : Environment) (var default_value : Text)
    → env var ≡ none
    → get_env env var default_value ≡ default_value
unfolding get_env
get_env-none env var default_value h = rw (h, get_env) refl

pub get_env-some :
    (env : Environment) (var default_value t : Text)
    → env var ≡ some t
    → get_env env var default_value ≡ t
unfolding get_env
get_env-some env var default_value t h = rw (h, get_env) refl
