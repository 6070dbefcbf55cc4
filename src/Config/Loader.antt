-- ===== src/Config/Loader.antt =====
-- pkg/config/config.go and config_opts.go: the loader and its options.
use k8s_controller_lib.Prelude.{Bool, true, Option, none, some, List, [], ◌∷◌, if◌then◌else◌}
use k8s_controller_lib.Runtime.Errors.{plain, wrap}
use k8s_controller_lib.Runtime.Exec.{Result, ok, err}
use k8s_controller_lib.Util.{Setting, apply_options}
use k8s_controller_lib.Util.Text.{Text, runes, is_empty}
use k8s_controller_lib.Config.Fields.{Struct}
use k8s_controller_lib.Config.Flags.Registry.{Attempt, FlagApi}
use k8s_controller_lib.Config.Flags.Bind.{BindState, bind_struct}
use k8s_controller_lib.Config.Sources.{ViperApi, set_defaults, bind_env_vars, load_from_path}

-- `LoaderOptions`; `H` is the type of decode hooks.
pub record LoaderOptions (F H : Type 0) : Type 0 where
  pub env_prefix : Text
  pub config_path_env_var : Text
  pub automatic_env : Bool
  pub flag_set : Option F
  pub decode_hook : Option H
  pub nested_separator : Text
  pub time_formats : List Text

-- `WithDecodeHook`; `compose` is `mapstructure.ComposeDecodeHookFunc` of two hooks.
abbrev pub add_hook : {H : Type 0} → (H → H → H) → H → Option H → H
add_hook compose hook none = hook
add_hook compose hook (some before) = compose before hook

module _ {F H : Type 0} where
  -- `defaultLoaderOptions`
  abbrev pub default_loader_options : LoaderOptions F H
  default_loader_options = record {
    env_prefix = runes "CONTROLLER";
    config_path_env_var = runes "CONTROLLER_CONFIGURATION_PATH";
    automatic_env = true;
    flag_set = none;
    decode_hook = none;
    nested_separator = runes "-";
    time_formats = runes "2006-01-02T15:04:05Z07:00" ∷ [];
  }

  abbrev pub with_env_prefix : Text → Setting (LoaderOptions F H)
  with_env_prefix prefix = record { apply_to = λ opts. record opts { env_prefix = prefix } }

  abbrev pub with_config_path_env_var : Text → Setting (LoaderOptions F H)
  with_config_path_env_var env_var = record {
    apply_to = λ opts. record opts { config_path_env_var = env_var };
  }

  abbrev pub with_automatic_env : Bool → Setting (LoaderOptions F H)
  with_automatic_env enabled = record { apply_to = λ opts. record opts { automatic_env = enabled } }

  abbrev pub with_flags : Option F → Setting (LoaderOptions F H)
  with_flags fs = record { apply_to = λ opts. record opts { flag_set = fs } }

  abbrev pub with_decode_hook : (H → H → H) → H → Setting (LoaderOptions F H)
  with_decode_hook compose hook = record {
    apply_to = λ opts. record opts { decode_hook = some (add_hook compose hook opts.decode_hook) };
  }

  abbrev pub with_nested_separator : Text → Setting (LoaderOptions F H)
  with_nested_separator separator = record {
    apply_to = λ opts. record opts { nested_separator = separator };
  }

  abbrev pub with_time_formats : List Text → Setting (LoaderOptions F H)
  with_time_formats formats = record { apply_to = λ opts. record opts { time_formats = formats } }

-- The argument of `For`, as far as it is looked at.
pub data ConfigArgument (D : Type 0) : Type 0 where
  nil_config not_a_pointer pointer_to_other : ConfigArgument D
  pointer_to_struct : Struct D → ConfigArgument D

-- `Loader`; the flag set is the one of the options.
pub record Loader (F V H D : Type 0) : Type 0 where
  pub viper : V
  pub opts : LoaderOptions F H
  pub cfg : Struct D

-- What the loader uses of viper, of the environment and of the hooks next to `ViperApi`. `unmarshal` gives
-- the struct as it is filled, and `validator` is there if the struct has a `Validate`.
pub record LoaderApi (V H D : Type 0) : Type 0 where
  pub new_viper : V
  pub set_env_prefix : Text → V → V
  pub automatic_env : V → V
  pub set_env_key_replacer : V → V
  pub default_hook : H
  pub hook_with_time_formats : List Text → H
  pub getenv : Text → Text
  pub unmarshal : Option H → V → Struct D → Result (Unit {0}) × Struct D
  pub validator : Struct D → Option (Result (Unit {0}))

module _ {F V H D M : Type 0} (api : LoaderApi V H D) (viper_api : ViperApi V D M)
    (flag_api : FlagApi F V D) where
  -- The decode hook, where the options have none
  unfoldable pub hook_for : Option H → List Text → H
  hook_for (some hook) formats = hook
  hook_for none [] = api.default_hook
  hook_for none (format ∷ formats) = api.hook_with_time_formats (format ∷ formats)

  -- The viper with its replacers, the defaults and the environment
  unfoldable pub prepare : LoaderOptions F H → Struct D → V
  unfolding set_defaults bind_env_vars
  prepare options cfg =
      let prefixed_viper = api.set_env_prefix options.env_prefix api.new_viper in
      let viper = set_defaults viper_api cfg (
        api.set_env_key_replacer
          (if options.automatic_env then api.automatic_env prefixed_viper else prefixed_viper)) in
      if options.automatic_env then bind_env_vars viper_api cfg viper else viper

  -- The end of `For`, by the outcome of `BindStruct`
  unfoldable pub flags_bound :
      LoaderOptions F H → Struct D → Attempt (BindState F V) → Option (Result (Loader F V H D))
  flags_bound options cfg none = none
  flags_bound options cfg (some (err e, s)) = some (err (wrap "failed to bind flags" e))
  flags_bound options cfg (some (ok x, s)) = some (
      ok (record {
        viper = s.viper;
        opts = record options { flag_set = some s.flag_set };
        cfg = cfg;
      }))

  unfoldable pub bind_flags :
      LoaderOptions F H → Struct D → V → Option F → Option (Result (Loader F V H D))
  unfolding flags_bound bind_struct
  bind_flags options cfg viper none =
      some (ok (record { viper = viper; opts = options; cfg = cfg }))
  bind_flags options cfg viper (some fs) =
      flags_bound options cfg (bind_struct flag_api cfg [] options.nested_separator fs viper)

  -- `For`; `none` is a panic of pflag.
  unfoldable pub for_ :
      ConfigArgument D → List (Setting (LoaderOptions F H)) → Option (Result (Loader F V H D))
  unfolding hook_for prepare bind_flags apply_options
  for_ nil_config opts = some (err (plain "config cannot be nil"))
  for_ not_a_pointer opts = some (err (plain "config must be a pointer"))
  for_ pointer_to_other opts = some (err (plain "config must be a pointer to struct"))
  for_ (pointer_to_struct cfg) opts =
      let given = apply_options opts default_loader_options in
      let options = record given {
        decode_hook = some (hook_for given.decode_hook given.time_formats);
      } in
      bind_flags options cfg (prepare options cfg) options.flag_set

  -- The validation, at the end of `Load`
  unfoldable pub validated : Option (Result (Unit {0})) → Result (Unit {0})
  validated none = ok tt
  validated (some (ok x)) = ok tt
  validated (some (err e)) = err (wrap "configuration validation failed" e)

  unfoldable pub unmarshalled :
      Loader F V H D → Result (Unit {0}) × Struct D → Result (Unit {0}) × Loader F V H D
  unfolding validated
  unmarshalled l (err e, cfg) = (err (wrap "unmarshal error" e), record l { cfg = cfg })
  unmarshalled l (ok x, cfg) = (validated (api.validator cfg), record l { cfg = cfg })

  -- `Load`, from the outcome of the files on
  unfoldable pub unmarshal_after :
      Loader F V H D → Result (Unit {0}) × V → Result (Unit {0}) × Loader F V H D
  unfolding unmarshalled
  unmarshal_after l (err e, viper) =
      (err (wrap "failed to load configuration from path" e), record l { viper = viper })
  unmarshal_after l (ok x, viper) =
      unmarshalled (record l { viper = viper }) (api.unmarshal l.opts.decode_hook viper l.cfg)

  -- `Load`
  unfoldable pub load : Loader F V H D → Result (Unit {0}) × Loader F V H D
  unfolding unmarshal_after load_from_path
  load l =
      let config_path = api.getenv l.opts.config_path_env_var in
      unmarshal_after l (
        if is_empty config_path
        then (ok tt, l.viper)
        else load_from_path viper_api config_path l.viper)
