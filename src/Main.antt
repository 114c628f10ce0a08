-- ===== src/Main.antt =====
-- cmd/main.go: how the controller manager is started. Parsing of the flags, the file paths,
-- strconv.Atoi, the certificate watchers and the manager are not part of the repository: the values
-- of the flags and of the environment are arguments, and every call that can fail is a step that is
-- answered by a parameter. ctrl.GetConfigOrDie, which exits where it finds no configuration, is a part
-- of the step that makes the manager.
pub mod Tls
pub mod Plan
pub mod Start
use developer_portal_control.Prelude.{
  String, ℕ, ◌*◌, Bool, true, false, Option, none, some, List, [], ◌∷◌, ◌++◌, ◌==◌, if◌then◌else◌,
  ltb,
}
use developer_portal_control.Prelude.Outcome.{Result, ok, err}
use developer_portal_control.Watches.{
  Setup, product_setup, request_setup, request_status_setup, key_status_setup, approval_setup,
  approval_status_setup, auto_approval_setup, secret_setup,
}

-- The variables that the flags set.
pub record Flags : Type 0 where
  pub metrics_addr : String
  pub metrics_cert_path : String
  pub metrics_cert_name : String
  pub metrics_cert_key : String
  pub webhook_cert_path : String
  pub webhook_cert_name : String
  pub webhook_cert_key : String
  pub enable_leader_election : Bool
  pub probe_addr : String
  pub secure_metrics : Bool
  pub enable_http2 : Bool

-- Without any flag.
abbrev pub default_flags : Flags
default_flags = record {
  metrics_addr = "0";
  metrics_cert_path = "";
  metrics_cert_name = "tls.crt";
  metrics_cert_key = "tls.key";
  webhook_cert_path = "";
  webhook_cert_name = "tls.crt";
  webhook_cert_key = "tls.key";
  enable_leader_election = false;
  probe_addr = ":8081";
  secure_metrics = true;
  enable_http2 = false;
}

-- A watcher of a certificate and of its key, by their files.
pub record Watcher : Type 0 where
  pub cert : String
  pub key : String

-- The fields of tls.Config that the options set.
pub record TlsConfig : Type 0 where
  pub next_protos : List String
  pub get_certificate : Option Watcher

-- A `func(*tls.Config)`.
pub data TlsOption : Type 0 where
  disable_http2 : TlsOption
  serve_certificate : Watcher → TlsOption

unfoldable pub apply_option : TlsOption → TlsConfig → TlsConfig
apply_option disable_http2 c = record c { next_protos = "http/1.1" ∷ [] }
apply_option (serve_certificate w) c = record c { get_certificate = some w }

pub record MetricsOptions : Type 0 where
  pub bind_address : String
  pub secure_serving : Bool
  pub tls_opts : List TlsOption
  -- filters.WithAuthenticationAndAuthorization
  pub authenticates : Bool

pub record ManagerOptions : Type 0 where
  pub metrics : MetricsOptions
  pub webhook_tls_opts : List TlsOption
  pub health_probe_bind_address : String
  pub leader_election : Bool
  pub leader_election_id : String

-- The calls that can fail. A controller is set up with the limit on the documents, where it has one.
pub data Step : Type 0 where
  new_watcher : Watcher → Step
  new_manager : ManagerOptions → Step
  set_up : Setup → Option ℕ → Step
  add_watcher : Watcher → Step
  add_healthz add_readyz : Step
  start : Step

-- Whether a call fails, after the calls made so far, newest first.
abbrev pub World : Type 0
World = List Step → Step → Result (Unit {0})

-- The main function up to a point: `none` is os.Exit(1).
abbrev pub Start : Type 0 → Type 0
Start A = List Step → Option A × List Step

abbrev pub resumed : {A B : Type 0} → Option A × List Step → (A → Start B) → Option B × List Step
resumed (some a, h) f = f a h
resumed (none, h) f = (none, h)

infixl 5 ◌>>=◌ ◌>>◌
abbrev pub ◌>>=◌ : {A B : Type 0} → Start A → (A → Start B) → Start B
◌>>=◌ m f h = resumed (m h) f

abbrev pub ◌>>◌ : {B : Type 0} → Start (Unit {0}) → Start B → Start B
m >> k = m >>= λ _. k

abbrev pub exit_on : Result (Unit {0}) → Option (Unit {0})
exit_on (ok u) = some tt
exit_on (err e) = none

abbrev pub step : World → Step → Start (Unit {0})
step w s h = (exit_on (w h s), s ∷ h)

-- What strconv.Atoi returns.
pub data Parsed : Type 0 where
  invalid : Parsed
  negative : ℕ → Parsed
  natural : ℕ → Parsed

abbrev pub default_max_size : ℕ
default_max_size = 500 * 1024

unfoldable pub size_of_parsed : Parsed → ℕ
size_of_parsed invalid = default_max_size
size_of_parsed (negative n) = default_max_size
size_of_parsed (natural n) = if ltb 0 n then n else default_max_size

-- By the variable OPENAPI_SPEC_MAX_SIZE, "" where it is not set.
unfoldable pub open_api_max_size : (String → Parsed) → String → ℕ
unfolding size_of_parsed
open_api_max_size atoi env = if env == "" then default_max_size else size_of_parsed (atoi env)

unfoldable pub tls_options : Flags → List TlsOption
tls_options flags = if flags.enable_http2 then [] else disable_http2 ∷ []

-- `append` of the option that serves from a watcher. The slice that it extends is full, so the other
-- slice that starts with the same options does not see it.
abbrev pub serving : List TlsOption → Option Watcher → List TlsOption
serving opts none = opts
serving opts (some w) = opts ++ (serve_certificate w ∷ [])

unfoldable pub metrics_options : Flags → Option Watcher → MetricsOptions
unfolding tls_options
metrics_options flags watcher = record {
  bind_address = flags.metrics_addr;
  secure_serving = flags.secure_metrics;
  tls_opts = serving (tls_options flags) watcher;
  authenticates = flags.secure_metrics;
}

unfoldable pub manager_options : Flags → Option Watcher → Option Watcher → ManagerOptions
unfolding metrics_options
manager_options flags webhook metrics = record {
  metrics = metrics_options flags metrics;
  webhook_tls_opts = serving (tls_options flags) webhook;
  health_probe_bind_address = flags.probe_addr;
  leader_election = flags.enable_leader_election;
  leader_election_id = "6dd6d79d.kuadrant.io";
}

abbrev pub watcher_at : (String → String → String) → String → String → String → Watcher
watcher_at join path name key = record { cert = join path name; key = join path key }

-- With the answers to the calls.
module _ (w : World) where
  -- A watcher for the certificate at a path, where there is one.
  unfoldable pub certificate_watcher :
      (String → String → String) → String → String → String → Start (Option Watcher)
  certificate_watcher join path name key =
      if path == ""
      then (λ h. (some none, h))
      else step w (new_watcher (watcher_at join path name key))
        >> (λ h. (some (some (watcher_at join path name key)), h))

  unfoldable pub add_if_any : Option Watcher → Start (Unit {0})
  add_if_any none h = (some tt, h)
  add_if_any (some watcher) h = step w (add_watcher watcher) h

  unfoldable pub set_up_controllers : ℕ → Start (Unit {0})
  set_up_controllers max_size =
      step w (set_up product_setup (some max_size))
      >> step w (set_up request_setup none)
      >> step w (set_up request_status_setup none)
      >> step w (set_up key_status_setup none)
      >> step w (set_up approval_setup none)
      >> step w (set_up approval_status_setup none)
      >> step w (set_up auto_approval_setup none)
      >> step w (set_up secret_setup none)

-- With the join of two paths and the parser of integers.
module _ (w : World) (join : String → String → String) (atoi : String → Parsed) where
  unfoldable pub run_main : Flags → String → Start (Unit {0})
  run_main flags env = do
    webhook ←
        certificate_watcher w join flags.webhook_cert_path flags.webhook_cert_name
          flags.webhook_cert_key
    metrics ←
        certificate_watcher w join flags.metrics_cert_path flags.metrics_cert_name
          flags.metrics_cert_key
    step w (new_manager (manager_options flags webhook metrics))
    set_up_controllers w (open_api_max_size atoi env)
    add_if_any w metrics
    add_if_any w webhook
    step w add_healthz
    step w add_readyz
    step w start
