-- ===== src/Main/Tls.antt =====
-- What the options of the two servers make of a TLS configuration, and the limit on documents.
use developer_portal_control.Prelude.{
  String, ◌<◌, Option, none, some, List, [], ◌∷◌, ◌≡◌, refl, ◌⊎◌, inl, inr, ◌==◌, if◌then◌else◌,
  Bool-cases, ltb, arith,
}
use developer_portal_control.Main.{
  Flags, Watcher, TlsConfig, TlsOption, apply_option, serving, tls_options, manager_options, Parsed,
  invalid, negative, natural, default_max_size, size_of_parsed, open_api_max_size,
}

-- A server applies its options in order.
unfoldable pub apply_all : List TlsOption → TlsConfig → TlsConfig
unfolding apply_option
apply_all [] c = c
apply_all (o ∷ os) c = apply_all os (apply_option o c)

-- The certificate of the watcher, or the one before.
abbrev pub served_by : Option Watcher → Option Watcher → Option Watcher
served_by none before = before
served_by (some w) before = some w

abbrev pub expected : Flags → Option Watcher → TlsConfig → TlsConfig
expected flags watcher c = record {
  next_protos = if flags.enable_http2 then c.next_protos else "http/1.1" ∷ [];
  get_certificate = served_by watcher c.get_certificate;
}

options-eq :
    (flags : Flags) (watcher : Option Watcher) (c : TlsConfig)
    → apply_all (serving (tls_options flags) watcher) c ≡ expected flags watcher c
unfolding apply_all tls_options
options-eq flags none c = elim (Bool-cases flags.enable_http2) [
  | inl e ↦ rw e refl
  | inr e ↦ rw e refl
]
options-eq flags (some w) c = elim (Bool-cases flags.enable_http2) [
  | inl e ↦ rw e refl
  | inr e ↦ rw e refl
]

-- Both servers: unless HTTP/2 is enabled by its flag, each speaks HTTP/1.1 only, whatever the
-- protocols before, and where it is enabled they are as before; the certificate is that of the
-- server's own watcher, where there is one, and else as before.
pub servers-eq :
    (flags : Flags) (webhook metrics : Option Watcher) (c : TlsConfig)
    → let options = manager_options flags webhook metrics in
      (apply_all options.webhook_tls_opts c ≡ expected flags webhook c)
      × (apply_all options.metrics.tls_opts c ≡ expected flags metrics c)
      × (options.metrics.authenticates ≡ options.metrics.secure_serving)
unfolding manager_options
servers-eq flags webhook metrics c = (options-eq flags webhook c, options-eq flags metrics c, refl)

parsed-IsLimit :
    (p : Parsed)
    → (0 < size_of_parsed p)
      × ((size_of_parsed p ≡ default_max_size) ⊎ (p ≡ natural (size_of_parsed p)))
unfolding size_of_parsed
parsed-IsLimit invalid = (omega arith, inl refl)
parsed-IsLimit (negative n) = (omega arith, inl refl)
parsed-IsLimit (natural n) = elim (Bool-cases (ltb 0 n)) [
  | inl e ↦ rw e (ground arith, inr refl)
  | inr e ↦ rw e (omega arith, inl refl)
]

-- The limit on documents is positive: it is the default, or the number that the environment holds.
max_size_lem :
    (atoi : String → Parsed) (env : String)
    → (0 < open_api_max_size atoi env)
      × ((open_api_max_size atoi env ≡ default_max_size)
          ⊎ (atoi env ≡ natural (open_api_max_size atoi env)))
unfolding open_api_max_size
max_size_lem atoi env = elim (Bool-cases (env == "")) [
  | inl e ↦ rw e (omega arith, inl refl)
  | inr e ↦ rw e (parsed-IsLimit (atoi env))
]
