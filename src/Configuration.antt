-- ===== src/Configuration.antt =====
-- internal/config/types.go, and what `GetConfig` of internal/config/config.go makes of the configuration that a
-- store read. Viper, which reads and binds it, is a library; here the bound struct is given. Text is
-- the list of its code points. A duration is a number of nanoseconds.
pub mod Normal
pub mod Stores
use kubernetes_monitor.Prelude.{
  ℕ, suc, ◌*◌, ◌^◌, Bool, true, false, not, Option, none, some, List, [], ◌∷◌, ◌++◌, if◌then◌else◌,
  ◌==◌, nat_eq, ◌&&◌, leb, ◌||◌, any,
}

-- An integer; `negsuc n` is -(n + 1).
pub data ℤ : Type 0 where
  pos : ℕ → ℤ
  negsuc : ℕ → ℤ

abbrev pub Text : Type 0
Text = List ℕ

pub record PersistentConfig : Type 0 where
  pub server_grpc_url : Text
  pub pin_grpc_certificate : Bool
  pub resource_monitor_period : ℤ
  pub max_grpc_send_message_size_bytes : ℤ
  pub max_grpc_receive_message_size_bytes : ℤ
  pub disable_grpc_compression : Bool
  pub health_check_interval : ℤ
  pub health_check_give_up_after : ℤ

pub record SecretConfig : Type 0 where
  pub installation_id : Text
  pub server_thumbprint : Text
  pub authentication_token : Text

-- Of `TransientConfig` what is computed with.
pub record TransientConfig : Type 0 where
  pub use_kubeconfig : Bool
  pub kubeconfig_path : Text
  pub target_namespaces : List Text

pub record Config : Type 0 where
  pub persistent : PersistentConfig
  pub secret : SecretConfig
  pub transient : TransientConfig

pub data MissingField : Type 0 where
  installation_id_is_required authentication_token_is_required : MissingField

abbrev pub is_empty : Text → Bool
is_empty [] = true
is_empty (c ∷ s) = false

-- `MonitorIsRegistered`: the errors that it combines.
unfoldable pub monitor_is_registered : Config → List MissingField
monitor_is_registered c =
    (if is_empty c.secret.installation_id then installation_id_is_required ∷ [] else [])
    ++ (if is_empty c.secret.authentication_token
        then authentication_token_is_required ∷ []
        else [])

abbrev pub default_max_grpc_send_message_size_bytes : ℕ
default_max_grpc_send_message_size_bytes = 50 * 1024 * 1024

abbrev pub default_max_grpc_receive_message_size_bytes : ℕ
default_max_grpc_receive_message_size_bytes = 20 * 1024 * 1024

-- `5 * time.Minute`
abbrev pub default_resource_monitor_period : ℕ
default_resource_monitor_period = 5 * 60 * 10 ^ 9

-- `if n <= 0 { n = default }`
unfoldable pub or_default : ℕ → ℤ → ℤ
or_default fallback (pos n) = if n == 0 then pos fallback else pos n
or_default fallback (negsuc n) = pos fallback

-- `strings.TrimPrefix`
unfoldable pub strip : Text → Text → Option Text
strip [] s = some s
strip (p ∷ prefix) [] = none
strip (p ∷ prefix) (c ∷ s) = let rest = strip prefix s in if p == c then rest else none

unfoldable pub trim_prefix : Text → Text → Text
unfolding strip
trim_prefix prefix s = elim (strip prefix s) [ some rest ↦ rest | none ↦ s ]

-- `unicode.IsSpace`
unfoldable pub is_space : ℕ → Bool
is_space c =
    (leb 9 c && leb c 13)
    || (c == 0x20
        || (c == 0x85
            || (c == 0xa0
                || (c == 0x1680
                    || ((leb 0x2000 c && leb c 0x200a)
                        || (c == 0x2028
                            || (c == 0x2029 || (c == 0x202f || (c == 0x205f || c == 0x3000)))))))))

-- `strings.TrimSpace`
unfoldable pub trim_left : Text → Text
unfolding is_space
trim_left [] = []
trim_left (c ∷ s) = let rest = trim_left s in if is_space c then rest else c ∷ s

-- Trailing space goes: a character stays if it is no space or something stays behind it.
unfoldable pub keep_before : ℕ → Text → Text
unfolding is_space
keep_before c [] = if is_space c then [] else c ∷ []
keep_before c (d ∷ s) = c ∷ d ∷ s

unfoldable pub trim_right : Text → Text
unfolding keep_before
trim_right [] = []
trim_right (c ∷ s) = keep_before c (trim_right s)

unfoldable pub trim_space : Text → Text
unfolding trim_left trim_right
trim_space s = trim_right (trim_left s)

-- `strings.Split(raw, ",")`
abbrev pub comma : ℕ
comma = 44

abbrev pub prefix_first : ℕ → List Text → List Text
prefix_first c [] = (c ∷ []) ∷ []
prefix_first c (part ∷ parts) = (c ∷ part) ∷ parts

unfoldable pub split : Text → List Text
split [] = [] ∷ []
split (c ∷ s) = let rest = split s in if c == comma then [] ∷ rest else prefix_first c rest

-- The loop that trims the namespaces and drops the empty ones.
unfoldable pub keep_namespace : Text → List Text → List Text
keep_namespace [] cleaned = cleaned
keep_namespace (c ∷ ns) cleaned = (c ∷ ns) ∷ cleaned

unfoldable pub clean_namespaces : List Text → List Text
unfolding keep_namespace trim_space
clean_namespaces [] = []
clean_namespaces (ns ∷ namespaces) = keep_namespace (trim_space ns) (clean_namespaces namespaces)

-- The namespaces as bound, or those of the text setting where none is.
unfoldable pub bound_namespaces : Text → List Text → List Text
unfolding split
bound_namespaces [] [] = []
bound_namespaces (c ∷ raw) [] = split (c ∷ raw)
bound_namespaces raw (ns ∷ namespaces) = ns ∷ namespaces

-- The path under a home directory that is there.
unfoldable pub kubeconfig_path_or : Text → Bool → Text → Text
kubeconfig_path_or in_home true [] = in_home
kubeconfig_path_or in_home true (c ∷ path) = c ∷ path
kubeconfig_path_or in_home false path = path

-- "grpc://"
abbrev pub grpc_scheme : Text
grpc_scheme = b'g' ∷ b'r' ∷ b'p' ∷ b'c' ∷ b':' ∷ b'/' ∷ b'/' ∷ []

-- From the configuration that the store read on. `raw_namespaces` is the text setting, and `in_home` the
-- kubeconfig's path in the home directory, empty where there is none.
unfoldable pub get_config : Text → Text → Config → Config
unfolding trim_prefix bound_namespaces clean_namespaces kubeconfig_path_or or_default
get_config raw_namespaces in_home c = record c {
  persistent = record (c.persistent) {
    server_grpc_url = trim_prefix grpc_scheme c.persistent.server_grpc_url;
    resource_monitor_period =
        or_default default_resource_monitor_period c.persistent.resource_monitor_period;
    max_grpc_send_message_size_bytes =
        or_default default_max_grpc_send_message_size_bytes
          c.persistent.max_grpc_send_message_size_bytes;
    max_grpc_receive_message_size_bytes =
        or_default default_max_grpc_receive_message_size_bytes
          c.persistent.max_grpc_receive_message_size_bytes;
  };
  transient = record (c.transient) {
    target_namespaces =
        clean_namespaces (bound_namespaces raw_namespaces c.transient.target_namespaces);
    kubeconfig_path =
        kubeconfig_path_or in_home c.transient.use_kubeconfig c.transient.kubeconfig_path;
  };
}
