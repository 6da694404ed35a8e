-- ===== src/Options/Defs.antt =====
-- internal/curlu/options.go: `Options` and its errors. A duration is a number of nanoseconds; the
-- texts of the errors are left out.
use curlu.Base.{ℕ, Bool, false, Option, none, List, [], Bytes}
use curlu.Fingerprint.{Fingerprint, FingerprintError}

pub record ResolveEntry : Type 0 where
  pub host : Bytes
  pub port : Bytes
  pub addrs : List Bytes
  pub remove : Bool

-- `utls.ClientHelloID`. No identity of uTLS has an empty client.
pub record ClientHelloId : Type 0 where
  pub client : Bytes
  pub hello_version : Bytes

pub record Options : Type 0 where
  pub include : Bool
  pub silent : Bool
  pub show_error : Bool
  pub verbose : Bool
  pub headers : List Bytes
  pub resolve : List ResolveEntry
  pub connect_timeout : ℕ
  pub max_time : ℕ
  pub utls_hello : ClientHelloId
  pub utls_ciphers : List ℕ
  pub utls_versions : List ℕ
  pub utls_extensions : List ℕ
  pub utls_hello_list : Bool
  pub utls_info : Bool
  pub utls_alpn_none : Bool
  pub utls_alpn : Bytes
  pub utls_ext_none : Bool
  pub ja4t : Option Fingerprint
  pub insecure : Bool
  pub http2_prior_knowledge : Bool
  pub http3 : Bool
  pub ip_family : Bytes
  pub globoff : Bool
  pub urls : List Bytes
  pub help : Bool
  pub version : Bool

-- `var opts Options`.
abbrev pub no_options : Options
no_options = record {
  include = false;
  silent = false;
  show_error = false;
  verbose = false;
  headers = [];
  resolve = [];
  connect_timeout = 0;
  max_time = 0;
  utls_hello = record { client = []; hello_version = [] };
  utls_ciphers = [];
  utls_versions = [];
  utls_extensions = [];
  utls_hello_list = false;
  utls_info = false;
  utls_alpn_none = false;
  utls_alpn = [];
  utls_ext_none = false;
  ja4t = none;
  insecure = false;
  http2_prior_knowledge = false;
  http3 = false;
  ip_family = [];
  globoff = false;
  urls = [];
  help = false;
  version = false;
}

pub data ValueError : Type 0 where
  invalid_timeout negative_timeout invalid_resolve unknown_hello invalid_hex_id : ValueError
  odd_alpn_hex invalid_alpn_hex : ValueError
  invalid_ja4t : FingerprintError → ValueError

pub data OptionError : Type 0 where
  takes_no_value requires_argument unknown_option : Bytes → OptionError
  bad_value : Bytes → ValueError → OptionError
  flag_requires_argument unknown_flag : ℕ → OptionError
  bad_flag_value : ValueError → OptionError
  alpn_conflict ext_conflict version_needs_hello extension_needs_hello no_url : OptionError
  out_of_fuel : OptionError

-- A float64, as far as `parseSeconds` asks: its last case is the duration that comes out.
pub data Seconds : Type 0 where
  not_a_number infinite below_zero too_many : Seconds
  nanoseconds : ℕ → Seconds

-- What the source takes from Go's libraries and from uTLS: `strconv.ParseFloat`, `net.ParseIP` with
-- the address's `String`, `strings.ToLower`, `strings.EqualFold`, and the identities of
-- `utlsHelloByName`, in the order in which its `range` meets them.
pub record Outside : Type 0 where
  pub parse_float : Bytes → Option Seconds
  pub parse_ip : Bytes → Option Bytes
  pub lower : Bytes → Bytes
  pub equal_fold : Bytes → Bytes → Bool
  pub hello_by_name : List (Bytes × ClientHelloId)
