-- ===== src/Fault.antt =====
-- Go's errors, as far as the source asks about them: what `errors.Is` and `errors.As` answer. The
-- errors are made by the libraries, but for the few that are named here. Also
-- internal/curlu/client.go: `isTimeout`, and utls.go: `isCertVerifyError`.
use curlu.Base.{Bool, true, false, ◌||◌, Option, none}

-- `is_` fields are answers of `errors.Is`, the others those of `errors.As`; `timeout` is that of the
-- `net.Error` in it, and `transport` is a `quic.TransportError`, with `IsCryptoError` of its code.
pub record Fault : Type 0 where
  pub is_deadline_exceeded : Bool
  pub is_eof : Bool
  pub is_unexpected_eof : Bool
  pub is_headers_too_large : Bool
  pub is_ipv4_only : Bool
  pub timeout : Bool
  pub dns : Bool
  pub certificate_verification : Bool
  pub unknown_authority : Bool
  pub hostname : Bool
  pub certificate_invalid : Bool
  pub system_roots : Bool
  pub transport : Option Bool
  pub application : Bool
  pub http3 : Bool
  pub list_too_large : Bool

abbrev pub plain_fault : Fault
plain_fault = record {
  is_deadline_exceeded = false;
  is_eof = false;
  is_unexpected_eof = false;
  is_headers_too_large = false;
  is_ipv4_only = false;
  timeout = false;
  dns = false;
  certificate_verification = false;
  unknown_authority = false;
  hostname = false;
  certificate_invalid = false;
  system_roots = false;
  transport = none;
  application = false;
  http3 = false;
  list_too_large = false;
}

-- `io.ErrShortWrite` and the errors that the source makes by `fmt.Errorf`.
abbrev pub other_fault : Fault
other_fault = plain_fault

abbrev pub eof_fault : Fault
eof_fault = record plain_fault { is_eof = true }

abbrev pub headers_too_large : Fault
headers_too_large = record plain_fault { is_headers_too_large = true }

abbrev pub ipv4_only : Fault
ipv4_only = record plain_fault { is_ipv4_only = true }

unfoldable pub is_timeout : Fault → Bool
is_timeout e = e.is_deadline_exceeded || e.timeout

unfoldable pub is_cert_verify_error : Fault → Bool
is_cert_verify_error e =
    e.certificate_verification || e.unknown_authority || e.hostname || e.certificate_invalid
    || e.system_roots
