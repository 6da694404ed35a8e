-- ===== src/Execute/Tests.antt =====
-- Two URLs whose responses close their connections, and the theorems there.
use curlu.Base.{
  ℕ, true, false, Option, none, some, [], ◌∷◌, ◌++◌, ◌≡◌, refl, Bytes, codes, ok, err, same,
}
use curlu.Fault.{eof_fault, other_fault}
use curlu.Options.{Options, Outside, no_options, nanoseconds}
use curlu.Response.{
  found, Writer, read_response, response_round, after_header, read_header_block, header_loop,
  write_block, copy_body, copy, tracking_write,
}
use curlu.Connect.{
  Parsed, http, parse_targets, targets_of, expanded_of, parse_each, parse_url, checked_url, url_of,
  check_targets, one_origin, all_same_origin, same_origin, target_port,
}
use curlu.Resolve.{check_transport_options, ja4t_enabled, utls_options_set}
use curlu.Request.{parse_request_headers}
use curlu.Execute.Defs.{done, Env, transfer, http1_each, execute}
use curlu.Execute.Whole.{Executed, execute-Executed}

abbrev pub world : Outside
world = record {
  parse_float = λ s. some (nanoseconds 0);
  parse_ip = λ s. none;
  lower = λ s. s;
  equal_fold = λ a b. same a b;
  hello_by_name = [];
}

abbrev pub parse : Bytes → Option Parsed
parse s = some (record {
  scheme = http;
  host = codes "a";
  has_user = false;
  hostname = codes "a";
  port = [];
  request_uri = s;
})

abbrev two : Options
two = record no_options { urls = codes "/1" ∷ codes "/2" ∷ []; globoff = true }

abbrev pub env : Env ℕ
env = record {
  connect_to = λ n target. ok (n, []);
  arriving = λ conn. record {
    slices = found (codes "HTTP/1.1 200" ++ 10 ∷ []) ∷ found (13 ∷ 10 ∷ []) ∷ [];
    rest = [];
    fault = eof_fault;
  };
  send = λ i conn text. none;
  read_http = λ block reader. ok (record {
    status_code = 200;
    close = true;
    body = codes "a" ∷ codes "b" ∷ [];
    body_end = none;
    next = reader;
  });
  client_conn = λ conn. err other_fault;
  quic_conn = λ target. err 7;
  expired = false;
}

abbrev pub tail : Bytes → ℕ
tail s = 0

abbrev pub output : Writer
output = record { out = []; answers = [] }

abbrev filled : Writer
filled = record { out = codes "abab"; answers = [] }

both_read : execute world parse env tail two (codes "1") output ≡ (filled, done)
unfolding execute parse_targets targets_of expanded_of parse_each parse_url checked_url url_of same
    check_targets one_origin all_same_origin same_origin target_port check_transport_options
    ja4t_enabled utls_options_set parse_request_headers transfer http1_each read_response
    response_round after_header read_header_block header_loop write_block copy_body copy
    tracking_write
both_read = refl

execute-Executed_example : Executed world parse env tail two (codes "1") output filled
execute-Executed_example = execute-Executed world parse env tail two (codes "1") output both_read
