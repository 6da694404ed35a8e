-- ===== src/Connect/Tests.antt =====
-- Two URLs of one origin, one with a range in its path, and a host with two addresses.
use curlu.Connect.Quic.{
  quic_addresses, quic_tried, QuicNet, split_deadline, quic_peer_answered, quic_each, connect_quic,
}
use curlu.Text.{split, cut, strip_prefix, find}
use curlu.Number.{scan, pad, digits, digit_value, format_uint, parse_uint}
use curlu.Glob.{
  step, range_width, range_items, loop, is_special, group_items, group, expand_path, escape,
  combine, break_path, expand_range, split_url, expand_glob,
}
use curlu.Connect.Defs.{
  url_of, target_port, same_origin, all_same_origin, one_origin, check_targets, checked_url,
  parse_url, parse_each, expanded_of, targets_of, Parsed, exit, http, parse_targets,
}
use curlu.Fault.{Fault, is_timeout, other_fault, ipv4_only, is_cert_verify_error}
use curlu.Connect.Dial.{dial_each, dial_resolved, Net, dial, connect_failure}
use curlu.Resolve.{canonical_port, apply_rule, apply_rules, mapped_at, lookup_resolve}
use curlu.Options.{canonical_resolve_host, Options, Outside, no_options, nanoseconds}
use native.Mathlib.Omega.{arith}
use curlu.Connect.Share.{Silent, here, silent, quic_each-share}
use curlu.Base.{
  ◌≤◌, ℕ, zero, suc, false, Option, none, some, List, [], ◌∷◌, ◌≡◌, ◌↔◌, refl, Bytes, codes, ok,
  err, length, ltb, same, if◌then◌else◌, Result, ◌/◌, ◌*◌, ◌-◌,
}
use curlu.Request.{Url}
use curlu.Connect.Targets.{Accepts, parse_targets_iff}
use curlu.Connect.Reach.{DialsBy, dial_iff}

-- Addresses are texts of five bytes at least.
abbrev world : Outside
world = record {
  parse_float = λ s. some (nanoseconds 0);
  parse_ip = λ s. if ltb (length s) 5 then none else some s;
  lower = λ s. s;
  equal_fold = λ a b. same a b;
  hello_by_name = [];
}

-- Any text is a URL of one host.
abbrev parse : Bytes → Option Parsed
parse s = some (record {
  scheme = http;
  host = codes "a";
  has_user = false;
  hostname = codes "a";
  port = [];
  request_uri = s;
})

abbrev two : Options
two = record no_options { urls = codes "http://a/[1-2]" ∷ codes "http://a/" ∷ [] }

abbrev target : Bytes → Url
target s = record { scheme = http; hostname = codes "a"; port = []; request_uri = s }

abbrev targets : List Url
targets =
    target (codes "http://a/1") ∷ target (codes "http://a/2") ∷ target (codes "http://a/") ∷ []

parse_targets_iff_example :
    (parse_targets world parse two ≡ ok targets) ↔ Accepts world parse two targets
parse_targets_iff_example = parse_targets_iff world parse two targets

accepted : parse_targets world parse two ≡ ok targets
unfolding parse_targets targets_of expanded_of expand_glob split_url find strip_prefix cut
    expand_range parse_uint parse_each parse_url checked_url same check_targets one_origin
    all_same_origin same_origin target_port url_of break_path combine escape expand_path group
    group_items is_special loop range_items range_width step digit_value digits format_uint pad scan
    canonical_port split
accepted = refl

-- Nothing is a URL.
refused : parse_targets world (λ s. none) two ≡ err (exit 3)
unfolding parse_targets targets_of expanded_of expand_glob split_url find strip_prefix cut
    expand_range parse_uint parse_each parse_url
refused = refl

-- Only the second attempt answers, by its number.
abbrev net : Net ℕ
net = record {
  dial_context = λ i network addr. elim i [
    | zero ↦ record { outcome = err other_fault; expired = false }
    | suc k ↦ record { outcome = ok (suc k); expired = false }
  ];
  start_ja4t = λ i ip port fp. record { outcome = ok i; expired = false };
  lookup_ip4 = λ host. ok [];
}

abbrev ruled : Options
ruled = record no_options {
  resolve =
      record {
        host = codes "a";
        port = codes "80";
        addrs = codes "1.1.1.1" ∷ codes "2.2.2.2" ∷ [];
        remove = false;
      }
      ∷ [];
}

dial_iff_example :
    (dial world net ruled (codes "a") (codes "80") ≡ ok 1)
    ↔ DialsBy world net ruled.ja4t ruled (codes "a") (codes "80") 1
dial_iff_example = dial_iff world net ruled (codes "a") (codes "80") 1

second_answers : dial world net ruled (codes "a") (codes "80") ≡ ok 1
unfolding dial lookup_resolve mapped_at apply_rules apply_rule same canonical_resolve_host
    canonical_port parse_uint format_uint dial_resolved dial_each
second_answers = refl

ipv4_wanted : connect_failure ipv4_only ≡ 2
unfolding connect_failure is_timeout
ipv4_wanted = refl

-- The first of two addresses stays silent for its share, the second answers within five units.
abbrev answer : ℕ → Option ℕ → Result Fault ℕ
answer i none = ok i
answer i (some budget) = if ltb budget 5 then err other_fault else ok i

abbrev quic_net : QuicNet ℕ
quic_net = record {
  lookup_ip = λ network host. ok [];
  dial_quic = λ i addr budget. elim i [
    | zero ↦ record { outcome = err other_fault; expired = false }
    | suc k ↦ record { outcome = answer (suc k) budget; expired = false }
  ];
  time_behind = λ i. 5;
}

one-Silent :
    Silent world quic_net 10 0 0 none
      (codes "1.1.1.1" ∷ codes "2.2.2.2" ∷ [])
      1
      5
      (some other_fault)
      (codes "2.2.2.2" ∷ [])
unfolding split_deadline quic_peer_answered is_cert_verify_error
one-Silent =
    silent (codes "1.1.1.1") (codes "2.2.2.2") [] other_fault 5 refl refl refl refl (omega arith)
      here

quic_each-share_example :
    (b : ℕ) × (quic_each world quic_net (some 10) 0 0 none (codes "1.1.1.1" ∷ codes "2.2.2.2" ∷ [])
      ≡ quic_tried world quic_net
          (quic_net.dial_quic 1 (codes "2.2.2.2") (some b))
          (λ e. quic_each world quic_net (some 10) 2 5 (some e) []))
    × (10 / 2 ≤ b)
    × (b * 1 ≤ 10 - 5)
quic_each-share_example = quic_each-share world quic_net 10 one-Silent

second_connected :
    connect_quic world quic_net ruled (codes "a") (codes "80") (some 10) 0 false ≡ ok 1
unfolding connect_quic quic_addresses lookup_resolve mapped_at apply_rules apply_rule same
    canonical_resolve_host canonical_port parse_uint format_uint quic_each quic_peer_answered
    is_cert_verify_error split_deadline
second_connected = refl
