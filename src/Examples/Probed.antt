-- ===== src/Examples/Probed.antt =====
-- A network with one server: it refuses JSON requests with 429, and its gRPC gateway blocks the canary.
use chain_registry_sentinel.Base.{
  ℕ, suc, str_eq, if◌then◌else◌, true, false, none, some, [], ◌∷◌, String, arith, length,
}
use chain_registry_sentinel.Base.Int.{pos}
use chain_registry_sentinel.Checks.Error.{GoError, errorf, other_code}
use chain_registry_sentinel.Checks.Evm
use chain_registry_sentinel.Checks.Rest
use chain_registry_sentinel.Checks.Rpc
use chain_registry_sentinel.Checks.Fetch.{Decoders}
use chain_registry_sentinel.Checks.Fetch.Dialing.{Channels, get_node_info_method}
use chain_registry_sentinel.Checks.Fetch.Socket.{rejected, Sockets}
use chain_registry_sentinel.Checks.Fetch.Upgraded.{Switches}
use chain_registry_sentinel.Checks.GrpcTarget.{Addresses}
use chain_registry_sentinel.Checks.Http.{Http}
use chain_registry_sentinel.Checks.NodeInfoWire.{Data, Tag, Wire}
use chain_registry_sentinel.Checks.NodeInfoWire.Total.{TagsTakeBytes}
use chain_registry_sentinel.Github.Call.{answered}
use chain_registry_sentinel.Github.Outcome.{Outcome, ok, err}
use chain_registry_sentinel.Sentinel.Jobs.{Job, type_grpc}
use chain_registry_sentinel.Sentinel.Probe.Run.{Packages}
use chain_registry_sentinel.Sentinel.Probe.Run.Total.{Returns, run_probe-Returns}
use chain_registry_sentinel.Sentinel.Workers.{initial, start}
use chain_registry_sentinel.Sentinel.Workers.Closing.{Closes}
use chain_registry_sentinel.Sentinel.Workers.Probes.{ProbeAnswers, run_probe-Closes}
use chain_registry_sentinel.Examples.Data.{osmosis, rest_a}

-- The state counts the requests.
abbrev server : Http
server = record {
  State = ℕ;
  Body = String;
  round_trip = λ req s. (answered 429 "slow down", suc s);
  since = λ s t. pos 1;
  read_limited = λ n body. (body, none);
  decimal = λ n. "429";
}

abbrev decoders : Decoders server
decoders = record {
  status = λ body. err (errorf "EOF");
  node_info = λ body. err (errorf "EOF");
  evm = λ body. err (errorf "EOF");
  parse_hex = λ s. err (errorf "invalid syntax");
  quoted = λ s. s;
}

-- A field is its number, its type and one byte.
abbrev first_tag : Data → Outcome Tag
first_tag [] = err (errorf "unexpected EOF")
first_tag (n ∷ d) = ok (record { number = n; wire_type = 2; size = 1 })

abbrev wire : Wire
wire = record {
  consume_tag = first_tag;
  consume_bytes = λ d. ok (d, length d);
  consume_string = λ d. ok ("osmosis-1", length d);
  consume_field_value = λ n t d. ok 1;
}

wire_tags : TagsTakeBytes wire
wire_tags [] tag h = ground arith
wire_tags (n ∷ d) tag h = ground arith

abbrev refusal : GoError
refusal = record {
  message = "rpc error: code = PermissionDenied desc = method is not allowed";
  dns_error = none;
  econnrefused = false;
  econnreset = false;
  ehostunreach = false;
  enetunreach = false;
  hostname_error = false;
  unknown_authority = false;
  certificate_invalid = none;
  certificate_verification = false;
  net_error = none;
  grpc_status = some (record { code = other_code; message = "method is not allowed" });
}

-- The gateway refuses the canary and answers the other method.
abbrev gateway : Channels ℕ
gateway = record {
  Conn = String;
  new_client = λ target use_tls ua. ok target;
  invoke = λ conn method s.
      if str_eq method get_node_info_method then (err refusal, suc s) else (ok [], suc s);
  since = λ s t. pos 1;
}

abbrev sockets : Sockets server
sockets = record {
  Conn = String;
  Message = String;
  dial = λ address header s. (rejected (errorf "bad handshake") (some (404, "not here")), suc s);
  has_deadline = true;
  set_read_deadline = λ conn. none;
  set_write_deadline = λ conn. none;
  write_message = λ conn text s. (none, suc s);
  read_message = λ conn s. (ok "{}", suc s);
  unmarshal = λ msg. ok "";
}

never_switches : Switches server sockets
never_switches address header s status conn h = ground arith

abbrev plain_addresses : Addresses
plain_addresses = record {
  parse = λ a. ok (record { scheme = "https"; host = a; port = "" });
  split_host_port = λ a. err (errorf "missing port in address");
  join_host_port = λ host port. host;
  quoted = λ s. s;
}

abbrev packages : Packages
packages = record {
  http = server;
  decoders = decoders;
  read_full = λ n body. err (errorf "unexpected EOF");
  wire = wire;
  sockets = sockets;
  channels = gateway;
  addresses = plain_addresses;
  parse_int = λ s. none;
  decimal = λ n. "";
}

abbrev grpc_job : Job
grpc_job = record { chain = osmosis; endpoint = rest_a; endpoint_type = type_grpc; order = 1 }

run_probe-Returns_example : Returns packages wire_tags never_switches "sentinel" grpc_job 0
run_probe-Returns_example =
    run_probe-Returns packages wire_tags never_switches "sentinel" grpc_job 0

run_probe-Closes_example :
    Closes (ProbeAnswers packages "sentinel") (grpc_job ∷ []) (initial (grpc_job ∷ []) 8)
run_probe-Closes_example =
    run_probe-Closes packages "sentinel" wire_tags never_switches (grpc_job ∷ []) 8
      (initial (grpc_job ∷ []) 8) 0 start
