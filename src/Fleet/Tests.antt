-- ===== src/Fleet/Tests.antt =====
-- Runs of the fleet endpoints: one agent of tenant 7, its administrator, and passwords that are kept as
-- they are.
use kdb_distributed_controlp.Prelude.{
  String, ℕ, ◌≤◌, ◌≡◌, refl, none, some, List, [], ◌∷◌, ok, err, length, str_eq, All,
}
use kdb_distributed_controlp.Prelude.Exec.{◌>>=◌, ◌>>◌}
use kdb_distributed_controlp.FleetAgent.{check_counts}
use kdb_distributed_controlp.Prelude.Dict.{insert}
use kdb_distributed_controlp.Prelude.Text.{decimal}
use kdb_distributed_controlp.Topology.{
  shards_json, managed_services, shard_services, shards, letter_ranges, validate, range_loop,
  letter_at, number_shards, add_shards, add_tiers, add_names, service, shard_doc, label, letter,
  gateway_host,
}
use kdb_distributed_controlp.Fleet.Store.{
  dispatched, Agent, aws, pending, online, queued, Command, CurrentUser, tenant_admin, Desired,
  empty, provision_of, Db, http, find_agent, find_token, put_agent,
}
use kdb_distributed_controlp.Fleet.Router.{
  Passwords, create_agent, enqueue_command, provision, enroll, authenticate_agent, heartbeat,
  require_admin, require_tenant_scope, load_agent_for_tenant, add_command, log_event,
  desired_topology, insert_sorted, sort_texts, dispatch_queued,
}
use kdb_distributed_controlp.Fleet.Delivery.{
  queue_of, Delivered, with_id, queued_for, ids, IsSentTo,
}
use kdb_distributed_controlp.Fleet.History.{
  Request, create, enqueue, enroll_with, heartbeat_of, serve, serve_all, no_rows,
  delivered_at_most_once,
}
use kdb_distributed_controlp.Fleet.Enrollment.{IsKeyed, enroll_once, enroll_authenticates}
use kdb_distributed_controlp.Fleet.Heartbeat.{heartbeat_delivers}
use kdb_distributed_controlp.Fleet.Accepted.{received, provision_accepted}

abbrev plain : Passwords
plain = record { hash_password = λ s. s; verify_password = str_eq }

abbrev admin : CurrentUser
admin = record { user_id = 1; email = "admin@acme.com"; role = tenant_admin; tenant_id = some 7 }

abbrev slot : Agent
slot = record {
  id = 1;
  tenant_id = 7;
  name = "acme-aws";
  environment = aws;
  status = pending;
  enrollment_token = "enroll_a";
  agent_secret_hash = none;
  last_heartbeat = none;
  last_reported_status = "{}";
}

abbrev enrolled_slot : Agent
enrolled_slot = record slot {
  status = online;
  agent_secret_hash = some "s3cret";
  last_heartbeat = some 100;
}

abbrev restart_rdb : Command
restart_rdb = record {
  id = 1;
  tenant_id = 7;
  agent_id = 1;
  action = "restart";
  service = "rdb-s0";
  payload = empty;
  status = queued;
  result_detail = "";
  dispatched_at = none;
  completed_at = none;
}

abbrev before_enrolling : Db
before_enrolling = record {
  agents = slot ∷ [];
  commands = [];
  next_agent = 2;
  next_command = 1;
  audit = [];
}

abbrev with_command : Db
with_command = record {
  agents = enrolled_slot ∷ [];
  commands = restart_rdb ∷ [];
  next_agent = 2;
  next_command = 2;
  audit = [];
}

-- an agent is made, enrolls, gets a command and pulls it, and pulls again
abbrev requests : List Request
requests =
    create "enroll_a" "acme-aws" aws admin
    ∷ enroll_with "enroll_a" "s3cret" 100
    ∷ enqueue 1 "restart" "rdb-s0" admin
    ∷ heartbeat_of 1 "s3cret" "{}" 110
    ∷ heartbeat_of 1 "s3cret" "{}" 120
    ∷ []

delivered_once : ids (serve_all plain requests no_rows).0 ≡ 1 ∷ []
unfolding serve_all serve create_agent enroll enqueue_command heartbeat authenticate_agent
    dispatch_queued require_admin require_tenant_scope load_agent_for_tenant add_command log_event
    find_agent find_token put_agent ◌>>=◌ ◌>>◌
delivered_once = refl

delivered_at_most_once_example : with_id 1 (serve_all plain requests no_rows).0 ≤ 1
delivered_at_most_once_example = delivered_at_most_once 1 plain requests

heartbeat_delivers_example :
    (sent : List Command) × ((heartbeat plain 1 "s3cret" "{}" 110 with_command).0 ≡ ok sent)
    × All (IsSentTo 1) sent
    × (length sent ≡ 1)
    × (queued_for 1 (heartbeat plain 1 "s3cret" "{}" 110 with_command).1.commands ≡ 0)
    × (ids (heartbeat plain 1 "s3cret" "{}" 110 with_command).1.commands ≡ 1 ∷ [])
    × (sent ≡ record restart_rdb { status = dispatched; dispatched_at = some 110 } ∷ [])
    × Delivered 1 110 sent with_command.commands
        (heartbeat plain 1 "s3cret" "{}" 110 with_command).1.commands
unfolding authenticate_agent find_agent queued_for queue_of ◌>>=◌ ◌>>◌
heartbeat_delivers_example =
    heartbeat_delivers plain 1 "s3cret" "{}" 110 with_command enrolled_slot refl

enroll_once_example :
    enroll plain "enroll_a" "other" 200 (enroll plain "enroll_a" "s3cret" 100 before_enrolling).1
    ≡ (err (http 409), (enroll plain "enroll_a" "s3cret" 100 before_enrolling).1)
unfolding enroll find_token IsKeyed find_agent log_event ◌>>=◌ ◌>>◌
enroll_once_example =
    enroll_once plain "enroll_a" "s3cret" 100 1 "s3cret" before_enrolling "other" 200 (refl, tt)
      refl

enroll_authenticates_example :
    (agent : Agent) × (agent.id ≡ 1)
    × (authenticate_agent plain 1 "s3cret" (enroll plain "enroll_a" "s3cret" 100 before_enrolling).1
        ≡ (ok agent, (enroll plain "enroll_a" "s3cret" 100 before_enrolling).1))
unfolding enroll find_token IsKeyed find_agent log_event ◌>>=◌ ◌>>◌
enroll_authenticates_example =
    enroll_authenticates plain "enroll_a" "s3cret" 100 1 "s3cret" "s3cret" before_enrolling
      (refl, tt) refl

abbrev one_shard : Desired
one_shard = record {
  shard_count = 1;
  topology = record {
    shard_count = 1;
    gateway_port = 5050;
    shard_docs =
        record {
          id = "s0";
          label = "A-Z";
          lo = 65;
          hi = 90;
          tp = "tp-s0:5010";
          rdb_host = "rdb-s0:5020";
          idb_host = "idb-s0:5030";
          wdb_host = "wdb-s0:5040";
          hdb_host = "hdb-s0:5060";
        }
        ∷ [];
  };
  services =
      "bpipe-sim" ∷ "crims-sim" ∷ "gateway" ∷ "hdb-s0" ∷ "idb-s0" ∷ "rdb-s0" ∷ "tp-s0" ∷ "wdb-s0"
      ∷ [];
  gateway_replicas = some 2;
}

abbrev provision_one : Command
provision_one = record restart_rdb {
  id = 2;
  action = "provision";
  service = "data-plane";
  payload = provision_of one_shard "first";
}

provision_one_made : (provision 1 1 (some 2) "first" admin with_command).0 ≡ ok provision_one
unfolding provision require_admin require_tenant_scope load_agent_for_tenant find_agent add_command
    log_event desired_topology shards_json managed_services shard_services shards letter_ranges
    validate range_loop letter_at number_shards add_shards add_tiers add_names service shard_doc
    label letter gateway_host insert insert_sorted sort_texts decimal ◌>>=◌ ◌>>◌
provision_one_made = refl

provision_accepted_example :
    (agent : Agent) × (find_agent 1 with_command.agents ≡ some agent)
    × (tenant_admin ≡ tenant_admin)
    × (some 7 ≡ some agent.tenant_id)
    × (7 ≡ agent.tenant_id)
    × (◌≡◌ {A = ℕ} 1 1)
    × (◌≡◌ {A = String} "provision" "provision")
    × (◌≡◌ {A = String} "data-plane" "data-plane")
    × (queued ≡ queued)
    × ((provision 1 1 (some 2) "first" admin with_command).1.commands
        ≡ restart_rdb ∷ provision_one ∷ [])
    × (desired : Desired) × (provision_of one_shard "first" ≡ provision_of desired "first")
    × (check_counts (received desired) ≡ ok (1, some 2))
    × (1 ≤ 1)
    × (1 ≤ 26)
provision_accepted_example =
    provision_accepted 1 1 (some 2) "first" admin with_command provision_one provision_one_made
