-- ===== src/K8s/Tests/Start.antt =====
-- The operators' starts at concrete inputs.
use koko.Base.{◌≡◌, ◌≢◌, ◌↔◌, ◌≤◌, refl, none, some, true, false, length}
use koko.Go.Text.{bytes}
use koko.K8s.Start.{
  Flags, Call, Refuses, prom_operator, ngloy_operator, options, returned, exited, panicked, run,
}
use koko.K8s.Start.Order.{all_calls, accepted, stopped, IsSuffix, run_order}

abbrev flags : Flags
flags = record {
  metrics_bind_address = none;
  health_probe_bind_address = some (bytes ":9090");
  leader_elect = some true;
}

-- The port of the manager is in use.
abbrev no_port : Refuses
no_port h Call.start = true
no_port h _ = false

run_order_example :
    IsSuffix (run no_port prom_operator flags).1 (all_calls prom_operator flags)
    × (((run no_port prom_operator flags).0 ≡ returned) ↔ (
        ((run no_port prom_operator flags).1 ≡ all_calls prom_operator flags)
        × (accepted no_port (run no_port prom_operator flags).1 ≡ true)))
    × (((run no_port prom_operator flags).0 ≢ returned)
        ↔ (stopped no_port (run no_port prom_operator flags).1 ≡ true))
    × (((run no_port prom_operator flags).0 ≡ panicked) ↔ (
        (stopped no_port (run no_port prom_operator flags).1 ≡ true)
        × (length (run no_port prom_operator flags).1 ≤ 2)))
run_order_example = run_order no_port prom_operator flags

exits : (run no_port ngloy_operator flags).0 ≡ exited
unfolding run
exits = refl

defaults : options ngloy_operator flags ≡ record {
  metrics_bind_address = bytes ":8080";
  port = 9443;
  health_probe_bind_address = bytes ":9090";
  leader_election = true;
  leader_election_id = bytes "c0b563c9.kblog.club";
}
unfolding options
defaults = refl
