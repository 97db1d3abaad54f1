-- ===== src/K8s/Start.antt =====
-- nginx-deploy/main.go and operator/main.go, which differ in two names and in their reconciler: how an
-- operator starts. What controller-runtime and client-go answer is a function of the calls before.
pub mod Order
use koko.Base.{ℕ, List, [], ◌∷◌, Option, none, some, Bool, false, if◌then◌else◌}
use koko.Go.Text.{Text, bytes}

-- What the command line sets; package flag parses it.
pub record Flags : Type 0 where
  pub metrics_bind_address : Option Text
  pub health_probe_bind_address : Option Text
  pub leader_elect : Option Bool

-- `ctrl.Options`
pub record Options : Type 0 where
  pub metrics_bind_address : Text
  pub port : ℕ
  pub health_probe_bind_address : Text
  pub leader_election : Bool
  pub leader_election_id : Text

pub data Call : Type 0 where
  add_to_scheme : Text → Call
  get_config : Call
  new_manager : Options → Call
  complete : Text → Call
  add_healthz_check : Text → Call
  add_readyz_check : Text → Call
  start : Call

-- `SetupWithManager`: the builder of a controller is given a type and completed, which may be refused.
abbrev pub setup_ngloy : Call
setup_ngloy = Call.complete (bytes "Ngloy")

abbrev pub setup_prom : Call
setup_prom = Call.complete (bytes "Prom")

-- What the two programs differ in: two names, and the reconciler that is set up.
pub record Operator : Type 0 where
  pub scheme : Text
  pub leader_election_id : Text
  pub setup : Call

abbrev pub ngloy_operator : Operator
ngloy_operator = record {
  scheme = bytes "nginxcomv1";
  leader_election_id = bytes "c0b563c9.kblog.club";
  setup = setup_ngloy;
}

abbrev pub prom_operator : Operator
prom_operator = record {
  scheme = bytes "promv1";
  leader_election_id = bytes "c0b563c9.my.domain";
  setup = setup_prom;
}

-- Whether a call reports an error; the calls before it, the newest first.
abbrev pub Refuses : Type 0
Refuses = List Call → Call → Bool

-- `main` returns, `os.Exit(1)`, or a panic.
pub data Exit : Type 0 where
  returned exited panicked : Exit

abbrev pub or_default {ℓ} : {A : Type ℓ} → A → Option A → A
or_default d none = d
or_default d (some a) = a

unfoldable pub options : Operator → Flags → Options
options o f = record {
  metrics_bind_address = or_default (bytes ":8080") f.metrics_bind_address;
  port = 9443;
  health_probe_bind_address = or_default (bytes ":8081") f.health_probe_bind_address;
  leader_election = or_default false f.leader_elect;
  leader_election_id = o.leader_election_id;
}

module _ (refuses : Refuses) where
  -- A call, and how the program ends if it reports an error.
  abbrev pub try : Exit → Call → (List Call → Exit × List Call) → List Call → Exit × List Call
  try e c next h = if refuses h c then (e, c ∷ h) else next (c ∷ h)

  -- The function `init`, before `main`.
  unfoldable pub init : Operator → (List Call → Exit × List Call) → List Call → Exit × List Call
  init o next =
      try panicked (Call.add_to_scheme (bytes "clientgoscheme"))
        (try panicked (Call.add_to_scheme o.scheme) next)

  -- `GetConfigOrDie` ends the process with 1 by itself, where it finds no configuration.
  unfoldable pub main : Operator → Flags → List Call → Exit × List Call
  unfolding options
  main o f = try exited Call.get_config (
      try exited (Call.new_manager (options o f)) (
        try exited o.setup (
          try exited (Call.add_healthz_check (bytes "healthz")) (
            try exited (Call.add_readyz_check (bytes "readyz"))
              (try exited Call.start (λ h. (returned, h)))))))

  -- The program.
  unfoldable pub run : Operator → Flags → Exit × List Call
  unfolding init main
  run o f = init o (main o f) []
