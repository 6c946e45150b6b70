-- ===== src/Scripts/Watch.antt =====
-- bin/watch/start-watch.sh: the rounds of the watch, and the two kinds of failover. The commands of
-- OpenShift and Docker, and the pods that OpenShift lists, are the cluster's.
pub mod Failover
pub mod Lost
pub mod Examples
use crunchy_containers.Prelude.{
  ℕ, Bool, true, false, List, [], ◌∷◌, ◌++◌, Option, none, some, if◌then◌else◌, ◌==◌,
}
use crunchy_containers.Prelude.Text.{Text}

-- The variables of the environment that the script reads. `PG_USER` and `PG_DATABASE` only concern
-- the probe.
pub record Settings : Type 0 where
  pub sleep_time : Option ℕ
  pub ose_project : Option Text
  pub pg_master_service : Text
  pub pg_slave_service : Text

-- The commands: those of `ose_failover`, in the order of the code, and that of Docker.
pub data Command : Type 0 where
  sleep : ℕ → Command
  login : Command
  projects : Text → Command
  get_service : Text → Command
  delete_service : Text → Command
  trigger : Text → Command
  label : Text → Text → Command
  create_service : Command
  delete_pod : Text → Command
  docker_trigger : Text → Command

-- What the script runs in: what a command does, and the names of the pods that a selector gives.
pub record Cluster : Type 1 where
  pub State : Type 0
  pub run : Command → State → State
  pub pods : Text → State → List Text

abbrev pub run_all : (c : Cluster) → List Command → c.State → c.State
run_all c [] s = s
run_all c (x ∷ xs) s = run_all c xs (c.run x s)

-- The commands before the slaves are listed.
abbrev pub block_slaves : Text → Settings → List Command
block_slaves project w =
    login
    ∷ projects project
    ∷ get_service w.pg_master_service
    ∷ delete_service w.pg_master_service
    ∷ sleep 10
    ∷ []

-- The loop over the slaves, with the flag `firstslave`.
unfoldable pub promote : Settings → Bool → List Text → List Command
promote w firstslave [] = []
promote w true (i ∷ is) =
    trigger i ∷ sleep 60 ∷ label i w.pg_master_service ∷ create_service ∷ promote w false is
promote w false (i ∷ is) = delete_pod i ∷ promote w false is

unfoldable pub ose_failover : (c : Cluster) → Settings → Text → c.State → c.State
unfolding promote
ose_failover c w project s =
    let blocked = run_all c (block_slaves project w) s in
    run_all c (promote w true (c.pods w.pg_slave_service blocked)) blocked

-- The state, and the status of the exit if the script ends.
unfoldable pub standalone_failover : (c : Cluster) → Settings → c.State → c.State × Option ℕ
standalone_failover c w s = (c.run (docker_trigger w.pg_slave_service) s, some 0)

unfoldable pub failover : (c : Cluster) → Settings → c.State → c.State × Option ℕ
unfolding ose_failover standalone_failover
failover c w s = elim w.ose_project [
  | none ↦ standalone_failover c w s
  | some project ↦ (ose_failover c w project s, none)
]

abbrev pub sleep_seconds : Settings → ℕ
sleep_seconds w = elim w.sleep_time [ none ↦ 10 | some n ↦ n ]

-- A round: what the cluster does by itself in the meantime, and the status of `pg_isready`.
pub record Round (c : Cluster) : Type 0 where
  pub meanwhile : c.State → c.State
  pub status : ℕ

abbrev pub round_of : (c : Cluster) → Settings → Round c → c.State → c.State × Option ℕ
unfolding failover
round_of c w r s =
    let later = r.meanwhile (c.run (sleep (sleep_seconds w)) s) in
    if r.status == 0 then (later, none) else failover c w later

abbrev pub unless_exit : {S : Type 0} → S × Option ℕ → (S → S × Option ℕ) → S × Option ℕ
unless_exit (s, none) f = f s
unless_exit (s, some n) f = (s, some n)

-- The loop, for as many rounds as it is looked at.
unfoldable pub watch : (c : Cluster) → Settings → List (Round c) → c.State → c.State × Option ℕ
unfolding failover
watch c w [] s = (s, none)
watch c w (r ∷ rs) s = unless_exit (round_of c w r s) (watch c w rs)
