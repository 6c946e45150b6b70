-- ===== src/Scripts/Watch/Examples.antt =====
-- A cluster with one service, and some slaves.
use crunchy_containers.Prelude.{true, ◌≡◌, refl, List, [], ◌∷◌, Option, none, some}
use crunchy_containers.Prelude.Text.{Text, text}
use crunchy_containers.Scripts.Watch.{
  Settings, Command, sleep, login, projects, get_service, delete_service, trigger, label,
  create_service, delete_pod, docker_trigger, Cluster, promote, ose_failover, Round, watch,
}
use crunchy_containers.Scripts.Watch.Failover.{
  Services, IsCluster, is_quiet, or_else, triggered, labelled, deleted, promote-slaves,
  ose_failover-kept_for,
}
use crunchy_containers.Scripts.Watch.Lost.{watch-Gone}

record Plain : Type 0 where
  description : Option Text
  saved : Option Text
  slaves : List Text

abbrev run : Command → Plain → Plain
run (get_service m) s = record s { saved = s.description }
run (delete_service m) s = record s { description = none }
run create_service s = record s { description = or_else s.description s.saved }
run _ s = s

abbrev cluster : Cluster
cluster = record { State = Plain; run = run; pods = λ name s. s.slaves }

abbrev services : Services cluster
services = record { service = λ m s. s.description; file = λ s. s.saved }

abbrev settings : Settings
settings = record {
  sleep_time = none;
  ose_project = some (text "pgproject");
  pg_master_service = text "pg-master";
  pg_slave_service = text "pg-slave";
}

quiet :
    (x : Command) (s : Plain)
    → is_quiet x ≡ true
    → ((run x s).saved ≡ s.saved) × ((run x s).description ≡ s.description)
quiet (sleep _) s h = (refl, refl)
quiet login s h = (refl, refl)
quiet (projects _) s h = (refl, refl)
quiet (get_service _) s h = cc
quiet (delete_service _) s h = cc
quiet (trigger _) s h = (refl, refl)
quiet (label _ _) s h = (refl, refl)
quiet create_service s h = cc
quiet (delete_pod _) s h = (refl, refl)
quiet (docker_trigger _) s h = (refl, refl)

cluster-IsCluster : IsCluster cluster services (text "pg-master")
cluster-IsCluster = record {
  saved = λ s. (refl, refl);
  removed = λ s. (refl, refl);
  created = λ s. (refl, refl);
  quiet = quiet;
}

abbrev with_slaves : List Text → Plain
with_slaves is = record { description = some (text "5432"); saved = none; slaves = is }

promote-slaves_example :
    (triggered (promote settings true (text "a" ∷ text "b" ∷ text "c" ∷ [])) ≡ text "a" ∷ [])
    × (labelled (promote settings true (text "a" ∷ text "b" ∷ text "c" ∷ []))
        ≡ (text "a", text "pg-master") ∷ [])
    × (deleted (promote settings true (text "a" ∷ text "b" ∷ text "c" ∷ []))
        ≡ text "b" ∷ text "c" ∷ [])
promote-slaves_example = promote-slaves settings (text "a") (text "b" ∷ text "c" ∷ [])

ose_failover-kept_for_example :
    (ose_failover cluster settings
      (text "pgproject")
      (with_slaves (text "a" ∷ text "b" ∷ []))).description
    ≡ some (text "5432")
ose_failover-kept_for_example =
    ose_failover-kept_for cluster services settings cluster-IsCluster (text "pgproject")
      (with_slaves (text "a" ∷ text "b" ∷ []))

-- Without a slave the service is deleted, and saved in the file; it is not created again.
gone :
    ose_failover cluster settings (text "pgproject") (with_slaves [])
    ≡ record { description = none; saved = some (text "5432"); slaves = [] }
unfolding ose_failover promote
gone = refl

-- A slave that comes later does not help: the next failover overwrites the file by the description
-- of the service, which is gone.
abbrev rounds : List (Round cluster)
rounds =
    record { meanwhile = λ s. record s { slaves = text "a" ∷ [] }; status = 2 }
    ∷ record { meanwhile = λ s. s; status = 2 }
    ∷ []

watch-Gone_example :
    (watch cluster settings rounds
      (record { description = none; saved = some (text "5432"); slaves = [] })).0.description
    ≡ none
watch-Gone_example =
    watch-Gone cluster services settings cluster-IsCluster rounds
      (record { description = none; saved = some (text "5432"); slaves = [] })
      (λ s h. h, (λ s h. h, tt)) refl
