-- ===== src/Services/Dba/Examples.antt =====
-- A backup on a machine whose templates are texts.
use crunchy_containers.Prelude.{◌≡◌, refl, List, [], ◌∷◌, ◌++◌, none, some}
use crunchy_containers.Prelude.Text.{Text, text}
use crunchy_containers.Services.Checks.{Environment}
use crunchy_containers.Services.Vacuum.Examples.{variables}
use crunchy_containers.Services.Dba.{
  done, exits, panics, Machine, Command, run_vac_job, run_backup_job, load_schedules, vac_job,
  backup_job, ◌>>=◌,
}
use crunchy_containers.Services.Dba.Safety.{backup_needs, StartsOn, run_backup_job-StartsOn}

abbrev machine : Machine
machine = record {
  Template = Text;
  read_file = some;
  parse = some;
  temp_file = λ prefix. some (text "/tmp/" ++ prefix);
  write_vac = λ file template parms. some tt;
  write_backup = λ file template parms. some tt;
}

abbrev values : List (Text × Text)
values =
    (text "JOB_HOST", text "master")
    ∷ (text "PG_USER", text "postgres")
    ∷ (text "PG_PASSWORD", text "secret")
    ∷ (text "PG_PORT", text "5432")
    ∷ (text "BACKUP_PV_CAPACITY", text "1Gi")
    ∷ (text "BACKUP_PV_PATH", text "/nfs")
    ∷ (text "BACKUP_PV_HOST", text "nfs")
    ∷ (text "BACKUP_PVC_STORAGE", text "400M")
    ∷ []

abbrev backup : Environment
backup = variables values

abbrev command : Command
command = record {
  script = text "create-backup-job.sh";
  files = text "/tmp/backupjob" ∷ text "/tmp/backupjobpv" ∷ text "/tmp/backupjobpvc" ∷ [];
  host = text "master";
}

backup_runs : run_backup_job machine backup ≡ done command
unfolding run_backup_job ◌>>=◌
backup_runs = refl

run_backup_job-StartsOn_example : (backup_needs backup ≡ none) × StartsOn backup command
run_backup_job-StartsOn_example = run_backup_job-StartsOn machine backup command backup_runs

-- Without a password the run panics, before it looks for the templates.
no_password :
    run_backup_job
      (record machine { read_file = λ _. none })
      (variables ((text "JOB_HOST", text "master") ∷ (text "PG_USER", text "postgres") ∷ []))
    ≡ panics
unfolding run_backup_job ◌>>=◌
no_password = refl

-- A vacuum job without its template ends the process.
no_template : run_vac_job (record machine { read_file = λ _. none }) backup ≡ exits 2
unfolding run_vac_job ◌>>=◌
no_template = refl

both_scheduled :
    load_schedules (
      variables (
        (text "VAC_SCHEDULE", text "@daily")
        ∷ (text "BACKUP_SCHEDULE", text "@hourly")
        ∷ (text "JOB_HOST", text "master")
        ∷ []))
    ≡ (text "@daily", vac_job (text "master")) ∷ (text "@hourly", backup_job (text "master")) ∷ []
unfolding load_schedules
both_scheduled = refl
