-- ===== src/Services/Vacuum/Examples.antt =====
-- The environment of a vacuum job, and one with mistakes.
use crunchy_containers.Prelude.{true, false, ◌≡◌, refl, List, [], ◌∷◌, some, if◌then◌else◌}
use crunchy_containers.Prelude.Text.{Text, text, text_eq}
use crunchy_containers.Services.Checks.{Environment, not_set}
use crunchy_containers.Services.Parse.{parse_bool}
use crunchy_containers.Services.Vacuum.{Parms, get_parms, vacuum_command, run_vacuum}
use crunchy_containers.Services.Vacuum.Settings.{settings, get_parms-needs}
use crunchy_containers.Services.Vacuum.Words.{words, words-vacuum_command}

abbrev pub variables : List (Text × Text) → Environment
variables [] name = []
variables ((k, v) ∷ vs) name = if text_eq k name then v else variables vs name

abbrev job : Environment
job = variables (
    (text "PG_USER", text "postgres")
    ∷ (text "PG_PASSWORD", text "secret")
    ∷ (text "JOB_HOST", text "master")
    ∷ (text "VAC_FREEZE", text "T")
    ∷ (text "VAC_TABLE", text "testtable")
    ∷ [])

-- No host, and a flag that is no Boolean.
abbrev wrong : Environment
wrong = variables (
    (text "PG_USER", text "postgres")
    ∷ (text "PG_PASSWORD", text "secret")
    ∷ (text "VAC_FULL", text "yes")
    ∷ [])

get_parms-needs_example : (get_parms wrong).1 ≡ some (not_set (text "JOB_HOST"))
unfolding parse_bool
get_parms-needs_example = get_parms-needs wrong

abbrev parms : Parms
parms = settings job

words-vacuum_command_example :
    words
      (vacuum_command (record parms { vac_full = false; vac_verbose = false; vac_freeze = true }))
    ≡ text "VACUUM" ∷ text "FREEZE" ∷ text "ANALYZE" ∷ text "testtable" ∷ []
words-vacuum_command_example =
    words-vacuum_command (record parms { vac_full = false; vac_verbose = false; vac_freeze = true })
      refl

-- Without options the table is attached to the first word.
attached :
    vacuum_command (record parms {
      vac_full = false;
      vac_verbose = false;
      vac_analyze = false;
      vac_freeze = false;
    })
    ≡ text "VACUUMtesttable"
unfolding vacuum_command parse_bool
attached = refl

-- The job runs in spite of an error, on no host.
runs_without_host : (run_vacuum (λ _. true) wrong).1 ≡ some (text "VACUUM FULL  VERBOSE  ANALYZE ")
unfolding run_vacuum
runs_without_host = refl
