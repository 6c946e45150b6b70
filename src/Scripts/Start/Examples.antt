-- ===== src/Scripts/Start/Examples.antt =====
-- A host that knows which files and directories there are, and its first and second start.
use crunchy_containers.Prelude.{
  ℕ, ◌==◌, Bool-cases, inl, inr, sym, Bool, true, false, not, ◌&&◌, ◌||◌, ◌≡◌, refl, ap, ◌∙◌, List,
  [], ◌∷◌, ◌++◌, Option, none, some, all, if◌then◌else◌,
}
use crunchy_containers.Prelude.Text.{Text, text, text_eq, text_eq_self, eq_of_text_eq, starts_with}
use crunchy_containers.Scripts.Shell.{
  Variables, Command, mkdir, chown, remove, remove_all, copy, rsync, postgres, Host, exec_all, Run,
  initdb, pg_basebackup, pg_ctl_start, pg_ctl_stop, psql, postgres_behind, postgres_with,
}
use crunchy_containers.Scripts.Start.{
  pgdata, start_pg_wrapper, with_secrets, secrets, commands_of, ran, start,
}
use crunchy_containers.Scripts.Start.Kept.{
  spares, spares_any, IsHost, is_harmless, conf, start-is_harmless,
}
use crunchy_containers.Scripts.Start.Initialised.{start-start-is_harmless}

record Disk : Type 0 where
  files : Text → Bool
  directories : Text → Bool

abbrev with_file : Text → Disk → Disk
with_file f s = record s { files = λ p. text_eq f p || s.files p }

abbrev run : Command → Disk → Disk
run (mkdir d) s = record s { directories = λ p. text_eq d p || s.directories p }
run (remove f) s = record {
  files = λ p. not (text_eq f p) && s.files p;
  directories = λ p. not (text_eq f p) && s.directories p;
}
run (remove_all d) s = record {
  files = λ p. not (starts_with d p) && s.files p;
  directories = λ p. not (starts_with d p) && s.directories p;
}
run (copy f d n) s = with_file (d ++ b'/' ∷ n) s
run (rsync from to) s = with_file (to ++ text "/postgresql.conf") s
run (pg_ctl_stop d) s = record s {
  files = λ p. not (text_eq (d ++ text "/postmaster.pid") p) && s.files p;
}
run _ s = s

abbrev host : Host
host = record {
  State = Disk;
  is_file = λ p s. s.files p;
  is_directory = λ p s. s.directories p;
  cat = λ p s. text "secret";
  run = run;
}

or_true : (b : Bool) → b || true ≡ true
or_true true = refl
or_true false = refl

added : (b c : Bool) → c ≡ true → b || c ≡ true
added b c h = ap (λ d. b || d) h ∙ or_true b

same : (f p : Text) (b : Bool) → text_eq f p ≡ true → text_eq f p || b ≡ true
same f p b h = ap (λ c. c || b) h

spared : (b c : Bool) → not b ≡ true → c ≡ true → not b && c ≡ true
spared b c h k = ap (λ d. d && c) h ∙ k

-- The server of this host makes and removes the file of its process.
keeps_file :
    (c : Command) (p : Text) (s : Disk)
    → spares_any c p ≡ true
    → s.files p ≡ true
    → (run c s).files p ≡ true
keeps_file (remove f) p s h k = spared (text_eq f p) (s.files p) h k
keeps_file (remove_all d) p s h k = spared (starts_with d p) (s.files p) h k
keeps_file (copy f d n) p s h k = added (text_eq (d ++ b'/' ∷ n) p) (s.files p) k
keeps_file (mkdir d) p s h k = k
keeps_file (rsync from to) p s h k = cc
keeps_file (initdb d) p s h k = cc
keeps_file (pg_basebackup _ _ _ _) p s h k = cc
keeps_file (pg_ctl_start _) p s h k = cc
keeps_file (pg_ctl_stop _) p s h k = cc
keeps_file (psql _) p s h k = cc
keeps_file (postgres_behind _ _) p s h k = cc
keeps_file (postgres_with _ _) p s h k = cc
keeps_file (postgres _) p s h k = cc
keeps_file _ p s h k = k

keeps_directory :
    (c : Command) (p : Text) (s : Disk)
    → spares_any c p ≡ true
    → s.directories p ≡ true
    → (run c s).directories p ≡ true
keeps_directory (remove f) p s h k = spared (text_eq f p) (s.directories p) h k
keeps_directory (remove_all d) p s h k = spared (starts_with d p) (s.directories p) h k
keeps_directory (mkdir d) p s h k = added (text_eq d p) (s.directories p) k
keeps_directory _ p s h k = k

abbrev last : Text → ℕ
last [] = 0
last (c ∷ []) = c
last (c ∷ d ∷ s) = last (d ∷ s)

last-append : (e : Text) (c : ℕ) (s : Text) → last (e ++ c ∷ s) ≡ last (c ∷ s)
last-append [] c s = refl
last-append (x ∷ []) c s = refl
last-append (x ∷ y ∷ e) c s = last-append (y ∷ e) c s

-- The two names end in different letters.
pid_conf :
    (e d : Text) → text_eq (e ++ text "/postmaster.pid") (d ++ text "/postgresql.conf") ≡ false
pid_conf e d =
    elim (Bool-cases (text_eq (e ++ text "/postmaster.pid") (d ++ text "/postgresql.conf"))) [
      | inl h ↦
          let same_end : b'd' ≡ b'f' =
            sym (last-append e b'/' (text "postmaster.pid"))
            ∙ ap last {x = e ++ text "/postmaster.pid"} {y = d ++ text "/postgresql.conf"}
                (eq_of_text_eq _ _ h)
            ∙ last-append d b'/' (text "postgresql.conf") in
          h ∙ sym (ap (λ n. n == b'f') same_end)
      | inr h ↦ h
    ]

keeps_conf :
    (c : Command) (d : Text) (s : Disk)
    → spares c (d ++ text "/postgresql.conf") ≡ true
    → s.files (d ++ text "/postgresql.conf") ≡ true
    → (run c s).files (d ++ text "/postgresql.conf") ≡ true
keeps_conf (remove f) d s h k = spared (text_eq f (d ++ text "/postgresql.conf")) _ h k
keeps_conf (remove_all x) d s h k = spared (starts_with x (d ++ text "/postgresql.conf")) _ h k
keeps_conf (copy f x n) d s h k = added (text_eq (x ++ b'/' ∷ n) (d ++ text "/postgresql.conf")) _ k
keeps_conf (rsync from to) d s h k =
    added (text_eq (to ++ text "/postgresql.conf") (d ++ text "/postgresql.conf")) _ k
keeps_conf (pg_ctl_stop e) d s h k =
    ap (λ b. not b && s.files (d ++ text "/postgresql.conf")) (pid_conf e d) ∙ k
keeps_conf _ d s h k = k

host-IsHost : IsHost host
host-IsHost = record {
  keeps = keeps_file;
  keeps_directory = keeps_directory;
  keeps_conf = keeps_conf;
  filled = λ d s h. h;
  makes = λ d s. same d d (s.directories d) (text_eq_self d);
  copies = λ f d s h k.
      same (d ++ text "/postgresql.conf") (d ++ text "/postgresql.conf")
        (s.files (d ++ text "/postgresql.conf")) (text_eq_self (d ++ text "/postgresql.conf"));
  synchronised = λ from to s h k.
      same (to ++ text "/postgresql.conf") (to ++ text "/postgresql.conf")
        (s.files (to ++ text "/postgresql.conf")) (text_eq_self (to ++ text "/postgresql.conf"));
}

abbrev env : Variables
env name =
    if text_eq name (text "PG_MODE")
    then some (text "master")
    else if text_eq name (text "BACKUP_PATH")
    then none
    else some (text "db")

abbrev empty_disk : Disk
empty_disk = record {
  files = text_eq (text "/opt/cpm/conf/postgresql.conf.template");
  directories = text_eq (text "/tmp");
}

-- The first start, on the empty disk.
abbrev ready : Run host
ready = exec_all host (chown (pgdata env) ∷ mkdir (pgdata env) ∷ []) (empty_disk, [])

abbrev first_start : Run host
unfolding start_pg_wrapper
first_start = start_pg_wrapper (with_secrets host ready.0 secrets env) host ready

first_runs : start env host empty_disk ≡ ran first_start
unfolding start
first_runs = refl

start-start-is_harmless_example :
    (host.is_file (conf env) first_start.0 ≡ true)
    × (all (is_harmless env) (commands_of (start env host first_start.0)) ≡ true)
start-start-is_harmless_example =
    start-start-is_harmless env host empty_disk first_start host-IsHost refl refl refl first_runs

-- It is not harmless itself, and ends with the server.
abbrev ends_with : List Command → Option Command
ends_with [] = none
ends_with (c ∷ cs) = some c

first : all (is_harmless env) first_start.1 ≡ false
unfolding start_pg_wrapper
first = refl

served : ends_with first_start.1 ≡ some (postgres (text "/pgdata/db"))
unfolding start_pg_wrapper
served = refl

abbrev used_disk : Disk
used_disk = with_file (text "/pgdata/db/postgresql.conf") empty_disk

start-is_harmless_example : all (is_harmless env) (commands_of (start env host used_disk)) ≡ true
start-is_harmless_example = start-is_harmless env host used_disk host-IsHost refl

-- A backup is not restored where /pgdata itself has a configuration, although the directory of the
-- data is empty.
abbrev backup_disk : Disk
backup_disk =
    with_file (text "/pgdata/postgresql.conf")
      (with_file (text "/backup/db/postgresql.conf") empty_disk)

abbrev with_backup : Variables
with_backup name = if text_eq name (text "BACKUP_PATH") then some (text "db") else env name

abbrev restores : List Command → Bool
restores [] = false
restores (rsync _ _ ∷ cs) = true
restores (_ ∷ cs) = restores cs

restored :
    restores (
      commands_of
        (start with_backup host (with_file (text "/backup/db/postgresql.conf") empty_disk)))
    ≡ true
unfolding start start_pg_wrapper
restored = refl

not_restored : restores (commands_of (start with_backup host backup_disk)) ≡ false
unfolding start start_pg_wrapper
not_restored = refl
