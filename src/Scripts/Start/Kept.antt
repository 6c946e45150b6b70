-- ===== src/Scripts/Start/Kept.antt =====
-- A start on a directory that has a database leaves the database alone.
use crunchy_containers.Prelude.{
  Bool, true, false, not, ◌&&◌, ◌≡◌, refl, ap, ◌∙◌, List, [], ◌∷◌, ◌++◌, all, if◌then◌else◌,
  if_then, if_else, Bool-cases, inl, inr, arith,
}
use crunchy_containers.Prelude.Text.{Text, text, text_eq, text_eq_self, starts_with}
use crunchy_containers.Scripts.Shell.{
  Variables, value, Command, mkdir, chown, remove, remove_all, copy, replace, append, initdb, rsync,
  pg_basebackup, psql, Host, Run, exec_all, is_set, pg_ctl_start, pg_ctl_stop, postgres_behind,
  postgres_with, postgres,
}
use crunchy_containers.Scripts.Start.{
  pgdata, in_pgdata, own_conf, server, before_mode, start_mode, start_pg_wrapper, Ended, ran,
  check_required, commands_of, required, secrets, with_secrets, start,
}

-- A property of both values of a test.
pub both {ℓ} :
    {A : Type ℓ} (P : A → Type 0) (b : Bool) (x y : A)
    → (b ≡ true → P x)
    → (b ≡ false → P y)
    → P (if b then x else y)
both P true x y f g = f refl
both P false x y f g = g refl

-- The two commands of `rm` spare the paths that they do not name.
abbrev pub spares : Command → Text → Bool
spares (remove f) p = not (text_eq f p)
spares (remove_all d) p = not (starts_with d p)
spares _ p = true

-- The programs of PostgreSQL and `rsync`, which change files on their own account: a server makes
-- and removes `postmaster.pid`, and other files and directories of the data.
abbrev pub is_program : Command → Bool
is_program (initdb _) = true
is_program (rsync _ _) = true
is_program (pg_basebackup _ _ _ _) = true
is_program (pg_ctl_start _) = true
is_program (pg_ctl_stop _) = true
is_program (psql _) = true
is_program (postgres_behind _ _) = true
is_program (postgres_with _ _) = true
is_program (postgres _) = true
is_program _ = false

-- A file that the named commands, but no program, leave alone.
abbrev pub spares_any : Command → Text → Bool
spares_any c p = not (is_program c) && spares c p

-- What is documented of the commands, where they succeed. `rm` removes what it names, the other
-- commands but the programs no file or directory, and the programs no file `postgresql.conf`;
-- `initdb` keeps the directory that it fills. `mkdir` makes a directory; and the configuration is
-- there behind a copy of it or of a directory that has it.
pub record IsHost (h : Host) : Type 0 where
  pub keeps :
      (c : Command) (p : Text) (s : h.State)
      → spares_any c p ≡ true
      → h.is_file p s ≡ true
      → h.is_file p (h.run c s) ≡ true
  pub keeps_directory :
      (c : Command) (p : Text) (s : h.State)
      → spares_any c p ≡ true
      → h.is_directory p s ≡ true
      → h.is_directory p (h.run c s) ≡ true
  pub keeps_conf :
      (c : Command) (d : Text) (s : h.State)
      → spares c (d ++ text "/postgresql.conf") ≡ true
      → h.is_file (d ++ text "/postgresql.conf") s ≡ true
      → h.is_file (d ++ text "/postgresql.conf") (h.run c s) ≡ true
  pub filled :
      (d : Text) (s : h.State)
      → h.is_directory d s ≡ true
      → h.is_directory d (h.run (initdb d) s) ≡ true
  pub makes : (d : Text) (s : h.State) → h.is_directory d (h.run (mkdir d) s) ≡ true
  pub copies :
      (f d : Text) (s : h.State)
      → h.is_file f s ≡ true
      → h.is_directory d s ≡ true
      → h.is_file (d ++ text "/postgresql.conf") (h.run (copy f d (text "postgresql.conf")) s)
        ≡ true
  pub synchronised :
      (from to : Text) (s : h.State)
      → h.is_file (from ++ text "/postgresql.conf") s ≡ true
      → h.is_directory to s ≡ true
      → h.is_file (to ++ text "/postgresql.conf") (h.run (rsync from to) s) ≡ true

-- A command that cannot change the database: outside of the directories of data, or to remove the
-- file of the process, or to start the server.
abbrev pub outside : Text → Bool
outside p = not (starts_with (text "/pgdata") p)

abbrev pub is_harmless : Variables → Command → Bool
is_harmless env (remove f) = text_eq f (in_pgdata env (text "postmaster.pid"))
is_harmless env (remove_all d) = false
is_harmless env (copy f d n) = outside d
is_harmless env (replace k v f) = outside f
is_harmless env (append t f) = outside f
is_harmless env (initdb d) = false
is_harmless env (rsync from to) = false
is_harmless env (pg_basebackup d host port user) = false
is_harmless env (psql f) = false
is_harmless env _ = true

pub text_eq-append : (a s t : Text) → text_eq (a ++ s) (a ++ t) ≡ text_eq s t
text_eq-append [] s t = refl
text_eq-append (c ∷ a) s t = ground (arith, text_eq-append a s t)

and_then : (b c : Bool) → b && c ≡ true → (b ≡ true) × (c ≡ true)
and_then true c h = (refl, h)
and_then false c h = cc

abbrev pub conf : Variables → Text
conf env = in_pgdata env (text "postgresql.conf")

pub spares-before_mode : (env : Variables) → all (λ c. spares c (conf env)) (before_mode env) ≡ true
spares-before_mode env =
    ap (λ b. not b && true)
      (text_eq-append (pgdata env) (text "/postmaster.pid") (text "/postgresql.conf"))

module _ (env : Variables) (h : Host) (l : IsHost h) where
  pub exec_all-is_file :
      (cs : List Command) (p : Text) (r : Run h)
      → all (λ c. spares_any c p) cs ≡ true
      → h.is_file p r.0 ≡ true
      → h.is_file p (exec_all h cs r).0 ≡ true
  exec_all-is_file [] p r k e = e
  exec_all-is_file (c ∷ cs) p (s, done) k e =
      let (here, later) = and_then (spares_any c p) (all (λ d. spares_any d p) cs) k in
      exec_all-is_file cs p (h.run c s, c ∷ done) later (l.keeps c p s here e)

  pub exec_all-is_directory :
      (cs : List Command) (p : Text) (r : Run h)
      → all (λ c. spares_any c p) cs ≡ true
      → h.is_directory p r.0 ≡ true
      → h.is_directory p (exec_all h cs r).0 ≡ true
  exec_all-is_directory [] p r k e = e
  exec_all-is_directory (c ∷ cs) p (s, done) k e =
      let (here, later) = and_then (spares_any c p) (all (λ d. spares_any d p) cs) k in
      exec_all-is_directory cs p (h.run c s, c ∷ done) later (l.keeps_directory c p s here e)

  pub exec_all-conf :
      (cs : List Command) (d : Text) (r : Run h)
      → all (λ c. spares c (d ++ text "/postgresql.conf")) cs ≡ true
      → h.is_file (d ++ text "/postgresql.conf") r.0 ≡ true
      → h.is_file (d ++ text "/postgresql.conf") (exec_all h cs r).0 ≡ true
  exec_all-conf [] d r k e = e
  exec_all-conf (c ∷ cs) d (s, done) k e =
      let p = d ++ text "/postgresql.conf" in
      let (here, later) = and_then (spares c p) (all (λ x. spares x p) cs) k in
      exec_all-conf cs d (h.run c s, c ∷ done) later (l.keeps_conf c d s here e)

  -- On a directory that has a configuration, no mode does anything.
  start_mode-skips : (r : Run h) → h.is_file (conf env) r.0 ≡ true → start_mode env h r ≡ r
  start_mode-skips r e =
      let there = ap not e in
      elim (Bool-cases (text_eq (value env (text "PG_MODE")) (text "slave"))) [
        | inl slave ↦
            if_then (text_eq (value env (text "PG_MODE")) (text "slave")) _ _ slave
            ∙ if_else (not (h.is_file (conf env) r.0)) _ _ there
        | inr other ↦
            if_else (text_eq (value env (text "PG_MODE")) (text "slave")) _ _ other
            ∙ elim (Bool-cases (text_eq (value env (text "PG_MODE")) (text "master"))) [
              | inl master ↦
                  if_then (text_eq (value env (text "PG_MODE")) (text "master")) _ _ master
                  ∙ if_else (not (h.is_file (conf env) r.0)) _ _ there
              | inr neither ↦
                  if_else (text_eq (value env (text "PG_MODE")) (text "master")) _ _ neither
            ]
      ]

  server-is_harmless : (s : h.State) → is_harmless env (server env h s) ≡ true
  server-is_harmless s = elim (Bool-cases (h.is_file own_conf s)) [
    | inl e ↦ ap (is_harmless env) (if_then (h.is_file own_conf s) _ _ e)
    | inr e ↦ ap (is_harmless env) (if_else (h.is_file own_conf s) _ _ e)
  ]

  before-is_harmless :
      (s : h.State) (done : List Command)
      → all (is_harmless env) done ≡ true
      → all (is_harmless env) (exec_all h (before_mode env) (s, done)).1 ≡ true
  before-is_harmless s done e =
      ap (λ b. b && all (is_harmless env) done)
        (text_eq_self (in_pgdata env (text "postmaster.pid")))
      ∙ e

  start_pg_wrapper-is_harmless :
      (s : h.State) (done : List Command)
      → all (is_harmless env) done ≡ true
      → h.is_file (conf env) s ≡ true
      → all (is_harmless env) (start_pg_wrapper env h (s, done)).1 ≡ true
  unfolding start_pg_wrapper
  start_pg_wrapper-is_harmless s done a e =
      let r = exec_all h (before_mode env) (s, done) in
      let kept =
        exec_all-conf (before_mode env) (pgdata env) (s, done) (spares-before_mode env) e in
      ap (λ q. all (is_harmless env) (exec_all h (server env h q.0 ∷ []) q).1)
        (start_mode-skips r kept)
      ∙ ap (λ b. b && all (is_harmless env) r.1) (server-is_harmless r.0)
      ∙ before-is_harmless s done a

-- Without a required variable no command is run.
aborts-is_harmless :
    (env : Variables) (h : Host) (names : List Text) (next : Ended h)
    → all (is_harmless env) (commands_of next) ≡ true
    → all (is_harmless env) (commands_of (check_required h env names next)) ≡ true
aborts-is_harmless env h [] next e = e
aborts-is_harmless env h (n ∷ ns) next e =
    both (λ x. all (is_harmless env) (commands_of x) ≡ true) (not (is_set env n)) _ _ (λ _. refl)
      (λ _. aborts-is_harmless env h ns next e)

-- Where the directory of the data has a configuration, each command that the script runs leaves the
-- database alone: none creates, restores, copies, clears or loads one, in either mode and with any
-- secrets.
pub start-is_harmless :
    (env : Variables) (h : Host) (s : h.State)
    → IsHost h
    → h.is_file (conf env) s ≡ true
    → all (is_harmless env) (commands_of (start env h s)) ≡ true
unfolding start
start-is_harmless env h s l e =
    let r = exec_all h (chown (pgdata env) ∷ mkdir (pgdata env) ∷ []) (s, []) in
    let known = with_secrets h r.0 secrets env in
    aborts-is_harmless env h required (ran (start_pg_wrapper known h r)) (
      start_pg_wrapper-is_harmless known h l r.0 r.1 refl (
        exec_all-is_file env h l (chown (pgdata env) ∷ mkdir (pgdata env) ∷ []) (conf env) (s, [])
          refl e))
