-- ===== src/Scripts/Start/Initialised.antt =====
-- The start of a master makes a database, once.
use crunchy_containers.Prelude.{
  Bool, true, false, not, ◌&&◌, ◌≡◌, refl, sym, ap, ◌∙◌, subst, List, [], ◌∷◌, ◌++◌, all, if_then,
  if_else,
}
use crunchy_containers.Prelude.Text.{Text, text, text_eq}
use crunchy_containers.Scripts.Shell.{
  Variables, value, Command, mkdir, chown, remove, copy, append, sleep, initdb, rsync, chmod, Host,
  Run, exec_all, is_set,
}
use crunchy_containers.Scripts.Start.{
  pgdata, in_pgdata, own_conf, server, before_mode, start_mode, start_pg_wrapper, backup_directory,
  fill_settings, overlay_hba, initdb_logic, restore, check_for_restore, fill_master,
  initialize_master, Ended, ran, aborts, check_required, commands_of, required, secrets,
  with_secrets, start, first_server, load_setup,
}
use crunchy_containers.Scripts.Start.Kept.{
  both, start-is_harmless, spares, IsHost, conf, exec_all-conf, exec_all-is_file,
  exec_all-is_directory, is_harmless,
}

-- What the image brings with it: the template of the configuration, and the directory /tmp.
abbrev pub template : Text
template = text "/opt/cpm/conf/postgresql.conf.template"

abbrev pub tmp_conf : Text
tmp_conf = text "/tmp/postgresql.conf"

eq_true : (b : Bool) → not b ≡ false → b ≡ true
eq_true true h = refl
eq_true false h = cc

module _ (env : Variables) (h : Host) (l : IsHost h) where
  abbrev Has : Text → Run h → Type 0
  Has p r = h.is_file p r.0 ≡ true

  copied :
      (after : List Command) (f d : Text) (q : Run h)
      → all (λ c. spares c (d ++ text "/postgresql.conf")) after ≡ true
      → Has f q
      → h.is_directory d q.0 ≡ true
      → Has
          (d ++ text "/postgresql.conf")
          (exec_all h after (exec_all h (copy f d (text "postgresql.conf") ∷ []) q))
  copied after f d q k e g =
      let c = copy f d (text "postgresql.conf") in
      exec_all-conf env h l after d (h.run c q.0, c ∷ q.1) k (l.copies f d q.0 e g)

  before_mode-tmp_conf :
      (r : Run h)
      → Has template r
      → h.is_directory (text "/tmp") r.0 ≡ true
      → Has tmp_conf (exec_all h (before_mode env) r)
  before_mode-tmp_conf r t d =
      let before = chown (pgdata env) ∷ remove (in_pgdata env (text "postmaster.pid")) ∷ [] in
      copied (fill_settings env) template (text "/tmp") (exec_all h before r) refl
        (exec_all-is_file env h l before template r refl t)
        (exec_all-is_directory env h l before (text "/tmp") r refl d)

  initdb_logic-conf :
      (r : Run h)
      → Has tmp_conf r
      → h.is_directory (pgdata env) r.0 ≡ true
      → Has (conf env) (exec_all h (initdb_logic env) r)
  initdb_logic-conf (s, done) t d =
      let c = initdb (pgdata env) in
      copied (overlay_hba env) tmp_conf (pgdata env) (h.run c s, c ∷ done) refl
        (l.keeps_conf c (text "/tmp") s refl t) (l.filled (pgdata env) s d)

  restore-conf :
      (r : Run h)
      → Has (backup_directory env ++ text "/postgresql.conf") r
      → h.is_directory (pgdata env) r.0 ≡ true
      → Has (conf env) (exec_all h (restore env) r)
  restore-conf (s, done) b d =
      l.keeps_conf (chmod (pgdata env)) (pgdata env)
        (h.run (rsync (backup_directory env) (pgdata env)) s) refl
        (l.synchronised (backup_directory env) (pgdata env) s b d)

  check_for_restore-conf :
      (r : Run h)
      → Has tmp_conf r
      → h.is_directory (pgdata env) r.0 ≡ true
      → Has (conf env) (exec_all h (check_for_restore env h r.0) r)
  check_for_restore-conf r t d =
      let P : List Command → Type 0 = λ cs. Has (conf env) (exec_all h cs r) in
      let new = initdb_logic-conf r t d in
      both P (not (h.is_file (backup_directory env ++ text "/postgresql.conf") r.0)) _ _ (λ e. new)
        λ e.
          both P (not (h.is_file (text "/pgdata/postgresql.conf") r.0)) _ _
            (λ e2. restore-conf r (eq_true _ e) d) λ e2. new

  fill_master-conf : (r : Run h) → Has tmp_conf r → Has (conf env) (fill_master env h r)
  fill_master-conf (s, done) t =
      let c = mkdir (pgdata env) in
      let made = exec_all h (c ∷ []) (s, done) in
      let filled = exec_all h (check_for_restore env h made.0) made in
      let start_log = append (text "starting db") (text "/tmp/start-db.log") in
      let noted = exec_all h (start_log ∷ []) filled in
      let first = first_server env h noted.0 in
      let served = exec_all h (first ∷ sleep 3 ∷ []) noted in
      let e1 =
        check_for_restore-conf made (l.keeps_conf c (text "/tmp") s refl t)
          (l.makes (pgdata env) s) in
      let e2 = exec_all-conf env h l (start_log ∷ []) (pgdata env) filled refl e1 in
      let spared : spares first (conf env) ≡ true =
        both (λ x. spares x (conf env) ≡ true) (h.is_file own_conf noted.0) _ _ (λ _. refl)
          (λ _. refl) in
      let e3 =
        exec_all-conf env h l (first ∷ sleep 3 ∷ []) (pgdata env) noted (ap (λ b. b && true) spared)
          e2 in
      exec_all-conf env h l (load_setup env) (pgdata env) served refl e3

  initialize_master-conf : (r : Run h) → Has tmp_conf r → Has (conf env) (initialize_master env h r)
  initialize_master-conf r t =
      both (Has (conf env)) (not (h.is_file (conf env) r.0)) _ _ (λ e. fill_master-conf r t)
        λ e. eq_true _ e

  start_mode-conf :
      (r : Run h)
      → value env (text "PG_MODE") ≡ text "master"
      → Has tmp_conf r
      → Has (conf env) (start_mode env h r)
  start_mode-conf r m t =
      subst (Has (conf env))
        (sym (
          if_else (text_eq (value env (text "PG_MODE")) (text "slave")) _ _
            (ap (λ v. text_eq v (text "slave")) m)
          ∙ if_then (text_eq (value env (text "PG_MODE")) (text "master")) _ _
              (ap (λ v. text_eq v (text "master")) m)))
        (initialize_master-conf r t)

  start_pg_wrapper-conf :
      (r : Run h)
      → value env (text "PG_MODE") ≡ text "master"
      → Has template r
      → h.is_directory (text "/tmp") r.0 ≡ true
      → Has (conf env) (start_pg_wrapper env h r)
  unfolding start_pg_wrapper
  start_pg_wrapper-conf r m t d =
      let before = exec_all h (before_mode env) r in
      let started = start_mode env h before in
      let e = start_mode-conf before m (before_mode-tmp_conf r t d) in
      let spared : spares (server env h started.0) (conf env) ≡ true =
        both (λ x. spares x (conf env) ≡ true) (h.is_file own_conf started.0) _ _ (λ _. refl)
          (λ _. refl) in
      exec_all-conf env h l (server env h started.0 ∷ []) (pgdata env) started
        (ap (λ b. b && true) spared) e

abbrev run_of : {h : Host} → Run h → Ended h → Run h
run_of d (aborts name) = d
run_of d (ran r) = r

check_required-ran :
    (env : Variables) (h : Host) (names : List Text) (q r : Run h)
    → check_required h env names (ran q) ≡ ran r
    → q ≡ r
check_required-ran env h [] q r e = ap (run_of q) e
check_required-ran env h (n ∷ ns) q r e =
    both (λ x. x ≡ ran r → q ≡ r) (not (is_set env n)) (aborts n) _ (λ _ k. cc)
      (λ _ k. check_required-ran env h ns q r k) e

-- The start of a master, if it runs at all, leaves a configuration in the directory of the data,
-- whatever was there and whether there is a backup or not, and then the next start leaves the
-- database alone. The image has the template of the configuration, and the directory /tmp.
pub start-start-is_harmless :
    (env : Variables) (h : Host) (s : h.State) (r : Run h)
    → IsHost h
    → value env (text "PG_MODE") ≡ text "master"
    → h.is_file template s ≡ true
    → h.is_directory (text "/tmp") s ≡ true
    → start env h s ≡ ran r
    → (h.is_file (conf env) r.0 ≡ true)
      × (all (is_harmless env) (commands_of (start env h r.0)) ≡ true)
unfolding start
start-start-is_harmless env h s r l m t d e =
    let made = chown (pgdata env) ∷ mkdir (pgdata env) ∷ [] in
    let q = exec_all h made (s, []) in
    let known = with_secrets h q.0 secrets env in
    let there =
      subst (λ p. h.is_file (conf env) p.0 ≡ true)
        (check_required-ran env h required (start_pg_wrapper known h q) r e)
        (start_pg_wrapper-conf known h l q m (exec_all-is_file env h l made template (s, []) refl t)
          (exec_all-is_directory env h l made (text "/tmp") (s, []) refl d)) in
    (there, start-is_harmless env h r.0 l there)
