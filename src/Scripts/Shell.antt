-- ===== src/Scripts/Shell.antt =====
-- bin/start.sh and the scripts that it runs: variables, commands, and the host that runs them.
use crunchy_containers.Prelude.{ℕ, Bool, true, false, List, [], ◌∷◌, Option, none, some}
use crunchy_containers.Prelude.Text.{Text}

-- The variables: `-v` asks whether one is set.
abbrev pub Variables : Type 0
Variables = Text → Option Text

abbrev pub is_set : Variables → Text → Bool
is_set env name = elim (env name) [ none ↦ false | some v ↦ true ]

abbrev pub or_value : Option Text → Text → Text
or_value none d = d
or_value (some v) d = v

abbrev pub value : Variables → Text → Text
value env name = or_value (env name) []

-- The commands, with their operands. `copy f d n` copies the file `f` to the file `n` of the
-- directory `d`, and `replace k v f` is the command of `sed` which replaces `k` by `v` in `f`.
pub data Command : Type 0 where
  mkdir : Text → Command
  chown : Text → Command
  remove : Text → Command
  remove_all : Text → Command
  copy : Text → Text → Text → Command
  replace : Text → Text → Text → Command
  append : Text → Text → Command
  chmod : Text → Command
  sleep : ℕ → Command
  initdb : Text → Command
  rsync : Text → Text → Command
  pg_basebackup : Text → Text → Text → Text → Command
  pg_ctl_start : Text → Command
  pg_ctl_stop : Text → Command
  psql : Text → Command
  postgres_behind : Text → Text → Command
  postgres_with : Text → Text → Command
  postgres : Text → Command

-- The host: the tests of files and directories, the text of a file, and what a command does.
pub record Host : Type 1 where
  pub State : Type 0
  pub is_file : Text → State → Bool
  pub is_directory : Text → State → Bool
  pub cat : Text → State → Text
  pub run : Command → State → State

-- The state, and the commands so far, the last one first.
abbrev pub Run : Host → Type 0
Run h = h.State × List Command

abbrev pub exec_all : (h : Host) → List Command → Run h → Run h
exec_all h [] r = r
exec_all h (c ∷ cs) (s, done) = exec_all h cs (h.run c s, c ∷ done)
