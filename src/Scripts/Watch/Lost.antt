-- ===== src/Scripts/Watch/Lost.antt =====
-- A service of the master that is gone stays gone.
use crunchy_containers.Prelude.{
  ℕ, ◌≡◌, refl, ap, ◌∙◌, List, [], ◌∷◌, Option, none, some, All, if_then, if_else, Bool-cases, inl,
  inr, ◌==◌,
}
use crunchy_containers.Prelude.Text.{Text}
use crunchy_containers.Scripts.Watch.{
  Settings, sleep, docker_trigger, Cluster, run_all, block_slaves, ose_failover, failover,
  sleep_seconds, Round, round_of, unless_exit, watch,
}
use crunchy_containers.Scripts.Watch.Failover.{Services, IsCluster, kept_for, ose_failover-kept_for}

kept_none : (is : List Text) → kept_for is none ≡ none
kept_none [] = refl
kept_none (_ ∷ _) = refl

module _ (c : Cluster) (o : Services c) (w : Settings) (l : IsCluster c o w.pg_master_service) where
  abbrev Gone : c.State → Type 0
  Gone s = o.service w.pg_master_service s ≡ none

  -- The cluster does not bring the service back by itself in this round.
  abbrev pub LeavesGone : Round c → Type 0
  LeavesGone r = (s : c.State) → Gone s → Gone (r.meanwhile s)

  failover-Gone : (s : c.State) → Gone s → Gone (failover c w s).0
  unfolding failover
  failover-Gone s h =
      elim w.ose_project
        as (λ p.
          Gone
            (elim p as (λ _. c.State × Option ℕ) [
              | none ↦ (c.run (docker_trigger w.pg_slave_service) s, some 0)
              | some project ↦ (ose_failover c w project s, none)
            ]).0) [
              | none ↦ (l.quiet (docker_trigger w.pg_slave_service) s refl).1 ∙ h
              | some project ↦
                  let is = c.pods w.pg_slave_service (run_all c (block_slaves project w) s) in
                  ose_failover-kept_for c o w l project s ∙ ap (kept_for is) h ∙ kept_none is
            ]

  round_of-Gone : (r : Round c) (s : c.State) → LeavesGone r → Gone s → Gone (round_of c w r s).0
  unfolding round_of
  round_of-Gone r s k h =
      let slept = c.run (sleep (sleep_seconds w)) s in
      let later = r.meanwhile slept in
      let gone = k slept ((l.quiet (sleep (sleep_seconds w)) s refl).1 ∙ h) in
      elim (Bool-cases (r.status == 0)) [
        | inl e ↦
            ap (λ (q : c.State × Option ℕ). o.service w.pg_master_service q.0)
              (if_then (r.status == 0) (later, none) (failover c w later) e)
            ∙ gone
        | inr e ↦
            ap (λ (q : c.State × Option ℕ). o.service w.pg_master_service q.0)
              (if_else (r.status == 0) (later, none) (failover c w later) e)
            ∙ failover-Gone later gone
      ]

  unless_exit-Gone :
      (q : c.State × Option ℕ) (f : c.State → c.State × Option ℕ)
      → Gone q.0
      → ((s : c.State) → Gone s → Gone (f s).0)
      → Gone (unless_exit q f).0
  unless_exit-Gone (s, none) f h k = k s h
  unless_exit-Gone (s, some n) f h k = h

  -- Once the service of the master is gone, no number of rounds of the watch brings it back,
  -- whatever the probes give and whatever slaves there are, unless the cluster does it by itself.
  pub watch-Gone :
      (rs : List (Round c)) (s : c.State)
      → All LeavesGone rs
      → o.service w.pg_master_service s ≡ none
      → o.service w.pg_master_service (watch c w rs s).0 ≡ none
  unfolding watch
  watch-Gone [] s ks h = h
  watch-Gone (r ∷ rs) s (k, ks) h =
      unless_exit-Gone (round_of c w r s) (watch c w rs) (round_of-Gone r s k h)
        (λ t. watch-Gone rs t ks)
