-- ===== src/Scripts/Watch/Failover.antt =====
-- What a failover on OpenShift does to the slaves and to the service of the master.
use crunchy_containers.Prelude.{
  Bool, true, false, ◌≡◌, refl, ap, ◌∙◌, List, [], ◌∷◌, Option, none, some,
}
use crunchy_containers.Prelude.Text.{Text}
use crunchy_containers.Scripts.Watch.{
  Settings, Command, sleep, login, projects, get_service, delete_service, trigger, label,
  create_service, delete_pod, Cluster, run_all, block_slaves, promote, ose_failover,
}

-- The pods that some commands make the master: each is triggered, and then labelled.
abbrev pub triggered : List Command → List Text
triggered [] = []
triggered (trigger i ∷ cs) = i ∷ triggered cs
triggered (_ ∷ cs) = triggered cs

abbrev pub labelled : List Command → List (Text × Text)
labelled [] = []
labelled (label i name ∷ cs) = (i, name) ∷ labelled cs
labelled (_ ∷ cs) = labelled cs

abbrev pub deleted : List Command → List Text
deleted [] = []
deleted (delete_pod i ∷ cs) = i ∷ deleted cs
deleted (_ ∷ cs) = deleted cs

promote-deleted :
    (w : Settings) (is : List Text)
    → (triggered (promote w false is) ≡ [])
      × (labelled (promote w false is) ≡ [])
      × (deleted (promote w false is) ≡ is)
unfolding promote
promote-deleted w [] = (refl, refl, refl)
promote-deleted w (i ∷ is) = let (t, l, d) = promote-deleted w is in (t, l, ap (λ js. i ∷ js) d)

-- Of the slaves, the first one alone is triggered and gets the label of the master, and all others
-- are deleted.
pub promote-slaves :
    (w : Settings) (i : Text) (is : List Text)
    → (triggered (promote w true (i ∷ is)) ≡ i ∷ [])
      × (labelled (promote w true (i ∷ is)) ≡ (i, w.pg_master_service) ∷ [])
      × (deleted (promote w true (i ∷ is)) ≡ is)
unfolding promote
promote-slaves w i is =
    let (t, l, d) = promote-deleted w is in
    (ap (λ js. i ∷ js) t, ap (λ ls. (i, w.pg_master_service) ∷ ls) l, d)

-- The service of a name, as it is described, and what the file holds that it is saved in.
pub record Services (c : Cluster) : Type 0 where
  pub service : Text → c.State → Option Text
  pub file : c.State → Option Text

abbrev pub or_else : Option Text → Option Text → Option Text
or_else none y = y
or_else (some x) y = some x

-- The commands that leave services and the file alone.
abbrev pub is_quiet : Command → Bool
is_quiet (get_service _) = false
is_quiet (delete_service _) = false
is_quiet create_service = false
is_quiet _ = true

-- What is documented of the commands, for the service of the name `m`: `get` saves it, `delete`
-- removes it, and `create` makes what the file describes, unless it is there.
pub record IsCluster (c : Cluster) (o : Services c) (m : Text) : Type 0 where
  pub saved :
      (s : c.State)
      → (o.file (c.run (get_service m) s) ≡ o.service m s)
        × (o.service m (c.run (get_service m) s) ≡ o.service m s)
  pub removed :
      (s : c.State)
      → (o.file (c.run (delete_service m) s) ≡ o.file s)
        × (o.service m (c.run (delete_service m) s) ≡ none)
  pub created :
      (s : c.State)
      → (o.file (c.run create_service s) ≡ o.file s)
        × (o.service m (c.run create_service s) ≡ or_else (o.service m s) (o.file s))
  pub quiet :
      (x : Command) (s : c.State)
      → is_quiet x ≡ true
      → (o.file (c.run x s) ≡ o.file s) × (o.service m (c.run x s) ≡ o.service m s)

-- What a failover leaves of the service.
abbrev pub kept_for : List Text → Option Text → Option Text
kept_for [] x = none
kept_for (_ ∷ _) x = x

module _ (c : Cluster) (o : Services c) (w : Settings) (l : IsCluster c o w.pg_master_service) where
  -- The service, and the service that was saved.
  abbrev Shows : Option Text → Option Text → c.State → Type 0
  Shows x y s = (o.service w.pg_master_service s ≡ x) × (o.file s ≡ y)

  Shows-quiet :
      (x : Command) (a b : Option Text) (s : c.State)
      → is_quiet x ≡ true
      → Shows a b s
      → Shows a b (c.run x s)
  Shows-quiet x a b s h (f, g) = let (file, service) = l.quiet x s h in (service ∙ f, file ∙ g)

  pub block_slaves-Shows :
      (project : Text) (s : c.State)
      → Shows none (o.service w.pg_master_service s) (run_all c (block_slaves project w) s)
  block_slaves-Shows project s =
      let m = w.pg_master_service in
      let before = o.service m s in
      let s1 = c.run login s in
      let s2 = c.run (projects project) s1 in
      let s3 = c.run (get_service m) s2 in
      let e2 : o.service m s2 ≡ before =
        (l.quiet (projects project) s1 refl).1 ∙ (l.quiet login s refl).1 in
      Shows-quiet (sleep 10) none before (c.run (delete_service m) s3) refl
        ((l.removed s3).1, (l.removed s3).0 ∙ (l.saved s2).0 ∙ e2)

  Shows-deleted :
      (is : List Text) (x y : Option Text) (s : c.State)
      → Shows x y s
      → Shows x y (run_all c (promote w false is) s)
  unfolding promote
  Shows-deleted [] x y s h = h
  Shows-deleted (i ∷ is) x y s h =
      Shows-deleted is x y (c.run (delete_pod i) s) (Shows-quiet (delete_pod i) x y s refl h)

  Shows-promote :
      (i : Text) (is : List Text) (y : Option Text) (s : c.State)
      → Shows none y s
      → Shows y y (run_all c (promote w true (i ∷ is)) s)
  unfolding promote
  Shows-promote i is y s h =
      let m = w.pg_master_service in
      let s1 = c.run (trigger i) s in
      let s2 = c.run (sleep 60) s1 in
      let s3 = c.run (label i m) s2 in
      let (f, g) =
        Shows-quiet (label i m) none y s2 refl
          (Shows-quiet (sleep 60) none y s1 refl (Shows-quiet (trigger i) none y s refl h)) in
      Shows-deleted is y y (c.run create_service s3)
        ((l.created s3).1 ∙ ap (λ z. or_else z (o.file s3)) f ∙ g, (l.created s3).0 ∙ g)

  promote-Shows :
      (is : List Text) (y : Option Text) (s : c.State)
      → Shows none y s
      → Shows (kept_for is y) y (run_all c (promote w true is) s)
  unfolding promote
  promote-Shows [] y s h = h
  promote-Shows (i ∷ is) y s h = Shows-promote i is y s h

  -- Behind a failover the service of the master is what it was before, if there is a slave to take
  -- its place; without a slave, the service is gone.
  pub ose_failover-kept_for :
      (project : Text) (s : c.State)
      → o.service w.pg_master_service (ose_failover c w project s)
        ≡ kept_for
            (c.pods w.pg_slave_service (run_all c (block_slaves project w) s))
            (o.service w.pg_master_service s)
  unfolding ose_failover
  ose_failover-kept_for project s =
      let blocked = run_all c (block_slaves project w) s in
      (promote-Shows (c.pods w.pg_slave_service blocked) (o.service w.pg_master_service s) blocked
        (block_slaves-Shows project s)).0
