-- ===== src/ServerBrowser/Connection/Counts.antt =====
-- Over any run, each connection is counted once while it is open.
use fruitspy.Prelude.{
  ℕ, ◌≡◌, refl, sym, ap, ◌∙◌, subst, Option, none, some, List, ◌∷◌, ◌++◌, nat_eq, list_eq, Error,
  arith,
}
use fruitspy.Dict.{get}
use fruitspy.ConnectionAdmission
use fruitspy.ConnectionAdmission.{ConnectionAdmission, acquire, release, release_counted, count}
use fruitspy.ServerBrowser.{ServerBrowser, count_metric}
use fruitspy.ServerBrowser.Connection.{Connection, gauge_connections, close_connection, count_error}
use fruitspy.ServerBrowser.Connection.Kept.{
  serve_frame-KeepsConnection, push_registered_servers-KeepsPushed,
}
use fruitspy.ServerBrowser.Connection.Run.{
  Service, Step, opened, refused, served, rejected, ended, pushed, shared_changed, Reaches, here,
  next, no_connections,
}
use fruitspy.ServerBrowser.Connection.Counted.{
  IsCounted, connections_from, open_connection-IsCounted, open_connection_refused,
  replace-IsCounted, close-IsCounted,
}

count_error-admission :
    (e : Option Error) (s : ServerBrowser) → (count_error e s).admission ≡ s.admission
unfolding count_error count_metric
count_error-admission e s = ground arith

admission-close :
    (e : Option Error) (c : Connection) (s : ServerBrowser)
    → (close_connection e c s).admission ≡ release c.source s.admission
unfolding close_connection count_error gauge_connections count_metric
admission-close e c s = ap (release c.source) (count_error-admission e s)

moved-IsCounted :
    {a b : ConnectionAdmission} {cs ds : List Connection}
    → IsCounted a cs
    → b ≡ a
    → cs ≡ ds
    → IsCounted b ds
moved-IsCounted {a} {b} {cs} {ds} counted same moved =
    subst (IsCounted b) moved (subst (λ x. IsCounted x cs) (sym same) counted)

closed-IsCounted :
    {a : ConnectionAdmission} (e : Option Error) (before after : List Connection) (c : Connection)
    (failed : ServerBrowser) (t : Service)
    → failed.admission ≡ a
    → IsCounted a (before ++ c ∷ after)
    → t.server ≡ close_connection e c failed
    → t.connections ≡ before ++ after
    → IsCounted t.server.admission t.connections
closed-IsCounted {a} e before after c failed t same counted closed is =
    moved-IsCounted (close-IsCounted a before after c counted)
      (ap (λ (r : ServerBrowser). r.admission) closed
        ∙ admission-close e c failed
        ∙ ap (release c.source) same)
      (sym is)

Step-IsCounted :
    {s t : Service}
    → Step s t
    → IsCounted s.server.admission s.connections
    → IsCounted t.server.admission t.connections
Step-IsCounted {s} {t} (opened source c made now_open) counted =
    subst (IsCounted t.server.admission) (sym now_open)
      (open_connection-IsCounted source s.server t.server c s.connections made counted)
Step-IsCounted {s} {t} (refused source made same) counted =
    moved-IsCounted counted (open_connection_refused source s.server t.server made) (sym same)
Step-IsCounted {s} {t}
      (served ops clock salt sc header received late before after c went was made is) counted =
    let kept = serve_frame-KeepsConnection ops clock salt sc header received late c s.server in
    subst (IsCounted t.server.admission) (sym is) (
      replace-IsCounted s.server.admission t.server.admission before after c went
        (sym (ap (λ r. r.1.admission) made) ∙ kept.keeps_admission)
        (kept.keeps_source went (ap (λ r. r.0) made))
        (subst (IsCounted s.server.admission) was counted))
Step-IsCounted {s} {t}
      (rejected ops clock salt sc header received late before after c e failed was made closed is)
      counted =
    let kept = serve_frame-KeepsConnection ops clock salt sc header received late c s.server in
    closed-IsCounted (some e) before after c failed t
      (sym (ap (λ r. r.1.admission) made) ∙ kept.keeps_admission)
      (subst (IsCounted s.server.admission) was counted) closed is
Step-IsCounted {s} {t} (ended before after c was closed is) counted =
    closed-IsCounted none before after c s.server t refl
      (subst (IsCounted s.server.admission) was counted) closed is
Step-IsCounted {s} {t} (pushed ops now before after c went was made is) counted =
    let kept = push_registered_servers-KeepsPushed ops now c s.server in
    subst (IsCounted t.server.admission) (sym is) (
      replace-IsCounted s.server.admission t.server.admission before after c went
        (sym (ap (λ r. r.1.admission) made) ∙ kept.keeps_admission)
        (sym (ap (λ r. r.0.source) made) ∙ kept.keeps_source)
        (subst (IsCounted s.server.admission) was counted))
Step-IsCounted {s} {t} (shared_changed state drain made same) counted =
    moved-IsCounted counted (ap (λ (r : ServerBrowser). r.admission) made) (sym same)

reached-keeps :
    {s t : Service}
    → Reaches s t
    → IsCounted s.server.admission s.connections
    → IsCounted t.server.admission t.connections
reached-keeps here counted = counted
reached-keeps (next run step) counted = Step-IsCounted step (reached-keeps run counted)

-- From a service without connections, whatever connections are opened, refused, served, pushed to,
-- rejected and closed, in any order, and whatever the other services do in between: the admission
-- counts exactly the connections that are open, in all and for each source.
pub reached-IsCounted :
    (s : ServerBrowser) (total per_source : ℕ) (t : Service)
    → Reaches (no_connections s total per_source) t
    → IsCounted t.server.admission t.connections
unfolding no_connections ConnectionAdmission.create count connections_from get
reached-IsCounted s total per_source t run =
    reached-keeps run (record { total_counted = refl; source_counted = λ source. refl })
