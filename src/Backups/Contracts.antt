-- ===== src/Backups/Contracts.antt =====
-- The operations of the backup service: what they leave behind, whether they return or fail.
use home_assistant.Base.{some, ◌≡◌, refl, ok, arith}
use home_assistant.Base.Ensures.{
  Settles, Ensures, Ensures-returns, Ensures-present, Ensures-wrapping, Ensures-ensure,
  Ensures-lift, Ensures-bind, Ensures-fact,
}
use home_assistant.Base.Simulation.{
  here, next, Shows, Keeps, Shows-Keeps, Ensures-Keeps, Quiet-answers, Step-Keeps,
}
use home_assistant.Base.Sources.{clock_or, clock_or-Quiet, generated_id-Ensures}
use home_assistant.Backups.Model.{TriggerRequest, BackupResult, backup_status_from_command_status}
use home_assistant.Backups.Service.{
  Service, command_request, new_run, requested_status, finished_run, finished_status,
  trigger_backup, record_command_result,
}
use home_assistant.Backups.Lifecycle.{Snapshot, put_run, put_status, Step, request, finish}
use home_assistant.Backups.Laws.{RepositoryLaws, ServiceLaws}
use home_assistant.Backups.Results.{IsTriggered, IsFinished}
use home_assistant.Backups.Outcomes.{
  command_request_lem, new_run_lem, requested_status_lem, finished_run_lem, finished_status_lem,
}

module _ {W : Type 0} (view : W → Snapshot) (s : Service W) (laws : ServiceLaws view s)
    (v : Snapshot) where
  abbrev pub K : W → Type 0
  K = Keeps view Step v

  bad : (w : W) → view w ≡ v → K w
  bad w e = Shows-Keeps view Step v v w here e

  clock_lem :
      Ensures
        (Shows view v)
        (λ t w. ((x : W) × ((clock_or s.clock s.wall_clock x).0 ≡ ok t)) × (view w ≡ v))
        (Shows view v)
        (clock_or s.clock s.wall_clock)
  clock_lem =
      Quiet-answers view v (clock_or s.clock s.wall_clock)
        (clock_or-Quiet view s.clock s.wall_clock laws.clock_lem laws.wall_clock_lem)

  pub trigger_backup-Ensures :
      (req : TriggerRequest)
      → Ensures
          (Shows view v)
          (λ x w.
            (t : IsTriggered s req v x.0 x.1) × (view w ≡ put_status t.report (put_run x.0 v)))
          K
          (trigger_backup s req)
  unfolding trigger_backup
  trigger_backup-Ensures req =
      Ensures-bind {Q = λ r w. RepositoryLaws view r × (view w ≡ v)}
        (Ensures-present _ _ (λ r w e p. (laws.repository_lem r e, p)) bad)
        λ r. Ensures-fact λ lawful.
          Ensures-bind {Q = λ f w. (s.command_creator ≡ some f) × (view w ≡ v)}
            (Ensures-present _ _ (λ f w e p. (e, p)) bad)
            λ f. Ensures-fact λ creator.
              Ensures-bind (Ensures-Keeps view Step v v here clock_lem) λ t. Ensures-fact λ read.
                Ensures-bind
                  (Ensures-Keeps view Step v v here
                    (generated_id-Ensures view v s.id_generator _ _ laws.id_generator_lem))
                  λ id. Ensures-fact λ named. Ensures-bind (Ensures-ensure _ _ bad) λ _.
                    Ensures-fact λ valid. Ensures-bind (Ensures-ensure _ _ bad) λ _.
                      Ensures-fact λ owned.
                        Ensures-bind
                          (Ensures-wrapping _ (
                            Ensures-Keeps view Step v v here (
                              Quiet-answers view v _
                                (laws.creator_lem f (command_request req) creator))))
                          λ c. Ensures-fact λ created.
                            let run = new_run id req t c in
                            Ensures-bind
                              (Ensures-wrapping _
                                (Ensures-Keeps view Step v v here (lawful.create_lem run v)))
                              λ _. Ensures-fact λ fresh.
                                Ensures-bind
                                  (Ensures-wrapping _ (
                                    Ensures-Keeps view Step v (put_run run v)
                                      (next here (request run fresh refl))
                                      (lawful.upsert_lem (requested_status run) (put_run run v))))
                                  λ _.
                                    Ensures-returns (run, c)
                                      λ w p. (
                                        record {
                                          is_new = new_run_lem id req t c;
                                          reading_world = read.0;
                                          is_time = read.1;
                                          fresh = fresh;
                                          identified = named;
                                          account = ground arith;
                                          site = ground arith;
                                          device = ground arith;
                                          valid = valid;
                                          report = requested_status run;
                                          opened = requested_status_lem run;
                                          create_command = f;
                                          is_creator = creator;
                                          asked = command_request req;
                                          is_request = command_request_lem id req t c;
                                          world = created.0;
                                          is_created = created.1;
                                        },
                                        p,
                                      )

  pub record_command_result-Ensures :
      (result : BackupResult)
      → Ensures
          (Shows view v)
          (λ x w. IsFinished s v result x.0 x.1 × (view w ≡ put_status x.1 (put_run x.0 v)))
          K
          (record_command_result s result)
  unfolding record_command_result
  record_command_result-Ensures result =
      Ensures-bind {Q = λ r w. RepositoryLaws view r × (view w ≡ v)}
        (Ensures-present _ _ (λ r w e p. (laws.repository_lem r e, p)) bad)
        λ r. Ensures-fact λ lawful.
          Ensures-bind (Ensures-wrapping _ (Ensures-Keeps view Step v v here (lawful.get_lem _ v)))
            λ x. Ensures-fact λ found.
              Ensures-bind
                (Ensures-lift
                  {Q = λ status w.
                    (backup_status_from_command_status result.status ≡ ok status) × (view w ≡ v)}
                  _ (λ status w e p. (e, p)) bad)
                λ status. Ensures-fact λ known.
                  Ensures-bind (Ensures-Keeps view Step v v here clock_lem) λ t.
                    Ensures-fact λ read.
                      let run = finished_run result status t x in
                      Ensures-bind
                        (Step-Keeps view Step v _ v (put_run run v) here
                          (finish x run found.0 (ground arith)) (lawful.save_lem run v))
                        λ _.
                          Ensures-bind
                            (Ensures-wrapping _ (
                              Ensures-Keeps view Step v (put_run run v)
                                (next here (finish x run found.0 (ground arith)))
                                (lawful.upsert_lem (finished_status t run) (put_run run v))))
                            λ _.
                              Ensures-returns (run, finished_status t run)
                                λ w p. (
                                  record {
                                    existing = x;
                                    found = found.0;
                                    command = found.1;
                                    time = t;
                                    reading_world = read.0;
                                    is_time = read.1;
                                    is_finished = finished_run_lem result status t x known;
                                    closed =
                                        finished_status_lem t run result.status
                                          (finished_run_lem result status t x known).status;
                                  },
                                  p,
                                )

module _ {W : Type 0} (view : W → Snapshot) (s : Service W) (laws : ServiceLaws view s) where
  -- TriggerBackup, under the laws of the service. What it returns is a run and a command. The run is
  -- new, requested at the time that the clock gave, under a fresh id that is not empty, with the id
  -- of the command, the trimmed account, site, device and user of the request, none of the first
  -- three empty, and its metadata, valid JSON; it has no artifact, no reason and no end. It was
  -- stored, and so was the status of its device, which is requested, with the run as its last one
  -- and the one in progress. The command is what the creator answered when it was asked for a backup
  -- of the run's account, site and device, with the key and the user of the request. An error has
  -- taken steps of the lifecycle only.
  pub trigger_backup_contract :
      (req : TriggerRequest) (w : W)
      → Settles
          (λ x u.
            (t : IsTriggered s req (view w) x.0 x.1) × (view u
              ≡ put_status t.report (put_run x.0 (view w))))
          (Keeps view Step (view w))
          (trigger_backup s req w).0
          (trigger_backup s req w).1
  trigger_backup_contract req w = (trigger_backup-Ensures view s laws (view w) req).at w refl

  -- RecordCommandResult, under the laws of the service. What it returns is the run that is stored
  -- under the command's id, with the outcome that belongs to the result's status, its trimmed reason
  -- and artifact and its end, or the time that the clock gave if it has none, and nothing else
  -- changed; and the status of its device, with this run as the last one and none in progress, the
  -- outcome, the reason and the artifact of the run, and the end as that of the last success or of
  -- the last failure. Both are stored. An error has taken steps of the lifecycle only.
  pub record_command_result_contract :
      (result : BackupResult) (w : W)
      → Settles
          (λ x u.
            IsFinished s (view w) result x.0 x.1 × (view u ≡ put_status x.1 (put_run x.0 (view w))))
          (Keeps view Step (view w))
          (record_command_result s result w).0
          (record_command_result s result w).1
  record_command_result_contract result w =
      (record_command_result-Ensures view s laws (view w) result).at w refl
