-- ===== src/Commands/Refinement.antt =====
-- The operations of the command service take steps of the abstract lifecycle, and no other.
use mathlib.Core.List.{Memᴰ}
use home_assistant.Base.{
  reading, check, String, true, false, Option, none, some, List, [], ◌∷◌, ◌++◌, ◌≡◌, ◌⊎◌, ◌<◌, inl,
  inr, refl, not, arith, wrapping, Bool-cases, ltb→lt, ◌||◌, eqb, ◌>>◌, ◌∙◌, returns, is_empty,
  trim_space, Error,
}
use home_assistant.Base.Ensures.{
  Ensures, Ensures-returns, Ensures-fails, Ensures-lift, Ensures-present, Ensures-wrapping,
  Ensures-ensure, Ensures-if, Ensures-bind, Ensures-fact, Ensures-mono,
}
use home_assistant.Base.Time.{Time, after, before}
use home_assistant.Commands.Model.{
  Status, queued, sent, ack_accepted, running, timed_out, canceled, is_queued, is_sent,
  is_in_progress, is_terminal_result_status, is_terminal_command_status, Command, CommandResult,
  CreateRequest, AckRequest, ProgressRequest, ResultRequest,
}
use home_assistant.Commands.Updates.{
  time_or, acked, ack_expired, progress_event, reported_result, own_result, new_command,
}
use home_assistant.Commands.Service.{
  Repository, Service, new_command_id, create, mark_sent, record_ack, expire_missing_ack,
  record_progress, record_result, expire_result, cancel,
}
use home_assistant.Commands.Lifecycle.{
  Snapshot, IsFresh, HasResult, Transition, deliver, accept, reject, miss_ack, progress, finish,
  abort, admit, update, report, conclude, Steps, here, next,
}
use home_assistant.Commands.Laws.{
  RepositoryLaws, ServiceLaws, Keeps, Ensures-Keeps, now-Keeps, load-Keeps,
}

is_queued_lem : (s : Status) → is_queued s ≡ true → s ≡ queued
is_queued_lem s h = ground arith

is_sent_lem : (s : Status) → is_sent s ≡ true → s ≡ sent
is_sent_lem s h = ground arith

is_in_progress_lem : (s : Status) → is_in_progress s ≡ true → (s ≡ ack_accepted) ⊎ (s ≡ running)
is_in_progress_lem s h = ground arith

is_in_progress-pending :
    (s : Status) → is_in_progress s ≡ true → is_terminal_command_status s ≡ false
is_in_progress-pending s h = ground arith

mem_last {ℓ} : {A : Type ℓ} (x : A) (xs : List A) → Memᴰ x (xs ++ x ∷ [])
mem_last x [] = Memᴰ.head refl
mem_last x (y ∷ ys) = Memᴰ.tail (mem_last x ys)

acked-Transition :
    (req : AckRequest) (t : Time) (c : Command) → c.status ≡ sent → Transition c (acked req t c)
acked-Transition req t c h = elim (Bool-cases req.accepted) [
  | inl e ↦ accept t (time_or req.reported_at t) h (rw e)
  | inr e ↦ reject t (time_or req.reported_at t) h (rw e)
]

module _ {W : Type 0} (view : W → Snapshot) (s : Service W) (laws : ServiceLaws view s)
    (v : Snapshot) where
  abbrev pub K : W → Type 0
  K = Keeps view s laws v

  saved-Keeps :
      (message : String) (c c' : Command) (u : Snapshot) {r : Repository W}
      → RepositoryLaws view r
      → Steps v u
      → u.commands c.command_id ≡ some c
      → Transition c c'
      → (is_terminal_command_status c'.status ≡ true → HasResult u c')
      → Ensures (λ w. view w ≡ u) (λ _. K) K (wrapping message (r.save_command c'))
  saved-Keeps message c c' u lawful h found move closed =
      Ensures-mono
        (Ensures-wrapping message (Ensures-Keeps view s laws v u h (lawful.save_lem c' u)))
        (λ w p. p) (λ a w q. rw q (next h (update c c' found move closed))) (λ w p. p)

  bad : (w : W) → view w ≡ v → K w
  bad w e = rw e here

  check_lem : (e : Option Error) → Ensures (λ w. view w ≡ v) (λ _ w. view w ≡ v) K (check e)
  check_lem none = record { at = λ w p. p }
  check_lem (some e) = record { at = bad }

  pub mark_sent-Keeps : (id : String) → Ensures (λ w. view w ≡ v) (λ _. K) K (mark_sent s id)
  unfolding mark_sent
  mark_sent-Keeps id = Ensures-bind (load-Keeps view s laws v id) λ p. Ensures-fact λ loaded.
      Ensures-bind (Ensures-ensure _ _ bad) λ _. Ensures-fact λ queued.
        Ensures-bind (Ensures-lift _ (λ d w e q. q) bad) λ d.
          Ensures-bind (now-Keeps view s laws v) λ t.
            Ensures-bind
              (saved-Keeps _ p.0 _ v loaded.lawful here loaded.found
                (deliver t _ (is_queued_lem _ queued) refl) (λ e. cc))
              λ _. Ensures-returns _ λ w k. k

  give_up-Keeps :
      (message : String) (c : Command) (t : Time) {r : Repository W}
      → RepositoryLaws view r
      → v.commands c.command_id ≡ some c
      → is_sent c.status ≡ true
      → c.ack_deadline_at < t
      → Ensures (λ w. view w ≡ v) (λ _. K) K (wrapping message (r.save_command (ack_expired t c)))
  give_up-Keeps message c t lawful found h late =
      saved-Keeps message c _ v lawful here found (miss_ack t (is_sent_lem _ h) late refl) (λ e. cc)

  pub record_ack-Keeps :
      (req : AckRequest) → Ensures (λ w. view w ≡ v) (λ _. K) K (record_ack s req)
  unfolding record_ack
  record_ack-Keeps req = Ensures-bind (load-Keeps view s laws v req.command_id) λ p.
      Ensures-fact λ loaded. Ensures-bind (Ensures-ensure _ _ bad) λ _. Ensures-fact λ sent.
        Ensures-bind (now-Keeps view s laws v) λ t.
          Ensures-if (after t p.0.ack_deadline_at)
            (λ late.
              Ensures-bind (give_up-Keeps _ p.0 t loaded.lawful loaded.found sent (ltb→lt _ _ late))
                λ _. Ensures-fails _ λ w k. k)
            (λ _.
              Ensures-bind
                (saved-Keeps _ p.0 _ v loaded.lawful here loaded.found
                  (acked-Transition req t p.0 (is_sent_lem _ sent)) (λ e. ground arith))
                λ _. Ensures-returns _ λ w k. k)

  pub expire_missing_ack-Keeps :
      (id : String) → Ensures (λ w. view w ≡ v) (λ _. K) K (expire_missing_ack s id)
  unfolding expire_missing_ack
  expire_missing_ack-Keeps id = Ensures-bind (load-Keeps view s laws v id) λ p.
      Ensures-fact λ loaded.
        Ensures-if (not (is_sent p.0.status)) (λ _. Ensures-returns _ bad)
          λ sent. Ensures-bind (now-Keeps view s laws v) λ t.
            Ensures-if (before t p.0.ack_deadline_at || eqb t p.0.ack_deadline_at)
              (λ _. Ensures-returns _ bad)
              λ late.
                Ensures-bind
                  (give_up-Keeps _ p.0 t loaded.lawful loaded.found (ground arith) (ground arith))
                  λ _. Ensures-returns _ λ w k. k

  pub record_progress-Keeps :
      (req : ProgressRequest) → Ensures (λ w. view w ≡ v) (λ _. K) K (record_progress s req)
  unfolding record_progress
  record_progress-Keeps req = Ensures-bind (load-Keeps view s laws v req.command_id) λ p.
      Ensures-fact λ loaded. Ensures-bind (Ensures-ensure _ _ bad) λ _. Ensures-fact λ open_.
        Ensures-bind (now-Keeps view s laws v) λ t. Ensures-bind (Ensures-ensure _ _ bad) λ _.
          Ensures-fact λ _. Ensures-bind (Ensures-ensure _ _ bad) λ _. Ensures-fact λ _.
            let event = progress_event req t p.0 in
            let u : Snapshot = record v { events = v.events ++ event ∷ [] } in
            Ensures-bind
              (Ensures-wrapping _
                (Ensures-Keeps view s laws v v here (loaded.lawful.append_lem event v)))
              λ _.
                Ensures-bind
                  (saved-Keeps _ p.0 _ u loaded.lawful
                    (next here (report p.0 event loaded.found open_ refl)) loaded.found
                    (progress t (is_in_progress_lem _ open_) refl) (λ e. cc))
                  λ _. Ensures-returns _ λ w k. k

  -- A result is recorded before the command that it finishes is saved.
  concluded-Keeps :
      {A : Type 0} (a : A) (m n : String) (c c' : Command) (x : CommandResult) {r : Repository W}
      → RepositoryLaws view r
      → v.commands c.command_id ≡ some c
      → is_terminal_command_status c.status ≡ false
      → is_terminal_result_status x.status ≡ true
      → x.command_id ≡ c.command_id
      → Transition c c'
      → x.command_id ≡ c'.command_id
      → x.status ≡ c'.status
      → Ensures
          (λ w. view w ≡ v)
          (λ _. K)
          K
          (do wrapping m (r.record_result x); wrapping n (r.save_command c'); returns a)
  concluded-Keeps a m n c c' x lawful found pending terminal same move same' agree =
      Ensures-bind (Ensures-wrapping m (Ensures-Keeps view s laws v v here (lawful.record_lem x v)))
        λ _.
          Ensures-bind
            (saved-Keeps n c c' (record v { results = v.results ++ x ∷ [] }) lawful
              (next here (conclude c x found pending terminal same)) found move
              (λ _. record {
                result = x;
                recorded = mem_last x v.results;
                same_command = same';
                same_status = agree;
              }))
            λ _. Ensures-returns _ λ w k. k

  pub record_result-Keeps :
      (req : ResultRequest) → Ensures (λ w. view w ≡ v) (λ _. K) K (record_result s req)
  unfolding record_result
  record_result-Keeps req = Ensures-bind (load-Keeps view s laws v req.command_id) λ p.
      Ensures-fact λ loaded. Ensures-bind (Ensures-ensure _ _ bad) λ _. Ensures-fact λ pending.
        Ensures-bind (Ensures-ensure _ _ bad) λ _. Ensures-fact λ terminal.
          Ensures-bind (Ensures-ensure _ _ bad) λ _. Ensures-fact λ _.
            Ensures-bind (now-Keeps view s laws v) λ t. Ensures-bind (Ensures-ensure _ _ bad) λ _.
              Ensures-fact λ _.
                concluded-Keeps _ _ _ p.0 _ (reported_result req t p.0) loaded.lawful loaded.found
                  (is_in_progress-pending _ pending) terminal refl
                  (finish req.status t (is_in_progress_lem _ pending) terminal refl) refl refl

  pub expire_result-Keeps :
      (id : String) → Ensures (λ w. view w ≡ v) (λ _. K) K (expire_result s id)
  unfolding expire_result
  expire_result-Keeps id = Ensures-bind (load-Keeps view s laws v id) λ p. Ensures-fact λ loaded.
      Ensures-if (not (is_in_progress p.0.status)) (λ _. Ensures-returns _ bad)
        λ pending. Ensures-bind (now-Keeps view s laws v) λ t.
          Ensures-if (before t p.0.result_deadline_at || eqb t p.0.result_deadline_at)
            (λ _. Ensures-returns _ bad)
            λ _.
              concluded-Keeps _ _ _ p.0 _ (own_result timed_out "result_deadline_exceeded" t p.0)
                loaded.lawful loaded.found (is_in_progress-pending _ (ground arith)) refl refl
                (finish timed_out t (is_in_progress_lem _ (ground arith)) refl refl) refl refl

  pub cancel-Keeps : (id : String) → Ensures (λ w. view w ≡ v) (λ _. K) K (cancel s id)
  unfolding cancel
  cancel-Keeps id = Ensures-bind (load-Keeps view s laws v id) λ p. Ensures-fact λ loaded.
      Ensures-bind (Ensures-ensure _ _ bad) λ _. Ensures-fact λ pending.
        Ensures-bind (now-Keeps view s laws v) λ t.
          concluded-Keeps _ _ _ p.0 _ (own_result canceled "canceled" t p.0) loaded.lawful
            loaded.found (ground arith) refl refl (abort t (ground arith) refl) refl refl

  generate_lem :
      (g : W → String × W)
      → s.id_generator ≡ some g
      → Ensures (λ w. view w ≡ v) (λ _ w. view w ≡ v) K (reading g)
  generate_lem g e = record { at = λ w p. laws.id_generator_lem g w e ∙ p }

  new_command_id-Keeps :
      (id : String) → Ensures (λ w. view w ≡ v) (λ _ w. view w ≡ v) K (new_command_id s id)
  unfolding new_command_id
  new_command_id-Keeps id =
      Ensures-if (is_empty id)
        (λ _. Ensures-bind (Ensures-present s.id_generator _ (λ g w e p. (e, p)) bad) λ g.
          Ensures-fact λ e. Ensures-bind (generate_lem g e) λ id'.
            Ensures-if (is_empty (trim_space id')) (λ _. Ensures-fails _ bad)
              λ _. Ensures-returns _ λ w p. p)
        λ _. Ensures-returns _ λ w p. p

  created-Keeps :
      {r : Repository W} (c : Command)
      → RepositoryLaws view r
      → IsFresh c
      → Ensures (λ w. view w ≡ v) (λ _. K) K (wrapping "create command" (r.create_command c))
  created-Keeps c lawful fresh = Ensures-wrapping _ (
      Ensures-mono (lawful.create_lem c v) (λ w p. p)
        (λ a w q. rw (q.1) (next here (admit c q.0 fresh))) bad)

  pub create-Keeps : (req : CreateRequest) → Ensures (λ w. view w ≡ v) (λ _. K) K (create s req)
  unfolding create new_command
  create-Keeps req =
      Ensures-bind (Ensures-present s.repository _ (λ r w e p. (laws.repository_lem r e, p)) bad)
        λ r. Ensures-fact λ lawful. Ensures-bind (Ensures-lift _ (λ d w e q. q) bad) λ d.
          Ensures-bind (now-Keeps view s laws v) λ t. Ensures-bind (new_command_id-Keeps _) λ id.
            Ensures-bind (Ensures-ensure _ _ bad) λ _. Ensures-fact λ _.
              Ensures-bind (check_lem _) λ _.
                Ensures-bind (created-Keeps _ lawful (ground arith)) λ _. Ensures-returns _ λ w k. k
