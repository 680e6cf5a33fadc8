-- ===== src/Notifications/Processed.antt =====
-- What becomes of the attempts that are claimed.
use home_assistant.Base.{
  ◌+◌, Bool, true, false, not, some, List, [], ◌∷◌, ◌≡◌, refl, Exec, ok, none, Error, arith,
  trim_space,
}
use home_assistant.Base.Ensures.{
  present-Returns, ensure-Returns, wrapping-Returns, Returns, Returns-bind, Returns-at, settle_any,
  answer-Returns,
}
use home_assistant.Base.Int.{ℤ, is_nonpositive}
use home_assistant.Base.Sources.{clock_or}
use home_assistant.Base.Time.{Time}
use home_assistant.Notifications.Model.{
  sent, failed, NotificationAttempt, EmailMessage, ProviderResult,
}
use home_assistant.Notifications.Service.{
  Repository, Service, tried, sent_attempt, render, process_attempt, process_attempts,
  process_pending,
}

module _ {W : Type 0} (s : Service W) (r : Repository W)
    (provider : EmailMessage → Exec W ProviderResult) (t : Time) where
  -- What processing an attempt does not change, and the try that it counts.
  pub record SameAttempt (a b : NotificationAttempt) : Type 0 where
    pub notification_attempt_id : b.notification_attempt_id ≡ a.notification_attempt_id
    pub idempotency_key : b.idempotency_key ≡ a.idempotency_key
    pub alert_id : b.alert_id ≡ a.alert_id
    pub alert_recipient_id : b.alert_recipient_id ≡ a.alert_recipient_id
    pub recipient_email : b.recipient_email ≡ a.recipient_email
    pub attempt_count : b.attempt_count ≡ a.attempt_count + 1
    pub updated_at : b.updated_at ≡ t

  -- An attempt that failed, with an error, or one whose message was rendered, taken by the provider and
  -- saved as sent, with the message and what the provider answered.
  pub data IsProcessed (a b : NotificationAttempt) : Type 0 where
    not_sent :
        (e : Error) → SameAttempt a b → b.status ≡ failed → b.last_error ≡ some e → IsProcessed a b
    is_sent :
        (tried_now : NotificationAttempt) (message : EmailMessage) (result : ProviderResult)
        (rendering sending saving : W)
        → SameAttempt a b
        → tried_now ≡ record a { attempt_count = a.attempt_count + 1 }
        → (render s tried_now rendering).0 ≡ ok message
        → (provider message sending).0 ≡ ok result
        → (r.save_attempt b saving).0 ≡ ok tt
        → b.status ≡ sent
        → b.last_error ≡ none
        → b.sent_at ≡ some t
        → b.provider ≡ trim_space result.provider
        → b.provider_message_id ≡ trim_space result.provider_message_id
        → b.subject ≡ message.subject
        → b.body_text ≡ message.text
        → b.body_html ≡ message.html
        → IsProcessed a b

  -- Each of one list is an attempt of the other, in the same place, processed.
  abbrev pub AllProcessed : List NotificationAttempt → List NotificationAttempt → Type 0
  AllProcessed [] [] = Unit
  AllProcessed [] (b ∷ bs) = ⊥
  AllProcessed (a ∷ as_) [] = ⊥
  AllProcessed (a ∷ as_) (b ∷ bs) = IsProcessed a b × AllProcessed as_ bs

  process_attempt_lem :
      (a : NotificationAttempt) (w : W) → IsProcessed a (process_attempt s r provider a t w).0
  unfolding process_attempt
  process_attempt_lem a w =
      settle_any (λ (o : NotificationAttempt × W). IsProcessed a o.0) (render s (tried a) w) _ _
        (λ e u _. not_sent e (ground arith) refl refl)
        λ message u rendered.
          settle_any (λ (o : NotificationAttempt × W). IsProcessed a o.0) (provider message u) _ _
            (λ e x _. not_sent e (ground arith) refl refl)
            λ result x taken.
              settle_any (λ (o : NotificationAttempt × W). IsProcessed a o.0)
                (r.save_attempt (sent_attempt (tried a) message result t) x) _ _
                (λ e y _. not_sent e (ground arith) refl refl)
                (λ _ y saved.
                  is_sent (tried a) message result w u x (ground arith) refl rendered taken saved
                    refl refl refl refl refl refl refl refl)

  process_attempts_lem :
      (attempts : List NotificationAttempt) (w : W)
      → AllProcessed attempts (process_attempts s r provider t attempts w).0
  unfolding process_attempts
  process_attempts_lem [] w = tt
  process_attempts_lem (a ∷ rest) w =
      (process_attempt_lem a w, process_attempts_lem rest (process_attempt s r provider a t w).1)

-- The attempts that the repository had claimed, each processed.
pub record IsBatch {W : Type 0} (s : Service W) (limit : ℤ) (processed : List NotificationAttempt)
    : Type 0 where
  pub positive : is_nonpositive limit ≡ false
  pub repository : Repository W
  pub provider : EmailMessage → Exec W ProviderResult
  pub is_repository : s.repository ≡ some repository
  pub is_provider : s.provider ≡ some provider
  pub time : Time
  pub reading_world : W
  pub world : W
  pub is_time : (clock_or s.clock s.wall_clock reading_world).0 ≡ ok time
  pub claimed : List NotificationAttempt
  pub is_claimed : (repository.claim_pending_attempts time limit world).0 ≡ ok claimed
  pub all_processed : AllProcessed s repository provider time claimed processed

positive_limit : (b : Bool) → not b ≡ true → b ≡ false
positive_limit false h = refl
positive_limit true h = absurd cc

module _ {W : Type 0} (s : Service W) (limit : ℤ) where
  process_pending-Returns : Returns (IsBatch s limit) (process_pending s limit)
  unfolding process_pending
  process_pending-Returns = Returns-bind (present-Returns s.repository _) λ r is_repository.
      Returns-bind (present-Returns s.provider _) λ provider is_provider.
        Returns-bind (ensure-Returns _ _) λ _ positive.
          Returns-bind (answer-Returns (clock_or s.clock s.wall_clock)) λ t clock.
            Returns-bind
              (wrapping-Returns "claim pending notification attempts"
                (r.claim_pending_attempts t limit))
              λ attempts claimed. record {
                at = λ w p. (
                  record {
                    positive = positive_limit _ positive;
                    repository = r;
                    provider = provider;
                    is_repository = is_repository;
                    is_provider = is_provider;
                    time = t;
                    reading_world = clock.0;
                    is_time = clock.1;
                    world = claimed.0;
                    claimed = attempts;
                    is_claimed = claimed.1;
                    all_processed = process_attempts_lem s r provider t attempts w;
                  },
                  tt,
                );
              }

  -- What ProcessPending returns is what the repository had claimed, in the same order, each attempt with
  -- its identity, its recipient and its key kept, one more try and the time that the clock gave. It is
  -- either failed, with an error, or sent: its message was rendered, the provider took it, and the
  -- attempt was saved as sent at that time, with the message, what the provider answered and no error.
  pub process_pending-IsBatch :
      (w : W) (processed : List NotificationAttempt)
      → (process_pending s limit w).0 ≡ ok processed
      → IsBatch s limit processed
  process_pending-IsBatch w processed h = Returns-at w process_pending-Returns h
