-- ===== src/Login/Service/Cleanup.antt =====
-- The end of an attempt: `scheduleAttemptCleanup` and `AuthDeleteAttempt`.
use teldrive_easy.Prelude.{ℕ, ◌≡◌, refl, ap, ◌∙◌, true, false, Option, some}
use teldrive_easy.Events.Maps.{lookup, put, lookup-put}
use teldrive_easy.Login.Channels.{has, remove, has-remove_self}
use teldrive_easy.Login.Attempt.{Attempt, AttemptState, close, expire, expire_from, with_channels}
use teldrive_easy.Login.Attempt.Safe.{IsSound, close-IsSound}
use teldrive_easy.Login.Service.{
  Service, auth_get_attempt, and_then, cleanup, delete, drop_first, expired_in_map, failed, get,
  on_attempt, shown_or, stored,
}

expire_from-IsSound : (st : AttemptState) (a : Attempt) → IsSound a → IsSound (expire_from st a)
unfolding expire_from
expire_from-IsSound AttemptState.authenticated a h = h
expire_from-IsSound AttemptState.created a h = h
expire_from-IsSound AttemptState.qr_pending a h = h
expire_from-IsSound AttemptState.code_sent a h = h
expire_from-IsSound AttemptState.password_required a h = h
expire_from-IsSound AttemptState.failed a h = h
expire_from-IsSound AttemptState.expired a h = h

-- Only an authenticated attempt does not expire.
unfoldable pub expired_state : AttemptState → AttemptState
expired_state AttemptState.authenticated = AttemptState.authenticated
expired_state _ = AttemptState.expired

expire_from-state :
    (st : AttemptState) (a : Attempt) → a.state ≡ st → (expire_from st a).state ≡ expired_state st
unfolding expire_from expired_state
expire_from-state AttemptState.authenticated a h = h
expire_from-state AttemptState.created a h = refl
expire_from-state AttemptState.qr_pending a h = refl
expire_from-state AttemptState.code_sent a h = refl
expire_from-state AttemptState.password_required a h = refl
expire_from-state AttemptState.failed a h = refl
expire_from-state AttemptState.expired a h = refl

on_attempt-some :
    (f : Attempt → Option Attempt) (id : ℕ) (s : Service) (a b : Attempt)
    → lookup id s.objects ≡ some a
    → f a ≡ some b
    → on_attempt f id s ≡ some (record s { objects = put id b s.objects })
unfolding on_attempt stored
on_attempt-some f id s a b l e = rw (l, on_attempt) (ap (stored id s) e)

delete_held :
    (id : ℕ) (s : Service)
    → has id s.attempts ≡ true
    → delete id s ≡ on_attempt close id (record s { attempts = remove id s.attempts })
unfolding delete
delete_held id s h = rw h refl

auth_get_attempt_gone :
    (id : ℕ) (s : Service) → has id s.attempts ≡ false → auth_get_attempt id s ≡ failed 404
unfolding auth_get_attempt get shown_or
auth_get_attempt_gone id s h = rw h refl

-- The end of an attempt with the given state: it is closed, and no handler finds it.
pub record Ended (id : ℕ) (st : AttemptState) (o : Option Service) : Type 0 where
  pub after : Service
  pub attempt : Attempt
  pub runs : o ≡ some after
  pub unknown : auth_get_attempt id after ≡ failed 404
  pub held : lookup id after.objects ≡ some attempt
  pub closed : attempt.done ≡ true
  pub state : attempt.state ≡ st

delete-Ended :
    (id : ℕ) (s : Service) (a : Attempt)
    → IsSound a
    → has id s.attempts ≡ true
    → lookup id s.objects ≡ some a
    → Ended id a.state (delete id s)
delete-Ended id s a sound h l =
    let (d, subs, cs, e, tidy, is_done) = close-IsSound a sound in
    let b : Attempt = with_channels (record a { done = d; subscribers = subs }) cs in
    let t : Service = record s { attempts = remove id s.attempts } in
    let u : Service = record t { objects = put id b s.objects } in
    record {
      after = u;
      attempt = b;
      runs = delete_held id s h ∙ on_attempt-some close id t a b l e;
      unknown = auth_get_attempt_gone id u (has-remove_self id s.attempts);
      held = lookup-put id b s.objects;
      closed = is_done;
      state = refl;
    }

cleanup_due :
    (id : ℕ) (s : Service)
    → has id s.timers ≡ true
    → cleanup id s
      ≡ and_then
          (expired_in_map id (record s { timers = drop_first id s.timers }))
          (λ t. delete id t)
unfolding cleanup
cleanup_due id s h = rw (h, cleanup) refl

expired_in_map_held :
    (id : ℕ) (s : Service) (a : Attempt)
    → has id s.attempts ≡ true
    → lookup id s.objects ≡ some a
    → expired_in_map id s ≡ some (record s { objects = put id (expire a) s.objects })
unfolding expired_in_map
expired_in_map_held id s a h l =
    rw h (on_attempt-some (λ x. some (expire x)) id s a (expire a) l refl)

-- A cleanup that is due ends its attempt: it does not panic, the attempt is closed and no longer
-- found (404), and it has expired unless it was authenticated.
pub cleanup-Ended :
    (id : ℕ) (s : Service) (a : Attempt)
    → IsSound a
    → has id s.timers ≡ true
    → has id s.attempts ≡ true
    → lookup id s.objects ≡ some a
    → Ended id (expired_state a.state) (cleanup id s)
unfolding and_then expire
cleanup-Ended id s a sound due h l =
    let t : Service = record s { timers = drop_first id s.timers } in
    let b : Attempt = expire a in
    let u : Service = record t { objects = put id b s.objects } in
    let end =
      delete-Ended id u b (expire_from-IsSound a.state a sound) h (lookup-put id b s.objects) in
    record {
      after = end.after;
      attempt = end.attempt;
      runs =
          cleanup_due id s due
          ∙ ap (λ (o : Option Service). and_then o (λ t. delete id t))
              (expired_in_map_held id t a h l)
          ∙ end.runs;
      unknown = end.unknown;
      held = end.held;
      closed = end.closed;
      state = end.state ∙ expire_from-state a.state a refl;
    }
