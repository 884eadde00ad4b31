-- ===== src/Login/Service/Runs.antt =====
-- Runs of the login service.

use mathlib.Core.Option.{none-ne-some, some-injective}
use teldrive_easy.Prelude.{
  ℕ, ◌≡◌, refl, sym, ap, ◌∙◌, Bool, true, List, [], ◌∷◌, Option, none, some, inl, inr, Bool-cases,
  Option-cases, subst,
}
use teldrive_easy.Text.{Text}
use teldrive_easy.Events.Maps.{lookup, put}
use teldrive_easy.Login.Channels.{has, remove}
use teldrive_easy.Login
use teldrive_easy.Login.Attempt.{
  Attempt, AttemptState, AuthType, Command, EventType, Session, Snapshot, close, expire,
  new_auth_attempt, snapshot,
}
use teldrive_easy.Login.Attempt.Safe.{new_auth_attempt-IsSound}
use teldrive_easy.Login.Session.{check_user_is_allowed}
use teldrive_easy.Login.Command.{Config, Failure, Replies, execute}
use teldrive_easy.Login.Service.{
  Response, Service, Step, accepted, act_all, after_first, auth_delete_attempt, auth_get_attempt,
  blocked, cleanup, delete, drop_first, expired_in_map, failed, finish, first_command, get,
  new_service, on_attempt, perform, run, run_failed, send_first, shown, shown_or, start_attempt,
  step, submit, submit_to, work,
}
use teldrive_easy.Login.Service.Vouched.{
  AllFine, Fine, Safely, Vetted, and_then-Safely, close-Preserves, expire-Preserves, get-Fine,
  on_attempt-Safely, put-AllFine, receive-Preserves, submit_to-Fine, subscribe-Preserves,
  unsubscribe-Preserves,
}
use teldrive_easy.Login.Service.Actions.{act_all-Safely, error-AllGood, execute-AllGood, AllGood}

shown_or-shown :
    (o : Option Attempt) (x : Snapshot)
    → shown_or o ≡ shown x
    → (a : Attempt) × (o ≡ some a) × (snapshot a ≡ x)
unfolding shown_or
shown_or-shown none x e = cc
shown_or-shown (some a) x e = (a, refl, cc)

module _ (cfg : Config) where
  delete-Safely : (id : ℕ) (s : Service) → AllFine cfg s → Safely cfg (delete id s)
  unfolding delete
  delete-Safely id s all = elim (Bool-cases (has id s.attempts)) [
    | inl h ↦ rw h (
        on_attempt-Safely cfg close id (record s { attempts = remove id s.attempts })
          (close-Preserves cfg) all)
    | inr h ↦ rw h (s, refl, all)
  ]

  perform-Safely :
      (r : Replies) (id : ℕ) (s : Service) (a : Attempt) (cmds : List Command)
      → Fine cfg a
      → AllFine cfg s
      → Safely cfg (perform cfg r id s a cmds)
  unfolding perform
  perform-Safely r id s a [] h all = (s, refl, all)
  perform-Safely r id s a (cmd ∷ cmds) h all =
      let b : Attempt = record a { commands = cmds } in
      act_all-Safely cfg id (execute cfg cmd r) (record s { objects = put id b s.objects })
        (execute-AllGood cfg cmd r)
        (put-AllFine cfg id b s (h.0, record { vetted = h.1.vetted; authentic = h.1.authentic })
          all)

  work-Safely : (r : Replies) (id : ℕ) (s : Service) → AllFine cfg s → Safely cfg (work cfg r id s)
  unfolding work
  work-Safely r id s all = elim (Bool-cases (has id s.running)) [
    | inl h ↦ elim (Option-cases (lookup id s.objects)) [
      | inl l ↦ rw (h, work, l) (s, refl, all)
      | inr (a, l) ↦ rw (h, work, l) (perform-Safely r id s a a.commands (all id a l) all)
    ]
    | inr h ↦ rw (h, work) (s, refl, all)
  ]

  run_failed-AllGood : (err : Option Failure) → AllGood cfg (run_failed err)
  unfolding run_failed
  run_failed-AllGood none = tt
  run_failed-AllGood (some f) = elim (Bool-cases f.canceled) [
    | inl e ↦ rw e tt
    | inr e ↦ rw e (error-AllGood cfg f.message)
  ]

  finish-Safely :
      (err : Option Failure) (id : ℕ) (s : Service) → AllFine cfg s → Safely cfg (finish err id s)
  unfolding finish
  finish-Safely err id s all = elim (Bool-cases (has id s.running)) [
    | inl h ↦
        rw (h, finish)
          (and_then-Safely cfg
            (act_all id (run_failed err) (record s { running = remove id s.running }))
            (λ t. on_attempt close id (record t { timers = id ∷ t.timers }))
            (act_all-Safely cfg id (run_failed err) (record s { running = remove id s.running })
              (run_failed-AllGood err) all)
            (λ t h'.
              on_attempt-Safely cfg close id (record t { timers = id ∷ t.timers })
                (close-Preserves cfg) h'))
    | inr h ↦ rw (h, finish) (s, refl, all)
  ]

  expired_in_map-Safely : (id : ℕ) (s : Service) → AllFine cfg s → Safely cfg (expired_in_map id s)
  unfolding expired_in_map
  expired_in_map-Safely id s all = elim (Bool-cases (has id s.attempts)) [
    | inl h ↦ rw h (on_attempt-Safely cfg (λ a. some (expire a)) id s (expire-Preserves cfg) all)
    | inr h ↦ rw h (s, refl, all)
  ]

  cleanup-Safely : (id : ℕ) (s : Service) → AllFine cfg s → Safely cfg (cleanup id s)
  unfolding cleanup
  cleanup-Safely id s all = elim (Bool-cases (has id s.timers)) [
    | inl h ↦
        rw (h, cleanup)
          (and_then-Safely cfg (expired_in_map id (record s { timers = drop_first id s.timers }))
            (λ t. delete id t)
            (expired_in_map-Safely id (record s { timers = drop_first id s.timers }) all)
            (λ t h'. delete-Safely id t h'))
    | inr h ↦ rw (h, cleanup) (s, refl, all)
  ]

  start_attempt-AllFine :
      (t : AuthType) (client : Option Failure) (s : Service)
      → AllFine cfg s
      → AllFine cfg (start_attempt t client s).1
  unfolding start_attempt new_auth_attempt
  start_attempt-AllFine t (some f) s all = all
  start_attempt-AllFine t none s all =
      put-AllFine cfg s.next_id (new_auth_attempt s.next_id t) s (new_auth_attempt-Fine t s.next_id)
        all
    where
      new_auth_attempt-Fine : (t : AuthType) (id : ℕ) → Fine cfg (new_auth_attempt id t)
      new_auth_attempt-Fine t id =
          (new_auth_attempt-IsSound id t, record { vetted = tt; authentic = λ e. cc })

  after_first-Safely :
      (id : ℕ) (r : Response) (s : Service) → AllFine cfg s → Safely cfg (after_first id (r, s))
  unfolding after_first
  after_first-Safely id (failed code) s all = delete-Safely id s all
  after_first-Safely id (shown x) s all = (s, refl, all)
  after_first-Safely id accepted s all = (s, refl, all)
  after_first-Safely id blocked s all = (s, refl, all)

  send_first-Safely :
      (picks : Bool) (t : AuthType) (phone_no : Option Text) (id : ℕ) (s : Service)
      → AllFine cfg s
      → Safely cfg (send_first picks t phone_no id s)
  unfolding send_first
  send_first-Safely picks t phone_no id s all = elim (Option-cases (first_command t phone_no)) [
    | inl e ↦ rw (e, send_first) (s, refl, all)
    | inr (cmd, e) ↦
        let r = submit_to picks cmd id s (lookup id s.objects) in
        rw (e, send_first)
          (after_first-Safely id r.0 r.1
            (submit_to-Fine cfg picks cmd id s (lookup id s.objects) (λ a l. all id a l) all))
  ]

  auth_delete_attempt-Safely :
      (id : ℕ) (s : Service) → AllFine cfg s → Safely cfg (auth_delete_attempt id s).1
  unfolding auth_delete_attempt
  auth_delete_attempt-Safely id s all = elim (Option-cases (get id s)) [
    | inl e ↦ rw (e, auth_delete_attempt) (s, refl, all)
    | inr (a, e) ↦ rw (e, auth_delete_attempt) (delete-Safely id s all)
  ]

  step-Safely : (x : Step) (s : Service) → AllFine cfg s → Safely cfg (step cfg x s)
  unfolding step submit
  step-Safely (Step.starts t client) s all =
      ((start_attempt t client s).1, refl, start_attempt-AllFine t client s all)
  step-Safely (Step.sends_first picks t phone_no id) s all =
      send_first-Safely picks t phone_no id s all
  step-Safely (Step.submits picks cmd id) s all = (
    (submit_to picks cmd id s (get id s)).1,
    refl,
    submit_to-Fine cfg picks cmd id s (get id s) (λ a e. get-Fine cfg id s a all e) all,
  )
  step-Safely (Step.submits_held picks cmd id) s all = (
    (submit_to picks cmd id s (lookup id s.objects)).1,
    refl,
    submit_to-Fine cfg picks cmd id s (lookup id s.objects) (λ a l. all id a l) all,
  )
  step-Safely (Step.deletes id) s all = auth_delete_attempt-Safely id s all
  step-Safely (Step.cleans_up id) s all = cleanup-Safely id s all
  step-Safely (Step.watches id) s all =
      on_attempt-Safely cfg (λ a. some (Login.Attempt.subscribe a).2) id s (subscribe-Preserves cfg)
        all
  step-Safely (Step.works r id) s all = work-Safely r id s all
  step-Safely (Step.finishes err id) s all = finish-Safely err id s all
  step-Safely (Step.leaves ch id) s all =
      on_attempt-Safely cfg (Login.Attempt.unsubscribe ch) id s (unsubscribe-Preserves cfg ch) all
  step-Safely (Step.takes ch id) s all =
      on_attempt-Safely cfg (λ a. some (Login.Attempt.receive ch a)) id s (receive-Preserves cfg ch)
        all

  run-Safely : (xs : List Step) (s : Service) → AllFine cfg s → Safely cfg (run cfg xs s)
  unfolding run
  run-Safely [] s all = (s, refl, all)
  run-Safely (x ∷ xs) s all =
      and_then-Safely cfg (step cfg x s) (λ t. run cfg xs t) (step-Safely x s all)
        (λ t h. run-Safely xs t h)

  run-AllFine : (xs : List Step) → Safely cfg (run cfg xs new_service)
  unfolding new_service lookup
  run-AllFine xs = run-Safely xs new_service (λ id a l. absurd (none-ne-some a l))

  -- Any run of the login service from its start, whatever the clients, Telegram and the timers do
  -- and in whatever order, goes through without a panic.
  pub run_total : (xs : List Step) → (s : Service) × (run cfg xs new_service ≡ some s)
  run_total xs = let (s, r, all) = run-AllFine xs in (s, r)

  -- Where a run of the service from its start has come to a state in which an attempt is shown as
  -- authenticated, it is shown with a session, and the configuration allows the session's user.
  pub auth_get_attempt-run :
      (xs : List Step) (s : Service) (id : ℕ) (x : Snapshot)
      → run cfg xs new_service ≡ some s
      → auth_get_attempt id s ≡ shown x
      → x.state ≡ AttemptState.authenticated
      → (w : Session) × (x.session ≡ some w)
        × (check_user_is_allowed cfg.allowed_users w.user_name ≡ true)
  unfolding auth_get_attempt snapshot
  auth_get_attempt-run xs s id x run_s e st =
      let (s', r, all') = run-AllFine xs in
      let all : AllFine cfg s = subst (AllFine cfg) (some-injective s' s (sym r ∙ run_s)) all' in
      let (a, g, same) = shown_or-shown (get id s) x e in
      let fine = get-Fine cfg id s a all g in
      let (w, p) = fine.1.authentic (ap (λ (y : Snapshot). y.state) same ∙ st) in
      (w, sym (ap (λ (y : Snapshot). y.session) same) ∙ p, subst (Vetted cfg) p fine.1.vetted)
