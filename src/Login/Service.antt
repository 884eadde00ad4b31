-- ===== src/Login/Service.antt =====
-- `authAttemptManager`, the handlers and the goroutines of pkg/services/auth_attempts.go. The ids of
-- attempts are numbers in the order of their creation, and an attempt that was deleted is still
-- there for the goroutines that hold it.
pub mod Vouched
pub mod Actions
pub mod Runs
pub mod Cleanup
use teldrive_easy.Prelude.{
  ℕ, suc, Bool, true, false, List, [], ◌∷◌, Option, none, some, ◌==◌, if◌then◌else◌,
}
use teldrive_easy.Text.{Text}
use teldrive_easy.Events.Maps.{lookup, put}
use teldrive_easy.Login.Channels.{has, remove}
use teldrive_easy.Login.Attempt.{
  Attempt, AuthType, Command, Enqueued, Event, EventType, Snapshot, close, closed, enqueue, expire,
  new_auth_attempt, phone, publish, qr, qr_login, queued, receive, send_code, snapshot, subscribe,
  unsubscribe, waits,
}
use teldrive_easy.Login.Command.{
  Action, Config, Failure, Replies, event, execute, log_out, publish as publish_action,
  schedule_cleanup,
}

-- The attempts that were made, the keys of the manager's map, the running goroutines, the timers of
-- `scheduleAttemptCleanup` and the attempts that were logged out.
pub record Service : Type 0 where
  pub next_id : ℕ
  pub objects : List (ℕ × Attempt)
  pub attempts : List ℕ
  pub running : List ℕ
  pub timers : List ℕ
  pub logged_out : List ℕ

-- `newAuthAttemptManager`.
unfoldable pub new_service : Service
new_service = record {
  next_id = 0;
  objects = [];
  attempts = [];
  running = [];
  timers = [];
  logged_out = [];
}

-- What is done to an attempt through its pointer; nothing points to one that was not made.
unfoldable pub stored : ℕ → Service → Option Attempt → Option Service
stored id s none = none
stored id s (some a) = some (record s { objects = put id a s.objects })

unfoldable pub on_attempt : (Attempt → Option Attempt) → ℕ → Service → Option Service
on_attempt f id s = elim (lookup id s.objects) [ none ↦ some s | some a ↦ stored id s (f a) ]

-- `get`.
unfoldable pub get : ℕ → Service → Option Attempt
get id s = if has id s.attempts then lookup id s.objects else none

-- `delete`.
unfoldable pub delete : ℕ → Service → Option Service
delete id s =
    if has id s.attempts
    then on_attempt close id (record s { attempts = remove id s.attempts })
    else some s

-- A panic ends everything.
unfoldable pub and_then : Option Service → (Service → Option Service) → Option Service
and_then none k = none
and_then (some s) k = k s

-- What a command does, in order.
unfoldable pub act : ℕ → Action → Service → Option Service
act id (publish_action e) s = on_attempt (publish e) id s
act id log_out s = some (record s { logged_out = id ∷ s.logged_out })
act id schedule_cleanup s = some (record s { timers = id ∷ s.timers })

unfoldable pub act_all : ℕ → List Action → Service → Option Service
act_all id [] s = some s
act_all id (x ∷ xs) s = and_then (act id x s) (λ t. act_all id xs t)

-- A turn of the loop of `runAuthAttempt`: the first command, if there is one.
unfoldable pub perform : Config → Replies → ℕ → Service → Attempt → List Command → Option Service
perform cfg r id s a [] = some s
perform cfg r id s a (cmd ∷ cmds) =
    act_all id (execute cfg cmd r)
      (record s { objects = put id (record a { commands = cmds }) s.objects })

unfoldable pub work : Config → Replies → ℕ → Service → Option Service
work cfg r id s = elim (has id s.running) [
  | false ↦ some s
  | true ↦ elim (lookup id s.objects) [ none ↦ some s | some a ↦ perform cfg r id s a a.commands ]
]

-- The end of `runAuthAttempt`, with the error that `Run` returns.
unfoldable pub run_failed : Option Failure → List Action
run_failed none = []
run_failed (some f) =
    if f.canceled then [] else publish_action (event EventType.error f.message) ∷ []

unfoldable pub finish : Option Failure → ℕ → Service → Option Service
finish err id s = elim (has id s.running) [
  | false ↦ some s
  | true ↦
      and_then (act_all id (run_failed err) (record s { running = remove id s.running }))
        (λ t. on_attempt close id (record t { timers = id ∷ t.timers }))
]

unfoldable pub drop_first : ℕ → List ℕ → List ℕ
drop_first k [] = []
drop_first k (j ∷ js) = let rest = drop_first k js in if j == k then js else j ∷ rest

-- A timer of `scheduleAttemptCleanup` that has run out.
unfoldable pub expired_in_map : ℕ → Service → Option Service
expired_in_map id s = if has id s.attempts then on_attempt (λ a. some (expire a)) id s else some s

unfoldable pub cleanup : ℕ → Service → Option Service
cleanup id s = elim (has id s.timers) [
  | false ↦ some s
  | true ↦
      and_then (expired_in_map id (record s { timers = drop_first id s.timers })) (λ t. delete id t)
]

-- What a handler answers: an error has its code, 0 where the code sets none.
pub data Response : Type 0 where
  shown : Snapshot → Response
  accepted : Response
  failed : (code : ℕ) → Response
  blocked : Response

-- `AuthCreateAttempt` up to the first command.
unfoldable pub start_attempt : AuthType → Option Failure → Service → Response × Service
start_attempt t (some f) s = (failed 0, s)
start_attempt t none s = (
  accepted,
  record s {
    next_id = suc s.next_id;
    objects = put s.next_id (new_auth_attempt s.next_id t) s.objects;
    attempts = s.next_id ∷ s.attempts;
    running = s.next_id ∷ s.running;
  },
)

unfoldable pub first_command : AuthType → Option Text → Option Command
first_command qr phone_no = some qr_login
first_command phone none = none
first_command phone (some []) = none
first_command phone (some (c ∷ cs)) = some (send_code (c ∷ cs))

unfoldable pub put_queued : ℕ → Service → Enqueued → Response × Service
put_queued id s closed = (failed 409, s)
put_queued id s waits = (blocked, s)
put_queued id s (queued b) = (accepted, record s { objects = put id b s.objects })

unfoldable pub submit_to : Bool → Command → ℕ → Service → Option Attempt → Response × Service
submit_to picks_queue cmd id s none = (failed 404, s)
submit_to picks_queue cmd id s (some a) = put_queued id s (enqueue picks_queue cmd a)

-- `AuthSendCode`, `AuthSignIn` and `AuthPassword`.
unfoldable pub submit : Bool → Command → ℕ → Service → Response × Service
submit picks_queue cmd id s = submit_to picks_queue cmd id s (get id s)

-- The rest of `AuthCreateAttempt`: an attempt that is closed by then is deleted.
unfoldable pub after_first : ℕ → Response × Service → Option Service
after_first id (failed code, s) = delete id s
after_first id (shown x, s) = some s
after_first id (accepted, s) = some s
after_first id (blocked, s) = some s

unfoldable pub send_first : Bool → AuthType → Option Text → ℕ → Service → Option Service
send_first picks_queue t phone_no id s = elim (first_command t phone_no) [
  | none ↦ some s
  | some cmd ↦ after_first id (submit_to picks_queue cmd id s (lookup id s.objects))
]

unfoldable pub shown_or : Option Attempt → Response
shown_or none = failed 404
shown_or (some a) = shown (snapshot a)

-- `AuthGetAttempt`.
unfoldable pub auth_get_attempt : ℕ → Service → Response
auth_get_attempt id s = shown_or (get id s)

-- `AuthDeleteAttempt`.
unfoldable pub auth_delete_attempt : ℕ → Service → Response × Option Service
auth_delete_attempt id s = elim (get id s) [
  | none ↦ (failed 404, some s)
  | some a ↦ (accepted, delete id s)
]

-- What can happen, one atomic step each. A handler may have its attempt before it is deleted, and
-- enqueue later.
pub data Step : Type 0 where
  starts : AuthType → Option Failure → Step
  sends_first : Bool → AuthType → Option Text → ℕ → Step
  submits submits_held : Bool → Command → ℕ → Step
  deletes cleans_up watches : ℕ → Step
  works : Replies → ℕ → Step
  finishes : Option Failure → ℕ → Step
  leaves takes : (ch id : ℕ) → Step

unfoldable pub step : Config → Step → Service → Option Service
step cfg (starts t client) s = some (start_attempt t client s).1
step cfg (sends_first picks t phone_no id) s = send_first picks t phone_no id s
step cfg (submits picks cmd id) s = some (submit picks cmd id s).1
step cfg (submits_held picks cmd id) s = some (submit_to picks cmd id s (lookup id s.objects)).1
step cfg (deletes id) s = (auth_delete_attempt id s).1
step cfg (cleans_up id) s = cleanup id s
step cfg (watches id) s = on_attempt (λ a. some (subscribe a).2) id s
step cfg (works r id) s = work cfg r id s
step cfg (finishes err id) s = finish err id s
step cfg (leaves ch id) s = on_attempt (unsubscribe ch) id s
step cfg (takes ch id) s = on_attempt (λ a. some (receive ch a)) id s

unfoldable pub run : Config → List Step → Service → Option Service
run cfg [] s = some s
run cfg (x ∷ xs) s = and_then (step cfg x s) (λ t. run cfg xs t)
