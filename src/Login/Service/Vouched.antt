-- ===== src/Login/Service/Vouched.antt =====
-- Who gets in: no run of the login service panics, and what it shows as authenticated is allowed.

use mathlib.Core.Option.{none-ne-some, some-injective}
use teldrive_easy.Prelude.{
  ℕ, ◌≡◌, refl, sym, ap, ◌∙◌, Bool, true, false, [], ◌∷◌, ◌++◌, Option, none, some, ℕ_discrete, inl,
  inr, Bool-cases, Option-cases, subst, ltb, length,
}
use teldrive_easy.Events.Maps.{lookup, put, lookup-put, lookup-put_ne}
use teldrive_easy.Login.Channels.{has}
use teldrive_easy.Login
use teldrive_easy.Login.Attempt.{
  Attempt, AttemptState, AuthType, Command, Enqueued, Event, EventType, Session, with_channels,
  note, new_auth_attempt, kept_session, enqueue, expire_from, select,
}
use teldrive_easy.Login.Attempt.Safe.{
  IsSound, subscribe-IsSound, publish-IsSound, unsubscribe-IsSound, receive-IsSound, close-IsSound,
}
use teldrive_easy.Login.Session.{check_user_is_allowed}
use teldrive_easy.Login.Command.{Config}
use teldrive_easy.Login.Service.{Service, on_attempt, stored, and_then, put_queued, get, submit_to}

module _ (cfg : Config) where
  -- The session of an allowed user, if any.
  abbrev pub Vetted : Option Session → Type 0
  Vetted none = Unit
  Vetted (some w) = check_user_is_allowed cfg.allowed_users w.user_name ≡ true

  -- An attempt has the session of an allowed user only, and one when it is authenticated.
  pub record Vouched (a : Attempt) : Type 0 where
    pub vetted : Vetted a.session
    pub authentic : a.state ≡ AttemptState.authenticated → (w : Session) × (a.session ≡ some w)

  pub record Vouching (e : Event) : Type 0 where
    pub vetted : Vetted e.session
    pub authentic : e.kind ≡ EventType.success → (w : Session) × (e.session ≡ some w)

  Vetted-kept_session :
      (new old : Option Session) → Vetted new → Vetted old → Vetted (kept_session new old)
  unfolding kept_session
  Vetted-kept_session none old h k = k
  Vetted-kept_session (some w) old h k = h

  note-Vouched :
      (e : Event) (t : EventType) (a : Attempt)
      → e.kind ≡ t
      → Vouching e
      → Vouched a
      → Vouched (note e t a)
  unfolding note kept_session
  note-Vouched e EventType.token a k h v = record { vetted = v.vetted; authentic = λ s. cc }
  note-Vouched e EventType.phone_code a k h v = record { vetted = v.vetted; authentic = λ s. cc }
  note-Vouched e EventType.password_required a k h v = record {
    vetted = v.vetted;
    authentic = λ s. cc;
  }
  note-Vouched e EventType.error a k h v = record { vetted = v.vetted; authentic = λ s. cc }
  note-Vouched e EventType.success a k h v =
      let (w, p) = h.authentic k in
      record {
        vetted = Vetted-kept_session e.session a.session h.vetted v.vetted;
        authentic = λ s. (w, ap (λ (o : Option Session). kept_session o a.session) p);
      }

  abbrev pub Fine : Attempt → Type 0
  Fine a = IsSound a × Vouched a

  abbrev pub AllFine : Service → Type 0
  AllFine s = (id : ℕ) (a : Attempt) → lookup id s.objects ≡ some a → Fine a

  -- A step that does not panic, into a service with fine attempts.
  abbrev pub Safely : Option Service → Type 0
  Safely o = (t : Service) × (o ≡ some t) × AllFine t

  -- An operation that takes a fine attempt to a fine one.
  abbrev pub Preserves : (Attempt → Option Attempt) → Type 0
  Preserves f = (a : Attempt) → Fine a → (b : Attempt) × (f a ≡ some b) × Fine b

  pub put-AllFine :
      (id : ℕ) (a : Attempt) (s : Service)
      → Fine a
      → AllFine s
      → AllFine (record s { objects = put id a s.objects })
  put-AllFine id a s h all k b l = elim (ℕ_discrete id k) [
    | yes e ↦
        subst Fine
          (some-injective a b
            (sym (lookup-put id a s.objects) ∙ ap (λ (i : ℕ). lookup i (put id a s.objects)) e ∙ l))
          h
    | no n ↦ all k b (sym (lookup-put_ne id k a s.objects n) ∙ l)
  ]

  on_attempt_missing :
      (f : Attempt → Option Attempt) (id : ℕ) (s : Service)
      → lookup id s.objects ≡ none
      → on_attempt f id s ≡ some s
  unfolding on_attempt
  on_attempt_missing f id s l = rw (l, on_attempt) refl

  on_attempt_found :
      (f : Attempt → Option Attempt) (id : ℕ) (s : Service) (a : Attempt)
      → lookup id s.objects ≡ some a
      → on_attempt f id s ≡ stored id s (f a)
  unfolding on_attempt
  on_attempt_found f id s a l = rw (l, on_attempt) refl

  pub on_attempt-Safely :
      (f : Attempt → Option Attempt) (id : ℕ) (s : Service)
      → Preserves f
      → AllFine s
      → Safely (on_attempt f id s)
  unfolding stored
  on_attempt-Safely f id s p all = elim (Option-cases (lookup id s.objects)) [
    | inl l ↦ (s, on_attempt_missing f id s l, all)
    | inr (a, l) ↦
        let (b, e, h) = p a (all id a l) in
        (
          record s { objects = put id b s.objects },
          on_attempt_found f id s a l ∙ ap (stored id s) e,
          put-AllFine id b s h all,
        )
  ]

  pub and_then-Safely :
      (o : Option Service) (k : Service → Option Service)
      → Safely o
      → ((t : Service) → AllFine t → Safely (k t))
      → Safely (and_then o k)
  unfolding and_then
  and_then-Safely o k (t, e, all) next =
      let (u, r, h) = next t all in (u, ap (λ (x : Option Service). and_then x k) e ∙ r, h)

  -- The operations on an attempt.
  pub publish-Preserves : (e : Event) → Vouching e → Preserves (Login.Attempt.publish e)
  publish-Preserves e v a h =
      let (ds, p, tidy) = publish-IsSound e a h.0 in
      let n = note-Vouched e e.kind a refl v h.1 in
      (
        with_channels (record (note e e.kind a) { latest = some e }) ds,
        p,
        (tidy, record { vetted = n.vetted; authentic = n.authentic }),
      )

  pub close-Preserves : Preserves Login.Attempt.close
  close-Preserves a h =
      let (d, subs, cs, e, tidy, _) = close-IsSound a h.0 in
      (
        with_channels (record a { done = d; subscribers = subs }) cs,
        e,
        (tidy, record { vetted = h.1.vetted; authentic = h.1.authentic }),
      )

  pub unsubscribe-Preserves : (ch : ℕ) → Preserves (Login.Attempt.unsubscribe ch)
  unsubscribe-Preserves ch a h =
      let (subs, cs, e, tidy) = unsubscribe-IsSound ch a h.0 in
      (
        with_channels (record a { subscribers = subs }) cs,
        e,
        (tidy, record { vetted = h.1.vetted; authentic = h.1.authentic }),
      )

  pub receive-Preserves : (ch : ℕ) → Preserves (λ a. some (Login.Attempt.receive ch a))
  receive-Preserves ch a h =
      let (cs, e, tidy) = receive-IsSound ch a h.0 in
      (
        with_channels a cs,
        ap some e,
        (tidy, record { vetted = h.1.vetted; authentic = h.1.authentic }),
      )

  pub subscribe-Preserves : Preserves (λ a. some (Login.Attempt.subscribe a).2)
  unfolding Login.Attempt.subscribe
  subscribe-Preserves a h = (
    (Login.Attempt.subscribe a).2,
    refl,
    (subscribe-IsSound a h.0, record { vetted = h.1.vetted; authentic = h.1.authentic }),
  )

  gone :
      (a : Attempt)
      → Fine a
      → Fine (record a {
        state = AttemptState.expired;
        message = 101 ∷ 120 ∷ 112 ∷ 105 ∷ 114 ∷ 101 ∷ 100 ∷ [];
      })
  gone a h = (h.0, record { vetted = h.1.vetted; authentic = λ e. cc })

  expire_from-Fine : (st : AttemptState) (a : Attempt) → Fine a → Fine (expire_from st a)
  unfolding expire_from
  expire_from-Fine AttemptState.authenticated a h = h
  expire_from-Fine AttemptState.created a h = gone a h
  expire_from-Fine AttemptState.qr_pending a h = gone a h
  expire_from-Fine AttemptState.code_sent a h = gone a h
  expire_from-Fine AttemptState.password_required a h = gone a h
  expire_from-Fine AttemptState.failed a h = gone a h
  expire_from-Fine AttemptState.expired a h = gone a h

  pub expire-Preserves : Preserves (λ a. some (Login.Attempt.expire a))
  unfolding Login.Attempt.expire
  expire-Preserves a h = (expire_from a.state a, refl, expire_from-Fine a.state a h)

  put_queued-select :
      (is_done has_room picks : Bool) (b : Attempt) (id : ℕ) (s : Service)
      → Fine b
      → AllFine s
      → AllFine (put_queued id s (select is_done has_room picks b)).1
  unfolding put_queued select
  put_queued-select true true true b id s h all = put-AllFine id b s h all
  put_queued-select true true false b id s h all = all
  put_queued-select true false picks b id s h all = all
  put_queued-select false true picks b id s h all = put-AllFine id b s h all
  put_queued-select false false picks b id s h all = all

  enqueue-Fine :
      (picks : Bool) (cmd : Command) (a : Attempt) (id : ℕ) (s : Service)
      → Fine a
      → AllFine s
      → AllFine (put_queued id s (enqueue picks cmd a)).1
  unfolding enqueue
  enqueue-Fine picks cmd a id s h all =
      put_queued-select a.done (ltb (length a.commands) 8) picks
        (record a { commands = a.commands ++ cmd ∷ [] }) id s
        (h.0, record { vetted = h.1.vetted; authentic = h.1.authentic }) all

  pub submit_to-Fine :
      (picks : Bool) (cmd : Command) (id : ℕ) (s : Service) (o : Option Attempt)
      → ((a : Attempt) → o ≡ some a → Fine a)
      → AllFine s
      → AllFine (submit_to picks cmd id s o).1
  unfolding submit_to
  submit_to-Fine picks cmd id s none h all = all
  submit_to-Fine picks cmd id s (some a) h all = enqueue-Fine picks cmd a id s (h a refl) all

  pub get-Fine : (id : ℕ) (s : Service) (a : Attempt) → AllFine s → get id s ≡ some a → Fine a
  unfolding get
  get-Fine id s a all e = elim (Bool-cases (has id s.attempts)) [
    | inl h ↦ all id a (rw h at e)
    | inr h ↦ absurd (none-ne-some a (rw h at e))
  ]
