-- ===== src/Login/Attempt/View.antt =====
-- What a login attempt promises: it shows the history of the events that were published, and of its
-- expiry.

use teldrive_easy.Prelude.{
  ℕ, ◌≡◌, refl, ap, ap₂, ◌∙◌, Bool, List, [], ◌∷◌, Option, none, some, subst,
}
use teldrive_easy.Login.Channels.{Channel}
use teldrive_easy.Login.Attempt.{
  Attempt, AttemptState, AuthType, Event, EventType, Session, with_channels, new_auth_attempt,
  subscribe, note, expire, expire_from, expired, snapshot, set_if_any, kept_session, token,
  phone_code, password_required, success, error, created, qr_pending, code_sent, authenticated,
  failed,
}
use teldrive_easy.Login.Attempt.Safe.{
  IsSound, new_auth_attempt-IsSound, subscribe-IsSound, hand_out-IsSound, note-IsSound,
  unsubscribe-IsSound, receive-IsSound, close-IsSound,
}
use teldrive_easy.Login.Attempt.Log.{
  call, run, logged, handed, state_after, lapsed_state, state_of, lapsed_message, message_of,
  token_for, token_of, hash_for, hash_of, session_for, session_of, described, Call, Entry, noted,
  expiry, watch, leave, take_next, notes, hands_out, expires, stop,
}

-- The fields of an attempt are what its log says.
pub record Shows (id : ℕ) (auth_type : AuthType) (log : List Entry) (last : Option Event)
    (a : Attempt) : Type 0 where
  pub same_id : a.id ≡ id
  pub same_type : a.auth_type ≡ auth_type
  pub state : a.state ≡ state_of log
  pub token : a.token ≡ token_of log
  pub hash : a.phone_code_hash ≡ hash_of log
  pub session : a.session ≡ session_of log
  pub message : a.message ≡ message_of log
  pub latest : a.latest ≡ last

note-token :
    (e : Event) (t : EventType) (a : Attempt) → (note e t a).token ≡ token_for t e.token a.token
unfolding note token_for
note-token e token a = refl
note-token e phone_code a = refl
note-token e password_required a = refl
note-token e success a = refl
note-token e error a = refl

note-hash :
    (e : Event) (t : EventType) (a : Attempt)
    → (note e t a).phone_code_hash ≡ hash_for t e.phone_code_hash a.phone_code_hash
unfolding note hash_for
note-hash e token a = refl
note-hash e phone_code a = refl
note-hash e password_required a = refl
note-hash e success a = refl
note-hash e error a = refl

kept_session-session_for :
    (new old : Option Session) → kept_session new old ≡ session_for success new old
unfolding kept_session session_for
kept_session-session_for none old = refl
kept_session-session_for (some s) old = refl

note-session :
    (e : Event) (t : EventType) (a : Attempt)
    → (note e t a).session ≡ session_for t e.session a.session
unfolding note session_for
note-session e token a = refl
note-session e phone_code a = refl
note-session e password_required a = refl
note-session e success a = kept_session-session_for e.session a.session
note-session e error a = refl

note-latest : (e : Event) (t : EventType) (a : Attempt) → (note e t a).latest ≡ a.latest
unfolding note
note-latest e token a = refl
note-latest e phone_code a = refl
note-latest e password_required a = refl
note-latest e success a = refl
note-latest e error a = refl

note-rest :
    (e : Event) (t : EventType) (a : Attempt)
    → ((note e t a).state ≡ state_after t)
      × ((note e t a).message ≡ e.message)
      × ((note e t a).id ≡ a.id)
      × ((note e t a).auth_type ≡ a.auth_type)
unfolding note state_after
note-rest e token a = (refl, refl, refl, refl)
note-rest e phone_code a = (refl, refl, refl, refl)
note-rest e password_required a = (refl, refl, refl, refl)
note-rest e success a = (refl, refl, refl, refl)
note-rest e error a = (refl, refl, refl, refl)

Shows-noted :
    {id : ℕ} {t : AuthType} {log : List Entry} {last : Option Event} (e : Event) (a : Attempt)
    → Shows id t log last a
    → Shows id t (noted e ∷ log) last (note e e.kind a)
unfolding state_of message_of token_of hash_of session_of
Shows-noted e a h =
    let (st, ms, i, ty) = note-rest e e.kind a in
    record {
      same_id = i ∙ h.same_id;
      same_type = ty ∙ h.same_type;
      state = st;
      token = note-token e e.kind a ∙ ap (token_for e.kind e.token) h.token;
      hash = note-hash e e.kind a ∙ ap (hash_for e.kind e.phone_code_hash) h.hash;
      session = note-session e e.kind a ∙ ap (session_for e.kind e.session) h.session;
      message = ms;
      latest = note-latest e e.kind a ∙ h.latest;
    }

Shows-handed :
    {id : ℕ} {t : AuthType} {log : List Entry} {last : Option Event} (e : Event) (a : Attempt)
    (cs : List (ℕ × Channel Event))
    → Shows id t log last a
    → Shows id t log (some e) (with_channels (record a { latest = some e }) cs)
Shows-handed e a cs h = record {
  same_id = h.same_id;
  same_type = h.same_type;
  state = h.state;
  token = h.token;
  hash = h.hash;
  session = h.session;
  message = h.message;
  latest = refl;
}

-- What an expiry changes.
abbrev Lapsed : AttemptState → Attempt → Attempt → Type 0
Lapsed s a b =
    (b.state ≡ lapsed_state s)
    × (b.message ≡ lapsed_message s a.message)
    × IsSound b
    × ((b.id ≡ a.id)
        × (b.auth_type ≡ a.auth_type)
        × (b.token ≡ a.token)
        × (b.phone_code_hash ≡ a.phone_code_hash)
        × (b.session ≡ a.session)
        × (b.latest ≡ a.latest))

expire_from-Lapsed :
    (s : AttemptState) (a : Attempt) → a.state ≡ s → IsSound a → Lapsed s a (expire_from s a)
unfolding expire_from lapsed_state lapsed_message
expire_from-Lapsed authenticated a e h = (e, refl, h, (refl, refl, refl, refl, refl, refl))
expire_from-Lapsed created a e h = (refl, refl, h, (refl, refl, refl, refl, refl, refl))
expire_from-Lapsed qr_pending a e h = (refl, refl, h, (refl, refl, refl, refl, refl, refl))
expire_from-Lapsed code_sent a e h = (refl, refl, h, (refl, refl, refl, refl, refl, refl))
expire_from-Lapsed password_required a e h = (refl, refl, h, (refl, refl, refl, refl, refl, refl))
expire_from-Lapsed failed a e h = (refl, refl, h, (refl, refl, refl, refl, refl, refl))
expire_from-Lapsed expired a e h = (refl, refl, h, (refl, refl, refl, refl, refl, refl))

expire-Shows :
    {id : ℕ} {t : AuthType} {log : List Entry} {last : Option Event} (a : Attempt)
    → IsSound a
    → Shows id t log last a
    → IsSound (expire a) × Shows id t (expiry ∷ log) last (expire a)
unfolding expire state_of message_of token_of hash_of session_of
expire-Shows {log = log} a s h =
    let (st, ms, sound, (i, ty, tk, hs, se, la)) = expire_from-Lapsed a.state a refl s in
    (
      sound,
      record {
        same_id = i ∙ h.same_id;
        same_type = ty ∙ h.same_type;
        state = st ∙ ap lapsed_state h.state;
        token = tk ∙ h.token;
        hash = hs ∙ h.hash;
        session = se ∙ h.session;
        message = ms ∙ ap₂ lapsed_message h.state h.message;
        latest = la ∙ h.latest;
      },
    )

run_step :
    (c : Call) (cs : List Call) (a b : Attempt) → call c a ≡ some b → run (c ∷ cs) a ≡ run cs b
unfolding run
run_step c cs a b e = rw (e, run) refl

-- What happens to the channels alone does not show.
Shows-moved :
    {id : ℕ} {t : AuthType} {log : List Entry} {last : Option Event} {a : Attempt} (d : Bool)
    (subs : List ℕ) (made : ℕ) (cs : List (ℕ × Channel Event))
    → Shows id t log last a
    → Shows id t log last (record a { done = d; subscribers = subs; made = made; channels = cs })
Shows-moved d subs made cs h = record {
  same_id = h.same_id;
  same_type = h.same_type;
  state = h.state;
  token = h.token;
  hash = h.hash;
  session = h.session;
  message = h.message;
  latest = h.latest;
}

-- A call on a sound attempt that shows its log does not panic, and leaves such an attempt.
call-Shows :
    {id : ℕ} {t : AuthType} (c : Call) (log : List Entry) (last : Option Event) (a : Attempt)
    → IsSound a
    → Shows id t log last a
    → (b : Attempt) × (call c a ≡ some b)
      × IsSound b
      × Shows id t (logged (c ∷ []) log) (handed (c ∷ []) last) b
unfolding call logged handed subscribe
call-Shows watch log last a s h =
    ((subscribe a).2, refl, subscribe-IsSound a s, Shows-moved _ _ _ _ h)
call-Shows (leave ch) log last a s h =
    let (subs, ds, e, tidy) = unsubscribe-IsSound ch a s in
    (with_channels (record a { subscribers = subs }) ds, e, tidy, Shows-moved _ _ _ _ h)
call-Shows (take_next ch) log last a s h =
    let (cs, e, tidy) = receive-IsSound ch a s in
    (with_channels a cs, ap some e, tidy, Shows-moved _ _ _ _ h)
call-Shows (notes e) log last a s h =
    (note e e.kind a, refl, note-IsSound e e.kind a s, Shows-noted e a h)
call-Shows (hands_out e) log last a s h =
    let (ds, p, tidy) = hand_out-IsSound e a s in
    (with_channels (record a { latest = some e }) ds, p, tidy, Shows-handed e a ds h)
call-Shows expires log last a s h =
    let (sound, shown) = expire-Shows a s h in (expire a, refl, sound, shown)
call-Shows stop log last a s h =
    let (d, subs, cs, e, tidy, _) = close-IsSound a s in
    (with_channels (record a { done = d; subscribers = subs }) cs, e, tidy, Shows-moved _ _ _ _ h)

logged-cons :
    (c : Call) (cs : List Call) (log : List Entry)
    → logged cs (logged (c ∷ []) log) ≡ logged (c ∷ cs) log
unfolding logged
logged-cons watch cs log = refl
logged-cons (leave ch) cs log = refl
logged-cons (take_next ch) cs log = refl
logged-cons (notes e) cs log = refl
logged-cons (hands_out e) cs log = refl
logged-cons expires cs log = refl
logged-cons stop cs log = refl

handed-cons :
    (c : Call) (cs : List Call) (last : Option Event)
    → handed cs (handed (c ∷ []) last) ≡ handed (c ∷ cs) last
unfolding handed
handed-cons watch cs last = refl
handed-cons (leave ch) cs last = refl
handed-cons (take_next ch) cs last = refl
handed-cons (notes e) cs last = refl
handed-cons (hands_out e) cs last = refl
handed-cons expires cs last = refl
handed-cons stop cs last = refl

run-Shows :
    {id : ℕ} {t : AuthType} (cs : List Call) (log : List Entry) (last : Option Event) (a : Attempt)
    → IsSound a
    → Shows id t log last a
    → (b : Attempt) × (run cs a ≡ some b) × Shows id t (logged cs log) (handed cs last) b
unfolding run logged handed
run-Shows [] log last a s h = (a, refl, h)
run-Shows {id} {t} (c ∷ cs) log last a s h =
    let (b, e, sb, hb) = call-Shows c log last a s h in
    let (d, r, hd) = run-Shows cs (logged (c ∷ []) log) (handed (c ∷ []) last) b sb hb in
    (
      d,
      run_step c cs a b e ∙ r,
      subst (λ (l : Option Event). Shows id t (logged (c ∷ cs) log) l d) (handed-cons c cs last)
          (subst (λ (l : List Entry). Shows id t l (handed cs (handed (c ∷ []) last)) d)
            (logged-cons c cs log) hd),
    )

new_auth_attempt-Shows : (id : ℕ) (t : AuthType) → Shows id t [] none (new_auth_attempt id t)
unfolding new_auth_attempt state_of message_of token_of hash_of session_of
new_auth_attempt-Shows id t = record {
  same_id = refl;
  same_type = refl;
  state = refl;
  token = refl;
  hash = refl;
  session = refl;
  message = refl;
  latest = refl;
}

snapshot-described :
    {id : ℕ} {t : AuthType} {log : List Entry} {last : Option Event} {a : Attempt}
    → Shows id t log last a
    → snapshot a ≡ described id t log
unfolding snapshot described
snapshot-described {id} {t} {log} {a} h i = record {
  id = h.same_id i;
  auth_type = h.same_type i;
  state = h.state i;
  token = set_if_any (h.token i);
  phone_code_hash = set_if_any (h.hash i);
  session = h.session i;
  message = set_if_any (h.message i);
}

-- Whatever calls are made on a new attempt, in any order, the two parts of each `publish` taken on
-- their own and expiries among them, none of them panics; the snapshot is then the one that the
-- events noted and the expiries describe, and a new watcher starts with the last event that was
-- handed out.
pub run-new_auth_attempt :
    (id : ℕ) (t : AuthType) (cs : List Call)
    → (a : Attempt) × (run cs (new_auth_attempt id t) ≡ some a)
      × (snapshot a ≡ described id t (logged cs []))
      × ((subscribe a).1 ≡ handed cs none)
unfolding subscribe
run-new_auth_attempt id t cs =
    let (a, r, h) =
      run-Shows cs [] none (new_auth_attempt id t) (new_auth_attempt-IsSound id t)
        (new_auth_attempt-Shows id t) in
    (a, r, snapshot-described h, h.latest)
