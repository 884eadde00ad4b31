-- ===== src/Login/Attempt/Safe.antt =====
-- The channels of a login attempt: no operation panics on them.
use mathlib.Core.Bool.{false≢true}
use mathlib.Core.Option.{none-ne-some, some-injective, map as option_map}
use teldrive_easy.Prelude.{
  ℕ, suc, ◌≤◌, ◌≡◌, ◌≢◌, refl, sym, ap, ◌∙◌, Bool, true, false, List, [], ◌∷◌, Option, none, some,
  ℕ_discrete, inl, inr, Bool-cases, arith, Option-cases,
}
use teldrive_easy.Events.Maps.{lookup, put, lookup-put, lookup-put_ne}
use teldrive_easy.Login.Channels.{
  Channel, IsOpen, Distinct, has, remove, has_there, each, each_open, on_channel, on_channel_open,
  offer, fits, offer_open, fits_open, close_channel, close_channel_open, shut, has-remove_ne,
  has-remove_self, remove-Distinct,
}
use teldrive_easy.Login.Attempt.{
  Attempt, AuthType, Event, EventType, with_channels, new_auth_attempt, subscribe, unsubscribe,
  publish, hand_out, note, close, receive, token, phone_code, password_required, success, error,
}

-- The subscribers are distinct, their channels are open, and the next number is new.
pub record Tidy (subs : List ℕ) (made : ℕ) (cs : List (ℕ × Channel Event)) : Type 0 where
  pub distinct : Distinct subs
  pub open_all : (k : ℕ) → has k subs ≡ true → IsOpen cs k
  pub fresh : (k : ℕ) → made ≤ k → lookup k cs ≡ none

abbrev pub IsSound : Attempt → Type 0
IsSound a = Tidy a.subscribers a.made a.channels

pub new_auth_attempt-IsSound : (id : ℕ) (t : AuthType) → IsSound (new_auth_attempt id t)
unfolding new_auth_attempt has lookup
new_auth_attempt-IsSound id t = record {
  distinct = tt;
  open_all = λ k h. absurd (false≢true h);
  fresh = λ k h. refl;
}

module _ {subs : List ℕ} {made : ℕ} {cs : List (ℕ × Channel Event)} (tidy : Tidy subs made cs) where
  is_below : (k : ℕ) → has k subs ≡ true → made ≢ k
  is_below k h e =
      let (c, l, o) = tidy.open_all k h in
      none-ne-some c (sym (tidy.fresh k (omega (arith, e))) ∙ l)

  pub Tidy-grown :
      Tidy (made ∷ subs) (suc made) (put made (record { queue = []; closed = false }) cs)
  Tidy-grown = record {
    distinct = (
      elim (Bool-cases (has made subs)) [ inl e ↦ absurd (is_below made e refl) | inr e ↦ e ],
      tidy.distinct,
    );
    open_all = λ k h. elim (ℕ_discrete made k) [
      | yes e ↦ (
        record { queue = []; closed = false },
        ap (λ (i : ℕ). lookup i (put made (record { queue = []; closed = false }) cs)) (sym e)
            ∙ lookup-put made (record { queue = []; closed = false }) cs,
        refl,
      )
      | no n ↦
          let (c, l, o) = tidy.open_all k (sym (has_there made k subs n) ∙ h) in
          (c, lookup-put_ne made k (record { queue = []; closed = false }) cs n ∙ l, o)
    ];
    fresh = λ k h.
        lookup-put_ne made k (record { queue = []; closed = false }) cs (λ e. omega (arith, e))
        ∙ tidy.fresh k (omega arith);
  }

  -- A channel that changes and stays as open as it was.
  pub Tidy-put :
      (ch : ℕ) (c d : Channel Event)
      → lookup ch cs ≡ some c
      → d.closed ≡ c.closed
      → Tidy subs made (put ch d cs)
  Tidy-put ch c d l same = record {
    distinct = tidy.distinct;
    open_all = λ k h.
        let (c', l', o) = tidy.open_all k h in
        elim (ℕ_discrete ch k) [
          | yes e ↦ (
            d,
            ap (λ (i : ℕ). lookup i (put ch d cs)) (sym e) ∙ lookup-put ch d cs,
            same
                ∙ ap (λ (x : Channel Event). x.closed)
                    (some-injective c c' (sym l ∙ ap (λ (i : ℕ). lookup i cs) e ∙ l'))
                ∙ o,
          )
          | no n ↦ (c', lookup-put_ne ch k d cs n ∙ l', o)
        ];
    fresh = λ k h.
        lookup-put_ne ch k d cs
          (λ e. none-ne-some c (sym (tidy.fresh k h) ∙ ap (λ (i : ℕ). lookup i cs) (sym e) ∙ l))
        ∙ tidy.fresh k h;
  }

  -- A subscriber that goes, with its channel.
  pub Tidy-removed :
      (ch : ℕ) (c : Channel Event)
      → lookup ch cs ≡ some c
      → Tidy (remove ch subs) made (put ch (shut c) cs)
  unfolding shut
  Tidy-removed ch c l = record {
    distinct = remove-Distinct ch subs tidy.distinct;
    open_all = λ k h. elim (ℕ_discrete ch k) [
      | yes e ↦ absurd (
          false≢true (sym (has-remove_self ch subs) ∙ ap (λ (i : ℕ). has i (remove ch subs)) e ∙ h))
      | no n ↦
          let (c', l', o) = tidy.open_all k (sym (has-remove_ne ch k subs (λ e. n (sym e))) ∙ h) in
          (c', lookup-put_ne ch k (shut c) cs n ∙ l', o)
    ];
    fresh = λ k h.
        lookup-put_ne ch k (shut c) cs
          (λ e. none-ne-some c (sym (tidy.fresh k h) ∙ ap (λ (i : ℕ). lookup i cs) (sym e) ∙ l))
        ∙ tidy.fresh k h;
  }

  lookup-each :
      (f : Channel Event → Option (Channel Event)) (g : Channel Event → Channel Event)
      → ((c : Channel Event) → c.closed ≡ false → f c ≡ some (g c))
      → (ds : List (ℕ × Channel Event)) × (each f subs cs ≡ some ds)
        × ((k : ℕ) → made ≤ k → lookup k ds ≡ none)
        × ((k : ℕ)
            → has k subs ≡ true
            → (c : Channel Event) × (c.closed ≡ false) × (lookup k ds ≡ some (g c)))
  lookup-each f g fg =
      let (ds, run, others, these) = each_open f g fg subs cs tidy.distinct tidy.open_all in
      (
        ds,
        run,
        λ k h. elim (Bool-cases (has k subs)) [
          | inl e ↦
              let (c, l, o) = tidy.open_all k e in
              absurd (none-ne-some c (sym (tidy.fresh k h) ∙ l))
          | inr e ↦ others k e ∙ tidy.fresh k h
        ],
        λ k h. let (c, l, o) = tidy.open_all k h in (c, o, these k c h l),
      )

  pub each-offer-Tidy :
      (e : Event)
      → (ds : List (ℕ × Channel Event)) × (each (offer e) subs cs ≡ some ds) × Tidy subs made ds
  each-offer-Tidy e =
      let (ds, run, fresh, these) = lookup-each (offer e) (fits e) (offer_open e) in
      (
        ds,
        run,
        record {
          distinct = tidy.distinct;
          open_all = λ k h. let (c, o, l) = these k h in (fits e c, l, fits_open e c o);
          fresh = fresh;
        },
      )

  pub each-close_channel-Tidy :
      (ds : List (ℕ × Channel Event)) × (each close_channel subs cs ≡ some ds) × Tidy [] made ds
  unfolding has
  each-close_channel-Tidy =
      let (ds, run, fresh, these) = lookup-each close_channel shut close_channel_open in
      (ds, run, record { distinct = tt; open_all = λ k h. absurd (false≢true h); fresh = fresh })

-- What each operation does to a sound attempt.
pub subscribe-IsSound : (a : Attempt) → IsSound a → IsSound (subscribe a).2
unfolding subscribe
subscribe-IsSound a h = Tidy-grown h

pub note-IsSound : (e : Event) (t : EventType) (a : Attempt) → IsSound a → IsSound (note e t a)
unfolding note
note-IsSound e token a h = h
note-IsSound e phone_code a h = h
note-IsSound e password_required a h = h
note-IsSound e success a h = h
note-IsSound e error a h = h

pub hand_out-IsSound :
    (e : Event) (a : Attempt)
    → IsSound a
    → (ds : List (ℕ × Channel Event)) × (hand_out e a
        ≡ some (with_channels (record a { latest = some e }) ds))
      × IsSound (with_channels a ds)
unfolding hand_out
hand_out-IsSound e a h =
    let (ds, run, tidy) = each-offer-Tidy h e in
    (ds, ap (option_map (with_channels (record a { latest = some e }))) run, tidy)

-- `publish` never panics, and hands the event out.
pub publish-IsSound :
    (e : Event) (a : Attempt)
    → IsSound a
    → (ds : List (ℕ × Channel Event)) × (publish e a
        ≡ some (with_channels (record (note e e.kind a) { latest = some e }) ds))
      × IsSound (with_channels (note e e.kind a) ds)
unfolding publish hand_out
publish-IsSound e a h =
    let b : Attempt = note e e.kind a in
    let (ds, run, tidy) = each-offer-Tidy (note-IsSound e e.kind a h) e in
    (ds, ap (option_map (with_channels (record b { latest = some e }))) run, tidy)

close_done : (a : Attempt) → a.done ≡ true → close a ≡ some a
unfolding close
close_done a d = rw d refl

close_open :
    (a : Attempt)
    → a.done ≡ false
    → close a
      ≡ option_map
          (with_channels (record a { done = true; subscribers = [] }))
          (each close_channel a.subscribers a.channels)
unfolding close
close_open a d = rw d refl

-- `close` never panics, the second time neither.
pub close-IsSound :
    (a : Attempt)
    → IsSound a
    → (d : Bool) × (subs : List ℕ) × (cs : List (ℕ × Channel Event)) × (close a
        ≡ some (with_channels (record a { done = d; subscribers = subs }) cs))
      × Tidy subs a.made cs
      × (d ≡ true)
close-IsSound a h = elim (Bool-cases a.done) [
  | inl d ↦ (a.done, a.subscribers, a.channels, close_done a d, h, d)
  | inr d ↦
      let (ds, run, tidy) = each-close_channel-Tidy h in
      let b : Attempt = record a { done = true; subscribers = [] } in
      (true, [], ds, close_open a d ∙ ap (option_map (with_channels b)) run, tidy, refl)
]

unsubscribe_gone : (ch : ℕ) (a : Attempt) → has ch a.subscribers ≡ false → unsubscribe ch a ≡ some a
unfolding unsubscribe
unsubscribe_gone ch a h = rw h refl

unsubscribe_there :
    (ch : ℕ) (a : Attempt)
    → has ch a.subscribers ≡ true
    → unsubscribe ch a
      ≡ option_map
          (with_channels (record a { subscribers = remove ch a.subscribers }))
          (on_channel close_channel ch a.channels)
unfolding unsubscribe
unsubscribe_there ch a h = rw h refl

pub unsubscribe-IsSound :
    (ch : ℕ) (a : Attempt)
    → IsSound a
    → (subs : List ℕ) × (cs : List (ℕ × Channel Event)) × (unsubscribe ch a
        ≡ some (with_channels (record a { subscribers = subs }) cs))
      × Tidy subs a.made cs
unsubscribe-IsSound ch a h = elim (Bool-cases (has ch a.subscribers)) [
  | inl e ↦
      let (c, l, o) = h.open_all ch e in
      let b : Attempt = record a { subscribers = remove ch a.subscribers } in
      (
        remove ch a.subscribers,
        put ch (shut c) a.channels,
        unsubscribe_there ch a e
            ∙ ap (option_map (with_channels b))
                (on_channel_open close_channel shut close_channel_open ch a.channels c l o),
        Tidy-removed h ch c l,
      )
  | inr e ↦ (a.subscribers, a.channels, unsubscribe_gone ch a e, h)
]

receive_missing : (ch : ℕ) (a : Attempt) → lookup ch a.channels ≡ none → receive ch a ≡ a
unfolding receive
receive_missing ch a l = rw (l, receive) refl

taken : ℕ → Attempt → Channel Event → List Event → Attempt
taken ch a c [] = a
taken ch a c (e ∷ es) = with_channels a (put ch (record c { queue = es }) a.channels)

receive_found :
    (ch : ℕ) (a : Attempt) (c : Channel Event)
    → lookup ch a.channels ≡ some c
    → receive ch a ≡ taken ch a c c.queue
unfolding receive taken
receive_found ch a c l = rw (l, receive) (by_queue c.queue)
  where
    by_queue :
        (q : List Event)
        → elim q [ [] ↦ a | e ∷ es ↦ with_channels a (put ch (record c { queue = es }) a.channels) ]
          ≡ taken ch a c q
    by_queue [] = refl
    by_queue (e ∷ es) = refl

taken-IsSound :
    (ch : ℕ) (a : Attempt) (c : Channel Event) (q : List Event)
    → lookup ch a.channels ≡ some c
    → IsSound a
    → (cs : List (ℕ × Channel Event)) × (taken ch a c q ≡ with_channels a cs)
      × Tidy a.subscribers a.made cs
unfolding taken
taken-IsSound ch a c [] l h = (a.channels, refl, h)
taken-IsSound ch a c (e ∷ es) l h =
    let d : Channel Event = record c { queue = es } in
    (put ch d a.channels, refl, Tidy-put h ch c d l refl)

pub receive-IsSound :
    (ch : ℕ) (a : Attempt)
    → IsSound a
    → (cs : List (ℕ × Channel Event)) × (receive ch a ≡ with_channels a cs)
      × Tidy a.subscribers a.made cs
receive-IsSound ch a h = elim (Option-cases (lookup ch a.channels)) [
  | inl l ↦ (a.channels, receive_missing ch a l, h)
  | inr (c, l) ↦
      let (cs, e, tidy) = taken-IsSound ch a c c.queue l h in (cs, receive_found ch a c l ∙ e, tidy)
]
