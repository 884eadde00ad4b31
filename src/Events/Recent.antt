-- ===== src/Events/Recent.antt =====
-- Deduplication: `shouldProcess` over time.

use mathlib.Core.Bool.{false≢true}
use teldrive_easy.Prelude.{
  ℕ, suc, ◌+◌, ◌-◌, ◌%◌, ◌≤◌, ◌<◌, ◌≡◌, ◌≢◌, refl, sym, ap, ◌∙◌, Bool, true, false, List, [], ◌∷◌,
  Option, none, some, ◌==◌, ltb, leb, ltb-true, leb-true, if◌then◌else◌, length, arith, ℕ_discrete,
  inl, inr, ◌⊎◌, subst, ==_false,
}
use teldrive_easy.Events.Maps.{lookup, put, lookup-put, lookup-put_ne, lookup-keep_if}
use teldrive_easy.Events.Broadcaster.{BaseBroadcaster, should_process, mark, cleanup_old_events}

-- The ids that a sequence of calls, each at a time, lets through.
unfoldable pub accepted : List (ℕ × ℕ) → BaseBroadcaster → List ℕ
accepted [] b = []
accepted ((now, event_id) ∷ calls) b =
    let rest = accepted calls (should_process now event_id b).1 in
    if (should_process now event_id b).0 then event_id ∷ rest else rest

unfoldable pub occurrences : ℕ → List ℕ → ℕ
occurrences i [] = 0
occurrences i (j ∷ js) = let rest = occurrences i js in if j == i then suc rest else rest

-- Calls from the time `t` on, for less than `ttl`.
abbrev pub Within : (t ttl : ℕ) → List (ℕ × ℕ) → Type 0
Within t ttl [] = 0 ≤ 0
Within t ttl ((now, _) ∷ calls) = (t ≤ now) × (now < t + ttl) × Within t ttl calls

-- An event was seen at the time `t`.
record Seen (t ttl event_id : ℕ) (b : BaseBroadcaster) : Type 0 where
  entry : lookup event_id b.recent_events ≡ some t
  lasts : b.config.deduplication_ttl ≡ ttl

cleanup-Seen :
    (t ttl event_id now : ℕ) (b : BaseBroadcaster)
    → now ≤ t + ttl
    → Seen t ttl event_id b
    → Seen t ttl event_id (cleanup_old_events now b)
unfolding cleanup_old_events
cleanup-Seen t ttl event_id now b h seen = record {
  entry =
      lookup-keep_if (λ ts. leb (now - ts) b.config.deduplication_ttl) event_id t b.recent_events
        (leb-true {a = now - t} {b = b.config.deduplication_ttl} (omega (arith, seen.lasts)))
        seen.entry;
  lasts = seen.lasts;
}

choose-Seen :
    (c : Bool) (t ttl event_id : ℕ) (x y : BaseBroadcaster)
    → Seen t ttl event_id x
    → Seen t ttl event_id y
    → Seen t ttl event_id (if c then x else y)
choose-Seen true t ttl event_id x y p q = p
choose-Seen false t ttl event_id x y p q = q

abbrev marked : ℕ → ℕ → BaseBroadcaster → BaseBroadcaster
marked now j b = record b { recent_events = put j now b.recent_events }

mark-Seen :
    (t ttl event_id now j : ℕ) (b : BaseBroadcaster)
    → now ≤ t + ttl
    → Seen t ttl event_id (marked now j b)
    → Seen t ttl event_id (mark now j b)
unfolding mark
mark-Seen t ttl event_id now j b h seen =
    choose-Seen (length (put j now b.recent_events) % 100 == 0) t ttl event_id
      (cleanup_old_events now (marked now j b)) (marked now j b)
      (cleanup-Seen t ttl event_id now (marked now j b) h seen) seen

should_process_cases :
    (now j : ℕ) (b : BaseBroadcaster)
    → (should_process now j b ≡ (true, mark now j b)) ⊎ (should_process now j b ≡ (false, b))
unfolding should_process
should_process_cases now j b = go (lookup j b.recent_events)
  where
    at_test :
        (c : Bool)
        → (if◌then◌else◌ {A = Bool × BaseBroadcaster} c (false, b) (true, mark now j b)
            ≡ (true, mark now j b))
          ⊎ (if◌then◌else◌ {A = Bool × BaseBroadcaster} c (false, b) (true, mark now j b)
              ≡ (false, b))
    at_test true = inr refl
    at_test false = inl refl

    decided : Option ℕ → Bool × BaseBroadcaster
    decided o = elim o [
      | none ↦ (true, mark now j b)
      | some ts ↦
          if ltb (now - ts) b.config.deduplication_ttl then (false, b) else (true, mark now j b)
    ]

    go : (o : Option ℕ) → (decided o ≡ (true, mark now j b)) ⊎ (decided o ≡ (false, b))
    go none = inl refl
    go (some ts) = at_test (ltb (now - ts) b.config.deduplication_ttl)

-- Another event leaves the entry alone.
should_process_other :
    (t ttl event_id now j : ℕ) (b : BaseBroadcaster)
    → now ≤ t + ttl
    → j ≢ event_id
    → Seen t ttl event_id b
    → Seen t ttl event_id (should_process now j b).1
should_process_other t ttl event_id now j b h n seen = elim (should_process_cases now j b) [
  | inl e ↦
      subst (λ (x : Bool × BaseBroadcaster). Seen t ttl event_id x.1) (sym e)
        (mark-Seen t ttl event_id now j b h (record {
          entry = lookup-put_ne j event_id now b.recent_events n ∙ seen.entry;
          lasts = seen.lasts;
        }))
  | inr e ↦ subst (λ (x : Bool × BaseBroadcaster). Seen t ttl event_id x.1) (sym e) seen
]

-- The event itself is refused, and nothing changes.
should_process_again :
    (t ttl event_id now : ℕ) (b : BaseBroadcaster)
    → t ≤ now
    → now < t + ttl
    → Seen t ttl event_id b
    → should_process now event_id b ≡ (false, b)
unfolding should_process
should_process_again t ttl event_id now b h h' seen =
    rw
      (
        seen.entry,
        should_process,
        ltb-true {a = now - t} {b = b.config.deduplication_ttl} (omega (arith, seen.lasts)),
      )
      refl

accepted-false :
    (now j : ℕ) (calls : List (ℕ × ℕ)) (b b' : BaseBroadcaster)
    → should_process now j b ≡ (false, b')
    → accepted ((now, j) ∷ calls) b ≡ accepted calls b'
unfolding accepted
accepted-false now j calls b b' e =
    ap (λ (x : Bool × BaseBroadcaster). if x.0 then j ∷ accepted calls x.1 else accepted calls x.1)
      e

occurrences_other :
    (i j : ℕ) (c : Bool) (js : List ℕ)
    → j ≢ i
    → occurrences i js ≡ 0
    → occurrences i (if c then j ∷ js else js) ≡ 0
unfolding occurrences
occurrences_other i j true js n h = rw (==_false j i n) h
occurrences_other i j false js n h = h

none_of : (i : ℕ) → occurrences i [] ≡ 0
unfolding occurrences
none_of i = refl

Seen-refuses :
    (t ttl event_id : ℕ) (calls : List (ℕ × ℕ)) (b : BaseBroadcaster)
    → Within t ttl calls
    → Seen t ttl event_id b
    → occurrences event_id (accepted calls b) ≡ 0
unfolding accepted
Seen-refuses t ttl event_id [] b w seen = none_of event_id
Seen-refuses t ttl event_id ((now, j) ∷ calls) b (h, h', w) seen = elim (ℕ_discrete j event_id) [
  | yes e ↦
      ap (occurrences event_id) (
        accepted-false now j calls b b (
          ap (λ i. should_process now i b) e ∙ should_process_again t ttl event_id now b h h' seen))
      ∙ Seen-refuses t ttl event_id calls b w seen
  | no n ↦
      occurrences_other event_id j (should_process now j b).0
        (accepted calls (should_process now j b).1) n
        (Seen-refuses t ttl event_id calls (should_process now j b).1 w
          (should_process_other t ttl event_id now j b (omega arith) n seen))
]

should_process-Seen :
    (t event_id : ℕ) (b : BaseBroadcaster)
    → (should_process t event_id b).0 ≡ true
    → Seen t b.config.deduplication_ttl event_id (should_process t event_id b).1
should_process-Seen t event_id b h = elim (should_process_cases t event_id b) [
  | inl e ↦
      subst (λ (x : Bool × BaseBroadcaster). Seen t b.config.deduplication_ttl event_id x.1) (sym e)
        (mark-Seen t b.config.deduplication_ttl event_id t event_id b (omega arith)
          (record { entry = lookup-put event_id t b.recent_events; lasts = refl }))
  | inr e ↦ absurd (false≢true (sym (ap (λ (x : Bool × BaseBroadcaster). x.0) e) ∙ h))
]

-- Deduplication: once an event was let through at a time `t`, no sequence of calls for any events
-- at times from `t` on, before the time to live is over, lets it through again, whatever was
-- cleaned up in between.
pub should_process-once :
    (t event_id : ℕ) (b : BaseBroadcaster) (calls : List (ℕ × ℕ))
    → (should_process t event_id b).0 ≡ true
    → Within t b.config.deduplication_ttl calls
    → occurrences event_id (accepted calls (should_process t event_id b).1) ≡ 0
should_process-once t event_id b calls h w =
    Seen-refuses t b.config.deduplication_ttl event_id calls (should_process t event_id b).1 w
      (should_process-Seen t event_id b h)
