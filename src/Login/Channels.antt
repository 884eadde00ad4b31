-- ===== src/Login/Channels.antt =====
-- Go's channels, as the subscribers of pkg/services/auth_attempts.go use them. An operation that
-- panics in Go gives `none`.
use mathlib.Core.Bool.{false≢true}
use mathlib.Core.Option.{some-injective}
use teldrive_easy.Prelude.{
  ℕ, ◌≡◌, ◌≢◌, refl, sym, ap, ◌∙◌, Bool, true, false, List, [], ◌∷◌, ◌++◌, Option, none, some, ltb,
  if◌then◌else◌, length, ℕ_discrete, inl, inr, Bool-cases,
}
use teldrive_easy.Events.Maps.{lookup, put, lookup-put, lookup-put_ne}
unfoldable pub use teldrive_easy.Prelude.Members.{has, remove}
pub use teldrive_easy.Prelude.Members.{
  Distinct, has-remove_ne, has-remove_self, has_apart, has_here, has_tail, has_there,
  remove-Distinct,
}

-- What a channel buffers, and whether it is closed.
pub record Channel {ℓ} (A : Type ℓ) : Type ℓ where
  pub queue : List A
  pub closed : Bool

-- The capacity that `subscribe` gives its channels.
abbrev pub capacity : ℕ
capacity = 8

module _ {ℓ} {A : Type ℓ} where
  -- A send that does not wait: what does not fit is dropped.
  unfoldable pub fits : A → Channel A → Channel A
  fits a c = if ltb (length c.queue) capacity then record c { queue = c.queue ++ a ∷ [] } else c

  unfoldable pub offer : A → Channel A → Option (Channel A)
  offer a c = if c.closed then none else some (fits a c)

  -- `close(ch)`.
  unfoldable pub shut : Channel A → Channel A
  shut c = record c { closed = true }

  unfoldable pub close_channel : Channel A → Option (Channel A)
  close_channel c = if c.closed then none else some (shut c)

  unfoldable pub stored :
      ℕ → List (ℕ × Channel A) → Option (Channel A) → Option (List (ℕ × Channel A))
  stored ch cs none = none
  stored ch cs (some c) = some (put ch c cs)

  unfoldable pub on_channel :
      (Channel A → Option (Channel A)) → ℕ → List (ℕ × Channel A) → Option (List (ℕ × Channel A))
  on_channel f ch cs = elim (lookup ch cs) [ none ↦ none | some c ↦ stored ch cs (f c) ]

  -- `for ch := range`.
  unfoldable pub each :
      (Channel A → Option (Channel A))
      → List ℕ
      → List (ℕ × Channel A)
      → Option (List (ℕ × Channel A))
  each f [] cs = some cs
  each f (ch ∷ chs) cs = elim (on_channel f ch cs) [ none ↦ none | some ds ↦ each f chs ds ]

  -- A channel that is there and open.
  abbrev pub IsOpen : List (ℕ × Channel A) → ℕ → Type ℓ
  IsOpen cs ch = (c : Channel A) × (lookup ch cs ≡ some c) × (c.closed ≡ false)

  pub offer_open : (a : A) (c : Channel A) → c.closed ≡ false → offer a c ≡ some (fits a c)
  unfolding offer
  offer_open a c h = rw h refl

  pub fits_open : (a : A) (c : Channel A) → c.closed ≡ false → (fits a c).closed ≡ false
  unfolding fits
  fits_open a c h = elim (Bool-cases (ltb (length c.queue) capacity)) [
    | inl e ↦ rw e h
    | inr e ↦ rw e h
  ]

  pub close_channel_open : (c : Channel A) → c.closed ≡ false → close_channel c ≡ some (shut c)
  unfolding close_channel
  close_channel_open c h = rw h refl

  pub on_channel_open :
      (f : Channel A → Option (Channel A)) (g : Channel A → Channel A)
      → ((c : Channel A) → c.closed ≡ false → f c ≡ some (g c))
      → (ch : ℕ) (cs : List (ℕ × Channel A)) (c : Channel A) → lookup ch cs ≡ some c
      → c.closed ≡ false
      → on_channel f ch cs ≡ some (put ch (g c) cs)
  unfolding on_channel stored
  on_channel_open f g fg ch cs c l o = rw (l, on_channel) (ap (stored ch cs) (fg c o))

  each_step :
      (f : Channel A → Option (Channel A)) (ch : ℕ) (chs : List ℕ) (cs ds : List (ℕ × Channel A))
      → on_channel f ch cs ≡ some ds
      → each f (ch ∷ chs) cs ≡ each f chs ds
  unfolding each
  each_step f ch chs cs ds e = rw (e, each) refl

  -- Nothing panics on channels that are open and distinct: each is changed, and no other is.
  pub each_open :
      (f : Channel A → Option (Channel A)) (g : Channel A → Channel A)
      → ((c : Channel A) → c.closed ≡ false → f c ≡ some (g c))
      → (chs : List ℕ) (cs : List (ℕ × Channel A)) → Distinct chs
      → ((k : ℕ) → has k chs ≡ true → IsOpen cs k)
      → (ds : List (ℕ × Channel A)) × (each f chs cs ≡ some ds)
        × ((k : ℕ) → has k chs ≡ false → lookup k ds ≡ lookup k cs)
        × ((k : ℕ) (c : Channel A)
            → has k chs ≡ true
            → lookup k cs ≡ some c
            → lookup k ds ≡ some (g c))
  unfolding each has
  each_open f g fg [] cs d o = (cs, refl, λ k h. refl, λ k c h. absurd (false≢true h))
  each_open f g fg (ch ∷ chs) cs d o =
      let (c, l, h) = o ch (has_here ch ch chs refl) in
      let next = put ch (g c) cs in
      let apart : (k : ℕ) → has k chs ≡ true → ch ≢ k =
        λ k m e. false≢true (sym d.0 ∙ ap (λ (i : ℕ). has i chs) e ∙ m) in
      let open_next : (k : ℕ) → has k chs ≡ true → IsOpen next k = λ k m.
        let (c', l', h') = o k (has_tail ch k chs m) in
        (c', lookup-put_ne ch k (g c) cs (apart k m) ∙ l', h') in
      let (ds, run, others, these) = each_open f g fg chs next d.1 open_next in
      (
        ds,
        each_step f ch chs cs next (on_channel_open f g fg ch cs c l h) ∙ run,
        λ k m. let (n, m') = has_apart ch k chs m in others k m' ∙ lookup-put_ne ch k (g c) cs n,
        λ k c' m l'. elim (ℕ_discrete ch k) [
          | yes e ↦
              let same : c ≡ c' =
                some-injective c c' (sym l ∙ ap (λ (i : ℕ). lookup i cs) e ∙ l') in
              others k (sym (ap (λ (i : ℕ). has i chs) e) ∙ d.0)
              ∙ sym (ap (λ (i : ℕ). lookup i next) e)
              ∙ lookup-put ch (g c) cs
              ∙ ap (λ (x : Channel A). some (g x)) same
          | no n ↦ these k c' (sym (has_there ch k chs n) ∙ m) (lookup-put_ne ch k (g c) cs n ∙ l')
        ],
      )
