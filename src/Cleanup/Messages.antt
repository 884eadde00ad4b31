-- ===== src/Cleanup/Messages.antt =====
-- `DeleteMessages` and `GetMessages` of internal/tgc/helpers.go: long lists of ids in batches. What
-- Telegram answers to each batch is given.
use mathlib.Core.Bool.{false≢true}
use teldrive_easy.Prelude.{
  ℕ, zero, suc, ◌+◌, ◌-◌, ◌*◌, ◌/◌, ◌≤◌, ◌≡◌, refl, sym, ap, ap₂, ◌∙◌, Bool, true, false, ◌&&◌,
  List, [], ◌∷◌, ◌++◌, Option, none, some, length, length-take, length-drop, take, drop,
  take-append-drop, drop-drop, drop_all, drop_zero, take_all, take-take, min, arith, if◌then◌else◌,
}

abbrev pub batch_size : ℕ
batch_size = 100

-- `math.Ceil` of the quotient, which is exact for the lengths of lists.
unfoldable pub batch_count : List ℕ → ℕ
batch_count ids = (length ids + 99) / batch_size

-- `ids[start:end]`.
unfoldable pub batch : ℕ → List ℕ → List ℕ
batch i ids =
    let start = i * batch_size in
    let end = min (suc i * batch_size) (length ids) in take (end - start) (drop start ids)

-- `for i := range batchCount`, from the `i`-th on.
unfoldable pub batches_from : (left i : ℕ) → List ℕ → List (List ℕ)
batches_from zero i ids = []
batches_from (suc left) i ids = batch i ids ∷ batches_from left (suc i) ids

unfoldable pub batches : List ℕ → List (List ℕ)
batches ids = batches_from (batch_count ids) 0 ids

-- The batches run at once and share one `err`: each writes what Telegram answers, and returns what
-- is in `err` by then, which may be the answer to another batch.
pub record BatchReply : Type 0 where
  pub ok : Bool
  pub returns_ok : Bool

-- The other batches go on where one fails; a batch without an answer fails. The result is whether
-- all returned success, and the ids that are gone.
unfoldable pub delete_batches : List (List ℕ) → List BatchReply → Bool × List ℕ
delete_batches [] replies = (true, [])
delete_batches (b ∷ bs) [] = (false, (delete_batches bs []).1)
delete_batches (b ∷ bs) (r ∷ replies) =
    let rest = delete_batches bs replies in
    (r.returns_ok && rest.0, if r.ok then b ++ rest.1 else rest.1)

unfoldable pub delete_messages : List ℕ → List BatchReply → Bool × List ℕ
delete_messages ids replies = delete_batches (batches ids) replies

-- `GetMessages`: what the batches give, in the order of the batches.
unfoldable pub with_messages : {A : Type 0} → Option (List A) → Option (List A) → Option (List A)
with_messages none rest = none
with_messages (some messages) none = none
with_messages (some messages) (some rest) = some (messages ++ rest)

unfoldable pub get_batches :
    {A : Type 0} → (List ℕ → Option (List A)) → List (List ℕ) → Option (List A)
get_batches fetch [] = some []
get_batches fetch (b ∷ bs) = with_messages (fetch b) (get_batches fetch bs)

unfoldable pub get_messages : {A : Type 0} → (List ℕ → Option (List A)) → List ℕ → Option (List A)
get_messages fetch ids = get_batches fetch (batches ids)

-- All the lists are at most this long.
abbrev pub AllShort : ℕ → List (List ℕ) → Type 0
AllShort n [] = Unit
AllShort n (b ∷ bs) = (length b ≤ n) × AllShort n bs

unfoldable pub joined : List (List ℕ) → List ℕ
joined [] = []
joined (b ∷ bs) = b ++ joined bs

batch-take : (i : ℕ) (ids : List ℕ) → batch i ids ≡ take batch_size (drop (i * batch_size) ids)
unfolding batch
batch-take i ids =
    ap (λ (n : ℕ). take n (drop (i * batch_size) ids)) (omega arith)
    ∙ sym (take-take batch_size (length ids - i * batch_size) (drop (i * batch_size) ids))
    ∙ ap (take batch_size) (
        take_all (length ids - i * batch_size) (drop (i * batch_size) ids)
          (omega (arith, length-drop (i * batch_size) ids)))

joined-batches_from :
    (left i : ℕ) (ids : List ℕ)
    → length ids ≤ (i + left) * batch_size
    → joined (batches_from left i ids) ≡ drop (i * batch_size) ids
unfolding joined batches_from
joined-batches_from zero i ids h = sym (drop_all (i * batch_size) ids (omega arith))
joined-batches_from (suc left) i ids h =
    ap₂ ◌++◌ (batch-take i ids) (joined-batches_from left (suc i) ids (omega arith))
    ∙ ap (λ (xs : List ℕ). take batch_size (drop (i * batch_size) ids) ++ xs)
        (ap (λ (n : ℕ). drop n ids) (omega arith) ∙ sym (drop-drop batch_size (i * batch_size) ids))
    ∙ take-append-drop batch_size (drop (i * batch_size) ids)

AllShort-batches_from : (left i : ℕ) (ids : List ℕ) → AllShort batch_size (batches_from left i ids)
unfolding batches_from
AllShort-batches_from zero i ids = tt
AllShort-batches_from (suc left) i ids = (
  omega (arith, ap length (batch-take i ids), length-take batch_size (drop (i * batch_size) ids)),
  AllShort-batches_from left (suc i) ids,
)

-- The batches have at most 100 ids each, and together they are the list, in order.
pub joined-batches : (ids : List ℕ) → (joined (batches ids) ≡ ids) × AllShort 100 (batches ids)
unfolding batches batch_count
joined-batches ids = (
  joined-batches_from ((length ids + 99) / batch_size) 0 ids (omega arith)
      ∙ ap (λ (n : ℕ). drop n ids) (omega arith)
      ∙ drop_zero ids,
  AllShort-batches_from ((length ids + 99) / batch_size) 0 ids,
)

-- Each batch returns its own answer: no other batch writes `err` in between.
abbrev pub AllOwn : List BatchReply → Type 0
AllOwn [] = Unit
AllOwn (r ∷ rs) = (r.returns_ok ≡ r.ok) × AllOwn rs

pub &&-parts : (a b : Bool) → (a && b) ≡ true → (a ≡ true) × (b ≡ true)
&&-parts true b h = (refl, h)
&&-parts false b h = absurd (false≢true h)

delete_batches_all :
    (bs : List (List ℕ)) (replies : List BatchReply)
    → AllOwn replies
    → (delete_batches bs replies).0 ≡ true
    → (delete_batches bs replies).1 ≡ joined bs
unfolding delete_batches joined
delete_batches_all [] replies own h = refl
delete_batches_all (b ∷ bs) [] own h = absurd (false≢true h)
delete_batches_all (b ∷ bs) (r ∷ replies) own h =
    let (good, others) = &&-parts r.returns_ok (delete_batches bs replies).0 h in
    rw (sym own.0 ∙ good)
      (ap (λ (xs : List ℕ). b ++ xs) (delete_batches_all bs replies own.1 others))

-- Where the deletion reports success, all the messages are gone.
pub delete_messages_all :
    (ids : List ℕ) (replies : List BatchReply)
    → AllOwn replies
    → (delete_messages ids replies).0 ≡ true
    → (delete_messages ids replies).1 ≡ ids
unfolding delete_messages
delete_messages_all ids replies own h =
    delete_batches_all (batches ids) replies own h ∙ (joined-batches ids).0
