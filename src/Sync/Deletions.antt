-- ===== src/Sync/Deletions.antt =====
-- The order in which a mirror deletes folders.
use mathlib.Core.List.Perm
use mathlib.Core.List.{Perm}
use teldrive_easy.Prelude.{
  ℕ, zero, suc, ◌≤◌, ◌<◌, ◌≡◌, refl, sym, List, [], ◌∷◌, length, arith, dec_lt, ltb-true, ltb-false,
  subst,
}
use teldrive_easy.Sync.Plan.{Entry, exchange, order_folders, order_loop}

-- No entry is deeper than this.
abbrev pub AllWithin : ℕ → List Entry → Type 0
AllWithin n [] = Unit
AllWithin n (e ∷ es) = (e.depth ≤ n) × AllWithin n es

-- Each entry is at least as deep as those behind it.
abbrev pub Descending : List Entry → Type 0
Descending [] = Unit
Descending (e ∷ es) = AllWithin e.depth es × Descending es

exchange_swap :
    (x y : Entry) (ys : List Entry)
    → x.depth < y.depth
    → exchange x (y ∷ ys) ≡ ((exchange y ys).0, x ∷ (exchange y ys).1)
unfolding exchange
exchange_swap x y ys h = rw (ltb-true {a = x.depth} {b = y.depth} h) refl

exchange_stay :
    (x y : Entry) (ys : List Entry)
    → y.depth ≤ x.depth
    → exchange x (y ∷ ys) ≡ ((exchange x ys).0, y ∷ (exchange x ys).1)
unfolding exchange
exchange_stay x y ys h = rw (ltb-false {a = x.depth} {b = y.depth} h) refl

-- What an exchange leaves: the same entries, the deepest of them first.
abbrev Exchanged : Entry → List Entry → Entry × List Entry → Type 0
Exchanged x ys r =
    Perm (r.0 ∷ r.1) (x ∷ ys)
    × AllWithin r.0.depth r.1
    × (x.depth ≤ r.0.depth)
    × (length r.1 ≡ length ys)

exchange-Exchanged : (x : Entry) (ys : List Entry) → Exchanged x ys (exchange x ys)
unfolding exchange
exchange-Exchanged x [] = (Perm.refl (x ∷ []), tt, omega arith, refl)
exchange-Exchanged x (y ∷ ys) = elim (dec_lt x.depth y.depth) [
  | yes h ↦
      let (p, a, d, l) = exchange-Exchanged y ys in
      subst (Exchanged x (y ∷ ys)) (sym (exchange_swap x y ys h)) (
        Perm.trans (Perm.swap x (exchange y ys).0 (exchange y ys).1) (Perm.cons x p),
        (omega arith, a),
        omega arith,
        omega arith,
      )
  | no n ↦
      let (p, a, d, l) = exchange-Exchanged x ys in
      subst (Exchanged x (y ∷ ys)) (sym (exchange_stay x y ys (omega arith))) (
        Perm.trans (Perm.swap y (exchange x ys).0 (exchange x ys).1)
            (Perm.trans (Perm.cons y p) (Perm.swap x y ys)),
        (omega arith, a),
        d,
        omega arith,
      )
]

exchange-AllWithin :
    (n : ℕ) (x : Entry) (ys : List Entry)
    → x.depth ≤ n
    → AllWithin n ys
    → ((exchange x ys).0.depth ≤ n) × AllWithin n (exchange x ys).1
unfolding exchange
exchange-AllWithin n x [] h a = (h, tt)
exchange-AllWithin n x (y ∷ ys) h a = elim (dec_lt x.depth y.depth) [
  | yes l ↦
      let (d, rest) = exchange-AllWithin n y ys a.0 a.1 in
      subst (λ (r : Entry × List Entry). (r.0.depth ≤ n) × AllWithin n r.1)
        (sym (exchange_swap x y ys l)) (d, (h, rest))
  | no l ↦
      let (d, rest) = exchange-AllWithin n x ys h a.1 in
      subst (λ (r : Entry × List Entry). (r.0.depth ≤ n) × AllWithin n r.1)
        (sym (exchange_stay x y ys (omega arith))) (d, (a.0, rest))
]

order_loop-AllWithin :
    (fuel n : ℕ) (es : List Entry) → AllWithin n es → AllWithin n (order_loop fuel es)
unfolding order_loop
order_loop-AllWithin zero n es a = a
order_loop-AllWithin (suc fuel) n [] a = tt
order_loop-AllWithin (suc fuel) n (x ∷ xs) a =
    let (d, rest) = exchange-AllWithin n x xs a.0 a.1 in
    (d, order_loop-AllWithin fuel n (exchange x xs).1 rest)

order_loop-sorted :
    (fuel : ℕ) (es : List Entry)
    → length es ≤ fuel
    → Descending (order_loop fuel es) × Perm (order_loop fuel es) es
unfolding order_loop
order_loop-sorted zero [] h = (tt, Perm.refl [])
order_loop-sorted zero (e ∷ es) h = absurd (omega arith)
order_loop-sorted (suc fuel) [] h = (tt, Perm.refl [])
order_loop-sorted (suc fuel) (x ∷ xs) h =
    let (p, a, d, l) = exchange-Exchanged x xs in
    let (s, q) = order_loop-sorted fuel (exchange x xs).1 (omega arith) in
    (
      (order_loop-AllWithin fuel (exchange x xs).0.depth (exchange x xs).1 a, s),
      Perm.trans (Perm.cons (exchange x xs).0 q) p,
    )

-- The folders that are deleted are exactly those that only the destination has, and the deeper of
-- two goes first: no folder is deleted before one that lies inside it.
pub order_folders-sorted :
    (es : List Entry) → Descending (order_folders es) × Perm (order_folders es) es
unfolding order_folders
order_folders-sorted es = order_loop-sorted (length es) es (omega arith)
