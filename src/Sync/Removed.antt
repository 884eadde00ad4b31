-- ===== src/Sync/Removed.antt =====
-- What a mirror deletes: files first, then folders.
use mathlib.Core.List.Perm
use mathlib.Core.List.{Perm, perm_middle}
use teldrive_easy.Prelude.{
  ℕ, zero, suc, ◌≡◌, refl, ap, Bool, true, false, List, [], ◌∷◌, ◌++◌, if◌then◌else◌, ltb, length,
  inl, inr, Bool-cases,
}
use teldrive_easy.Sync.Plan.{
  Entry, delete_entries, deletions, exchange, files, folders, order_folders, order_loop,
}
use teldrive_easy.Sync.Deletions.{Descending, order_folders-sorted}

-- The entries are files, or folders.
abbrev pub AllFolders : Bool → List Entry → Type 0
AllFolders b [] = Unit
AllFolders b (e ∷ es) = (e.is_folder ≡ b) × AllFolders b es

files-AllFolders : (es : List Entry) → AllFolders false (files es)
unfolding files
files-AllFolders [] = tt
files-AllFolders (e ∷ es) = with_first (files-AllFolders es) e.is_folder refl
  where
    with_first :
        AllFolders false (files es)
        → (b : Bool) → e.is_folder ≡ b
        → AllFolders false (if◌then◌else◌ {A = List Entry} b (files es) (e ∷ files es))
    with_first hs true h = hs
    with_first hs false h = (h, hs)

folders-AllFolders : (es : List Entry) → AllFolders true (folders es)
unfolding folders
folders-AllFolders [] = tt
folders-AllFolders (e ∷ es) = with_first (folders-AllFolders es) e.is_folder refl
  where
    with_first :
        AllFolders true (folders es)
        → (b : Bool) → e.is_folder ≡ b
        → AllFolders true (if◌then◌else◌ {A = List Entry} b (e ∷ folders es) (folders es))
    with_first hs true h = (h, hs)
    with_first hs false h = hs

exchange-AllFolders :
    (b : Bool) (x : Entry) (ys : List Entry)
    → x.is_folder ≡ b
    → AllFolders b ys
    → ((exchange x ys).0.is_folder ≡ b) × AllFolders b (exchange x ys).1
unfolding exchange
exchange-AllFolders b x [] h hs = (h, tt)
exchange-AllFolders b x (y ∷ ys) h hs = elim (Bool-cases (ltb x.depth y.depth)) [
  | inl e ↦ let r = exchange-AllFolders b y ys hs.0 hs.1 in rw e (r.0, (h, r.1))
  | inr e ↦ let r = exchange-AllFolders b x ys h hs.1 in rw e (r.0, (hs.0, r.1))
]

order_loop-AllFolders :
    (fuel : ℕ) (b : Bool) (es : List Entry) → AllFolders b es → AllFolders b (order_loop fuel es)
unfolding order_loop
order_loop-AllFolders zero b es h = h
order_loop-AllFolders (suc fuel) b [] h = tt
order_loop-AllFolders (suc fuel) b (x ∷ xs) h =
    let r = exchange-AllFolders b x xs h.0 h.1 in
    (r.0, order_loop-AllFolders fuel b (exchange x xs).1 r.1)

files-folders-Perm : (es : List Entry) → Perm (files es ++ folders es) es
unfolding files folders
files-folders-Perm [] = Perm.refl []
files-folders-Perm (e ∷ es) = with_first (files-folders-Perm es) e.is_folder
  where
    with_first :
        Perm (files es ++ folders es) es
        → (b : Bool)
        → Perm
            (if◌then◌else◌ {A = List Entry} b (files es) (e ∷ files es)
              ++ if◌then◌else◌ {A = List Entry} b (e ∷ folders es) (folders es))
            (e ∷ es)
    with_first p true = Perm.trans (perm_middle (files es) (folders es)) (Perm.cons e p)
    with_first p false = Perm.cons e p

pub delete_entries-all :
    (ok : Entry → Bool) (es : List Entry)
    → ((e : Entry) → ok e ≡ true)
    → delete_entries ok es ≡ (true, es)
unfolding delete_entries
delete_entries-all ok [] h = refl
delete_entries-all ok (e ∷ es) h =
    rw (h e, delete_entries)
      (ap (λ (r : Bool × List Entry). (r.0, e ∷ r.1)) (delete_entries-all ok es h))

-- A mirror deletes exactly what only the destination has, each entry once: the files, and then the
-- folders, the deeper first. A run that does not mirror deletes nothing.
pub record InOrder (extra gone : List Entry) : Type 0 where
  pub first : List Entry
  pub last : List Entry
  pub split : gone ≡ first ++ last
  pub all_files : AllFolders false first
  pub all_folders : AllFolders true last
  pub deepest_first : Descending last
  pub same : Perm gone extra

abbrev pub Due : Bool → List Entry → List Entry → Type 0
Due true extra gone = InOrder extra gone
Due false extra gone = gone ≡ []

pub deletions-InOrder : (extra : List Entry) → InOrder extra (deletions extra)
unfolding deletions order_folders
deletions-InOrder extra =
    let (descending, same) = order_folders-sorted (folders extra) in
    record {
      first = files extra;
      last = order_folders (folders extra);
      split = refl;
      all_files = files-AllFolders extra;
      all_folders =
          order_loop-AllFolders (length (folders extra)) true (folders extra)
            (folders-AllFolders extra);
      deepest_first = descending;
      same = Perm.trans (Perm.append_left (files extra) same) (files-folders-Perm extra);
    }
