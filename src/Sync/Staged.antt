-- ===== src/Sync/Staged.antt =====
-- What `StagePart` leaves of a part.

use teldrive_easy.Prelude.{
  ℕ, ◌≡◌, ◌⊎◌, refl, Bool, true, false, ◌||◌, List, [], ◌∷◌, ◌++◌, ◌==◌, if◌then◌else◌, Bool-cases,
  Option-cases, inl, inr,
}
use teldrive_easy.Sync.Parts.{Upload, stored_size}
use teldrive_easy.Sync.Transfer.{Reply, part_row, stage_part, staged, upload_failed}

-- The bytes that the messages of these rows hold together.
unfoldable pub contents : List Upload → List ℕ
contents [] = []
contents (u ∷ us) = u.content ++ contents us

-- A part that was staged is stored under its number, with its size and its bytes.
pub record IsRow (part_no : ℕ) (encrypted : Bool) (chunk : ℕ) (content : List ℕ) (u : Upload)
    : Type 0 where
  pub number : u.part_no ≡ part_no
  pub kind : u.encrypted ≡ encrypted
  pub stored : u.size ≡ stored_size encrypted chunk
  pub bytes : u.content ≡ content

pub part_row-cases :
    (n : ℕ) (enc : Bool) (chunk : ℕ) (content : List ℕ) (r : Reply) (id size : ℕ)
    → (part_row n enc chunk content r id size ≡ upload_failed)
      ⊎ ((u : Upload) × (part_row n enc chunk content r id size ≡ staged u)
          × IsRow n enc chunk content u)
unfolding part_row
part_row-cases n enc chunk content r id size =
    elim (Bool-cases ((id == 0) || (if size == stored_size enc chunk then false else true))) [
      | inl e ↦ inl (rw e refl)
      | inr e ↦ elim (Bool-cases r.stored) [
        | inl st ↦ inr (
          record {
            part_id = id;
            part_no = n;
            size = stored_size enc chunk;
            encrypted = enc;
            created_at = r.created_at;
            content = content;
          },
          rw (e, st) refl,
          record { number = refl; kind = refl; stored = refl; bytes = refl },
        )
        | inr st ↦ inl (rw (e, st) refl)
      ]
    ]

pub stage_part-cases :
    (n : ℕ) (enc : Bool) (chunk : ℕ) (content : List ℕ) (r : Reply)
    → (stage_part n enc chunk content r ≡ upload_failed)
      ⊎ ((u : Upload) × (stage_part n enc chunk content r ≡ staged u) × IsRow n enc chunk content u)
unfolding stage_part
stage_part-cases n enc chunk content r = elim (Option-cases r.uploaded) [
  | inl e ↦ inl (rw (e, stage_part) refl)
  | inr (p, e) ↦ elim (part_row-cases n enc chunk content r p.0 p.1) [
    | inl e' ↦ inl (rw (e, stage_part) e')
    | inr (u, e', row) ↦ inr (u, rw (e, stage_part) e', row)
  ]
]
