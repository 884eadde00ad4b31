-- ===== src/Reader/Multi/Cuts.antt =====
-- Each chunk, cut at the ends of the range, is its share of the range.
use Prim.Native.Nat.{max}
use native.Mathlib.Nat.{
  add-div_right, div-mul-le_self, mod-lt, mod-add-div', add-mul-mod_self_right,
}
use teldrive_easy.Prelude.{
  ℕ, ◌+◌, ◌-◌, ◌*◌, ◌/◌, ◌%◌, ◌<◌, ◌≤◌, ◌≡◌, refl, sym, ap, ap₂, ◌∙◌, min, List, take, drop, arith,
  ==_true, ==_false, dec_lt, take-take, drop-take, drop-drop,
}
use teldrive_easy.Prelude.Slices.{slice, slice-slice}
use teldrive_easy.Reader.Chunks.{calculate_chunk_size, calculate_chunk_size_pos}
use teldrive_easy.Reader.Multi.{MultiReader, new_multi_reader, cut_chunk}

-- How chunks of `size` from `base` on cover the bytes from `start` up to `end`.
pub record Cover (start end base size left_cut right_cut total : ℕ) : Type 0 where
  pub sized : 0 < size
  pub before : base ≤ start
  pub first : start < base + size
  pub left : left_cut ≡ start - base
  pub some_part : 1 ≤ total
  pub last : base + (total - 1) * size ≤ end
  pub right : base + (total - 1) * size + right_cut ≡ end + 1
  pub within : right_cut ≤ size

abbrev pub Covers : (start end base : ℕ) → MultiReader → Type 0
Covers start end base r = Cover start end base r.chunk_size r.left_cut r.right_cut r.total_parts

-- The share of the chunk that starts at `off`.
abbrev pub share : List ℕ → (start end size off : ℕ) → List ℕ
share content start end size off = slice (max start off) (min (off + size) (end + 1)) content

-- Parts before the last end inside the range.
part_before : (p q size : ℕ) → p < q → p * size + size ≤ q * size
part_before p q size h = grind arith

module _ (content : List ℕ) (start end base p : ℕ) (r : MultiReader) (c : Covers start end base r)
    (h : p < r.total_parts) where
  abbrev off : ℕ
  off = base + p * r.chunk_size

  abbrev piece : List ℕ
  piece = slice off (off + r.chunk_size) content

  cut_single : r.total_parts ≡ 1 → cut_chunk r p piece ≡ share content start end r.chunk_size off
  unfolding cut_chunk
  cut_single one =
      let z : p * r.chunk_size ≡ 0 * r.chunk_size = ap (λ t. t * r.chunk_size) (first_part one) in
      let y : (r.total_parts - 1) * r.chunk_size ≡ 0 * r.chunk_size =
        ap (λ t. t * r.chunk_size) (last_part one) in
      rw (==_true r.total_parts 1 one) (
        slice-slice r.left_cut r.right_cut off (off + r.chunk_size) content
          (omega (arith, c.within))
        ∙ ap₂ (λ a b. slice a b content) (omega (arith, z, c.before, c.left))
            (omega (arith, z, y, c.right, c.within)))
    where
      first_part : r.total_parts ≡ 1 → p ≡ 0
      first_part one = omega (arith, h)

      last_part : r.total_parts ≡ 1 → r.total_parts - 1 ≡ 0
      last_part one = omega arith

  module _ (many : 1 < r.total_parts) where
    cut_first : p ≡ 0 → cut_chunk r p piece ≡ share content start end r.chunk_size off
    unfolding cut_chunk
    cut_first e =
        let z : p * r.chunk_size ≡ 0 * r.chunk_size = ap (λ t. t * r.chunk_size) e in
        let inside = part_before p (r.total_parts - 1) r.chunk_size (omega arith) in
        rw (==_false r.total_parts 1 (λ e'. absurd (omega arith)), ==_true p 0 e)
          (drop-take r.left_cut (off + r.chunk_size - off) (drop off content)
            ∙ ap₂ take (omega (arith, z, inside, c.before, c.first, c.left, c.last)) (
                drop-drop r.left_cut off content
                ∙ ap (λ m. drop m content) (omega (arith, z, c.before, c.left))))

    module _ (later : 0 < p) where
      behind : base + r.chunk_size ≤ off
      behind = omega (arith, part_before 0 p r.chunk_size later)

      cut_middle :
          p + 1 < r.total_parts → cut_chunk r p piece ≡ share content start end r.chunk_size off
      unfolding cut_chunk
      cut_middle more =
          let inside = part_before p (r.total_parts - 1) r.chunk_size (omega arith) in
          rw
            (
              ==_false r.total_parts 1 (λ e'. absurd (omega arith)),
              ==_false p 0 (λ e'. absurd (omega arith)),
              ==_false (p + 1) r.total_parts (λ e'. absurd (omega arith)),
            )
            (ap₂ (λ a b. slice a b content) (omega (arith, behind, c.first))
              (omega (arith, inside, c.last)))

      cut_last :
          p + 1 ≡ r.total_parts → cut_chunk r p piece ≡ share content start end r.chunk_size off
      unfolding cut_chunk
      cut_last e =
          let z : p * r.chunk_size ≡ (r.total_parts - 1) * r.chunk_size =
            ap (λ t. t * r.chunk_size) (before_last e) in
          rw
            (
              ==_false r.total_parts 1 (λ e'. absurd (omega arith)),
              ==_false p 0 (λ e'. absurd (omega arith)),
              ==_true (p + 1) r.total_parts e,
            )
            (take-take r.right_cut (off + r.chunk_size - off) (drop off content)
              ∙ ap₂ take (omega (arith, z, behind, c.first, c.right, c.within))
                  (ap (λ m. drop m content) (omega (arith, behind, c.first))))
        where
          before_last : p + 1 ≡ r.total_parts → p ≡ r.total_parts - 1
          before_last e = omega arith

pub cut_chunk-share :
    (content : List ℕ) (start end base p : ℕ) (r : MultiReader)
    → Covers start end base r
    → p < r.total_parts
    → let off = base + p * r.chunk_size in
      cut_chunk r p (slice off (off + r.chunk_size) content)
      ≡ share content start end r.chunk_size off
unfolding cut_chunk
cut_chunk-share content start end base p r c h = elim (dec_lt 1 r.total_parts) [
  | no single ↦ cut_single content start end base p r c h (omega arith)
  | yes many ↦ elim (dec_lt 0 p) [
    | no first ↦ cut_first content start end base p r c h many (omega arith)
    | yes later ↦ elim (dec_lt (p + 1) r.total_parts) [
      | yes middle ↦ cut_middle content start end base p r c h many later middle
      | no last ↦ cut_last content start end base p r c h many later (omega arith)
    ]
  ]
]

-- A new reader covers its range.
pub new_multi_reader-Covers :
    (buffers concurrency start end : ℕ)
    → start ≤ end
    → let r = new_multi_reader buffers concurrency start end in Covers start end r.offset r
unfolding new_multi_reader
new_multi_reader-Covers buffers concurrency start end h =
    let cs = calculate_chunk_size start end in
    let pos = calculate_chunk_size_pos start end in
    let base = start - start % cs in
    let m = end - base in
    let count : (m + cs) / cs ≡ m / cs + 1 = add-div_right m pos in
    let parts : (m + cs) / cs - 1 ≡ m / cs = omega (arith, count) in
    let whole : ((m + cs) / cs - 1) * cs ≡ m / cs * cs = ap (λ t. t * cs) parts in
    let aligned : m % cs ≡ end % cs =
      sym (add-mul-mod_self_right m (start / cs) cs)
      ∙ ap (λ t. t % cs) (omega (arith, mod-add-div' start cs)) in
    record {
      sized = pos;
      before = omega arith;
      first = omega (arith, mod-lt start pos, mod-add-div' start cs);
      left = refl;
      some_part = omega (arith, count);
      last = omega (arith, whole, div-mul-le_self m cs);
      right = omega (arith, whole, aligned, mod-add-div' m cs);
      within = omega (arith, mod-lt end pos);
    }
