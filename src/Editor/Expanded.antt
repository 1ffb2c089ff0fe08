-- ===== src/Editor/Expanded.antt =====
-- The expanded instance stays expanded while others are removed.
use bit_bench.Prelude.{
  ℕ, zero, suc, ◌+◌, ◌-◌, ◌≡◌, ◌≢◌, refl, inl, inr, some, List, [], ◌∷◌, false, not, get_elem?,
  keep_index, ltb, leb, ◌&&◌, ◌==◌, if◌then◌else◌, arith, ◌∙◌, Bool-cases,
}
use bit_bench.Instances.{InstanceDraft}
use bit_bench.Editor.{EditorState, remove_instance, shift_expanded, without_index}

-- Where an element stands once another index is dropped; the list starts at index `i`.
abbrev shifted : ℕ → ℕ → ℕ → ℕ
shifted index i e = if leb i index && ltb index (i + e) then e - 1 else e

get_elem?-keep_index :
    {A : Type 0} (index i e : ℕ) (xs : List A)
    → i + e ≢ index
    → get_elem? (keep_index (λ j. not (j == index)) i xs) (shifted index i e) ≡ get_elem? xs e
get_elem?-keep_index index i e [] h = refl
get_elem?-keep_index index i zero (x ∷ xs) h =
    let kept : (i == index) ≡ false = ground arith in
    let first : shifted index i 0 ≡ 0 = ground arith in rw (kept, first)
get_elem?-keep_index index i (suc e) (x ∷ xs) h =
    let rest = get_elem?-keep_index index (suc i) e xs (λ q. h (omega arith)) in
    elim (Bool-cases (i == index)) [
      | inl here ↦
          let moved : shifted index i (suc e) ≡ e = ground arith in
          let same : shifted index (suc i) e ≡ e = ground arith in
          rw (here, moved) (rw same at rest)
      | inr other ↦
          let moved : shifted index i (suc e) ≡ suc (shifted index (suc i) e) = ground arith in
          rw (other, moved) rest
    ]

-- When another instance is removed, the expanded one stays expanded, wherever it moves to.
pub remove_instance-expanded :
    {Num : Type 0} (s : EditorState Num) (index e : ℕ) (inst : InstanceDraft Num)
    → s.expanded_instance ≡ some e
    → e ≢ index
    → get_elem? s.instances e ≡ some inst
    → (e' : ℕ) × ((remove_instance index s).expanded_instance ≡ some e')
      × (get_elem? (remove_instance index s).instances e' ≡ some inst)
unfolding remove_instance shift_expanded without_index
remove_instance-expanded s index e inst at ne found = (
  shifted index 0 e,
  rw at (ground arith),
  get_elem?-keep_index index 0 e s.instances (λ q. ne (omega (arith, q))) ∙ found,
)
