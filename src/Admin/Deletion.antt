-- ===== src/Admin/Deletion.antt =====
-- What deleting benchmarks leaves of the table and of the selection.
use bit_bench.Prelude.{
  ◌≡◌, ◌↔◌, refl, sym, subst, inl, inr, none, List, [], ◌∷◌, true, not, Str, str_eq, str_eq_iff,
  has, has_iff, map, keep, length, ◌==◌, In, In-keep, arith, Bool-cases,
}
use bit_bench.Api.{resolved}
use bit_bench.Listing.{Benchmark}
use bit_bench.Admin.{BenchmarksState, handle_delete, handle_batch_delete, drop_selected}

-- The identifiers of the benchmarks in the table.
abbrev pub ids_of : List Benchmark → List Str
ids_of benchmarks = map (λ b. b.id) benchmarks

not_deleted :
    (id : Str) (benchmarks : List Benchmark)
    → ¬ (In id (ids_of (keep (λ b. not (str_eq b.id id)) benchmarks)))
not_deleted id [] m = m
not_deleted id (b ∷ benchmarks) m = elim (Bool-cases (str_eq b.id id)) [
  | inl e ↦ not_deleted id benchmarks (rw e at m)
  | inr e ↦
      let m' : In id (b.id ∷ ids_of (keep (λ b. not (str_eq b.id id)) benchmarks)) = rw e at m in
      elim m' [
        | inl same ↦ cc (e, (str_eq_iff b.id id).1 (sym same))
        | inr later ↦ not_deleted id benchmarks later
      ]
]

-- Deleting one benchmark takes it off the table, but leaves it selected: it is still counted among
-- the selected ones, and a batch deletion asks to delete it again.
pub handle_delete-selected :
    (id : Str) (s : BenchmarksState)
    → In id s.selected
    → let after = handle_delete true (resolved none) id s in
      In id after.selected × (¬ (In id (ids_of after.benchmarks)))
unfolding handle_delete
handle_delete-selected id s m = (m, not_deleted id s.benchmarks)

In-drop_selected :
    (b : Benchmark) (s : BenchmarksState)
    → In b (drop_selected (resolved none) s).benchmarks
      ↔ (In b s.benchmarks × (¬ (In b.id s.selected)))
unfolding drop_selected
In-drop_selected b s =
    let kept = In-keep (λ c. not (has c.id s.selected)) b s.benchmarks in
    let selected = has_iff b.id s.selected in ground (arith, kept, selected)

no_ids : (ids : List Str) → (length ids == 0) ≡ true → ids ≡ []
no_ids [] e = refl
no_ids (id ∷ ids) e = absurd (ground (arith, e))

none_selected :
    (b : Benchmark) (benchmarks : List Benchmark) (selected : List Str)
    → selected ≡ []
    → In b benchmarks ↔ (In b benchmarks × (¬ (In b.id selected)))
none_selected b benchmarks selected e = ((λ m. (m, λ h. subst (λ ids. In b.id ids) e h)), λ h. h.0)

-- A confirmed batch deletion that the server carries out leaves in the table exactly the benchmarks
-- that were not selected, and selects none.
pub handle_batch_delete_lem :
    (s : BenchmarksState)
    → let after = handle_batch_delete true (resolved none) s in
      ((b : Benchmark) → In b after.benchmarks ↔ (In b s.benchmarks × (¬ (In b.id s.selected))))
      × (after.selected ≡ [])
unfolding handle_batch_delete drop_selected
handle_batch_delete_lem s = elim (Bool-cases (length s.selected == 0)) [
  | inl e ↦
      let empty = no_ids s.selected e in
      rw e ((λ b. none_selected b s.benchmarks s.selected empty), empty)
  | inr e ↦ rw e ((λ b. In-drop_selected b s), refl)
]
