-- ===== src/Editor/Invariant.antt =====
-- The configuration stays within its bounds, whatever happens to it.
use bit_bench.Prelude.{
  ℕ, suc, ◌+◌, ◌-◌, ◌≤◌, ◌<◌, ◌≡◌, inl, inr, Option, none, some, List, [], ◌∷◌, not, ◌&&◌, length,
  keep_index, leb, ltb, ◌==◌, if◌then◌else◌, arith, Bool-cases, ltb→lt, length-append, length-take,
  length-map_index, Str,
}
use bit_bench.Options.{Value, default_options}
use bit_bench.Objects.{keys}
use bit_bench.Instances.{InstanceDraft, Registry, schema_of, max_instances_per_benchmark}
use bit_bench.Editor.{
  EditorState, CompressorInstance, Action, add, remove, update, apply, act, edit, add_instance,
  append_instance, clear_error, remove_instance, update_instance_option, apply_instances,
  shift_expanded, without_index, drafts_of, set_option, expand, restore, toggle_expanded,
  restore_drafts, set_instances,
}

-- An index below the bound, if there is one.
abbrev pub IsBelow : Option ℕ → ℕ → Type 0
IsBelow none bound = Unit {0}
IsBelow (some i) bound = i < bound

-- At most 64 instances, and the expanded one is among them.
abbrev pub IsWellFormed : {Num : Type 0} → EditorState Num → Type 0
IsWellFormed s = (length s.instances ≤ 64) × IsBelow s.expanded_instance (length s.instances)

-- Dropping one index makes a list one shorter, or leaves it if the index is out of range.
pub length-keep_index :
    {A : Type 0} (index i : ℕ) (xs : List A)
    → (length (keep_index (λ j. not (j == index)) i xs)
        ≡ (if leb i index && ltb index (i + length xs) then length xs - 1 else length xs))
length-keep_index index i [] = ground arith
length-keep_index index i (x ∷ xs) = ground (arith, length-keep_index index (suc i) xs)

length-without_index :
    {A : Type 0} (index : ℕ) (xs : List A)
    → length (without_index index xs) ≡ (if ltb index (length xs) then length xs - 1 else length xs)
unfolding without_index
length-without_index index xs = ground (arith, length-keep_index index 0 xs)

shift_expanded-IsBelow :
    (index : ℕ) (expanded : Option ℕ) (n : ℕ)
    → IsBelow expanded n
    → IsBelow (shift_expanded index expanded) (if ltb index n then n - 1 else n)
unfolding shift_expanded
shift_expanded-IsBelow index none n h = tt
shift_expanded-IsBelow index (some e) n h = elim (Bool-cases (e == index)) [
  | inl same ↦ rw same tt
  | inr other ↦ elim (Bool-cases (ltb index e)) [
    | inl behind ↦ rw (other, behind) (ground arith)
    | inr ahead ↦ rw (other, ahead) (ground arith)
  ]
]

module _ {Num : Type 0} where
  add_instance-IsWellFormed :
      (registry : Registry Num) (name : Str) (s : EditorState Num)
      → IsWellFormed s
      → IsWellFormed (add_instance registry name s)
  unfolding add_instance append_instance clear_error
  add_instance-IsWellFormed registry name s (bound, h) =
      let inst : InstanceDraft Num = record {
        name = name;
        options = default_options (schema_of name registry);
      } in
      elim (Bool-cases (leb max_instances_per_benchmark (length s.instances))) [
        | inl e ↦ rw e (bound, h)
        | inr e ↦
            let longer = length-append s.instances (inst ∷ []) in rw e (ground arith, ground arith)
      ]

  remove_instance-IsWellFormed :
      (index : ℕ) (s : EditorState Num) → IsWellFormed s → IsWellFormed (remove_instance index s)
  unfolding remove_instance
  remove_instance-IsWellFormed index s (bound, h) = (
    ground (arith, length-without_index index s.instances),
    rw (length-without_index index s.instances)
        (shift_expanded-IsBelow index s.expanded_instance (length s.instances) h),
  )

  update_instance_option-IsWellFormed :
      (index : ℕ) (key : Str) (value : Value Num) (s : EditorState Num)
      → IsWellFormed s
      → IsWellFormed (update_instance_option index key value s)
  unfolding update_instance_option
  update_instance_option-IsWellFormed index key value s (bound, h) =
      rw (length-map_index (set_option index key value) 0 s.instances) (bound, h)

  apply_instances-IsWellFormed :
      (registry : Registry Num) (incoming : List (CompressorInstance Num)) (s : EditorState Num)
      → IsWellFormed s
      → IsWellFormed (apply_instances registry incoming s)
  unfolding apply_instances
  apply_instances-IsWellFormed registry incoming s (bound, h) =
      elim (Bool-cases (length (keys registry) == 0)) [
        | inl e ↦ rw e (bound, h)
        | inr e ↦ rw e (omega (arith, length-take 64 (drafts_of registry incoming)), tt)
      ]

  toggle_expanded-IsWellFormed :
      (index : ℕ) (s : EditorState Num)
      → IsWellFormed s
      → index < length s.instances
      → IsWellFormed (toggle_expanded index s)
  unfolding toggle_expanded
  toggle_expanded-IsWellFormed index s (bound, h) there = (bound, below s.expanded_instance)
    where
      below :
          (expanded : Option ℕ)
          → IsBelow
              (elim expanded [
                | none ↦ some index
                | some current ↦ if current == index then none else some index
              ])
              (length s.instances)
      below none = there
      below (some current) = elim (Bool-cases (current == index)) [
        | inl e ↦ rw e tt
        | inr e ↦ rw e there
      ]

  restore_drafts-IsWellFormed :
      (drafts : List (InstanceDraft Num)) (s : EditorState Num)
      → IsWellFormed s
      → s.expanded_instance ≡ none
      → IsWellFormed (restore_drafts drafts s)
  unfolding restore_drafts set_instances
  restore_drafts-IsWellFormed drafts s (bound, h) closed =
      elim (Bool-cases (ltb 0 (length drafts))) [
        | inl e ↦ rw (e, closed) (omega (arith, length-take 64 drafts), tt)
        | inr e ↦ rw e (bound, h)
      ]

  -- A configuration is restored only while no instance is expanded.
  abbrev pub RestoresInTime : Action Num → EditorState Num → Type 0
  RestoresInTime (restore drafts) s = s.expanded_instance ≡ none
  RestoresInTime _ s = Unit {0}

  -- So at every step.
  abbrev pub AllInTime : Registry Num → List (Action Num) → EditorState Num → Type 0
  AllInTime registry [] s = Unit {0}
  AllInTime registry (a ∷ actions) s =
      RestoresInTime a s × AllInTime registry actions (act registry a s)

  act-IsWellFormed :
      (registry : Registry Num) (a : Action Num) (s : EditorState Num)
      → RestoresInTime a s
      → IsWellFormed s
      → IsWellFormed (act registry a s)
  unfolding act
  act-IsWellFormed registry (add name) s t h = add_instance-IsWellFormed registry name s h
  act-IsWellFormed registry (remove index) s t h = remove_instance-IsWellFormed index s h
  act-IsWellFormed registry (update index key value) s t h =
      update_instance_option-IsWellFormed index key value s h
  act-IsWellFormed registry (apply incoming) s t h =
      apply_instances-IsWellFormed registry incoming s h
  act-IsWellFormed registry (expand index) s t h =
      elim (Bool-cases (ltb index (length s.instances))) [
        | inl e ↦ rw e (toggle_expanded-IsWellFormed index s h (ltb→lt index _ e))
        | inr e ↦ rw e h
      ]
  act-IsWellFormed registry (restore drafts) s t h = restore_drafts-IsWellFormed drafts s h t

  -- From a state with at most 64 instances, whose expanded index, if any, is that of an instance,
  -- every sequence of actions, in which a configuration is restored only while no instance is
  -- expanded, leads to such a state again.
  pub edit-IsWellFormed :
      (registry : Registry Num) (actions : List (Action Num)) (s : EditorState Num)
      → AllInTime registry actions s
      → IsWellFormed s
      → IsWellFormed (edit registry actions s)
  unfolding edit
  edit-IsWellFormed registry [] s t h = h
  edit-IsWellFormed registry (a ∷ actions) s (t, ts) h =
      edit-IsWellFormed registry actions (act registry a s) ts (act-IsWellFormed registry a s t h)
