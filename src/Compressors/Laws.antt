-- ===== src/Compressors/Laws.antt =====
-- What renaming, colours and shapes do with a label.
use bit_bench.Prelude.{
  ◌≡◌, refl, ◌⊎◌, inl, inr, some, [], ◌∷◌, ◌++◌, ℕ, Str, In, arith, Bool, true, false, Bool-cases,
  Option-cases, sym, ◌∙◌, str_eq, str_eq_iff, ◌==◌, ◌||◌, to_lower, if◌then◌else◌, any,
}
use bit_bench.Objects.{Object, get}
use bit_bench.Compressors.Tables.{compressor_renames}
use bit_bench.Compressors.{
  label_separator, split_compressor_label, or_else, display_base, rename_compressor,
  get_compressor_color, get_compressor_shape,
}
use bit_bench.Compressors.Labels.{
  HasNoDot, index_of-none, split_compressor_label-none, split_compressor_label-append,
}

-- What a test finds in no value of a table holds of no value that is looked up.
get-any :
    (test : Str → Bool) (k v : Str) (o : Object Str)
    → any (λ e. test e.1) o ≡ false
    → get k o ≡ some v
    → test v ≡ false
unfolding get
get-any test k v [] none_found h = cc
get-any test k v ((j, w) ∷ o) none_found h = ground (arith, get-any test k v o)

has_unit : ℕ → Str → Bool
has_unit c [] = false
has_unit c (d ∷ s) = (c == d) || has_unit c s

In-has_unit : (c : ℕ) (s : Str) → has_unit c s ≡ false → ¬ (In c s)
unfolding has_unit
In-has_unit c [] h m = m
In-has_unit c (d ∷ s) h (inl e) = ground arith
In-has_unit c (d ∷ s) h (inr m) = ground (arith, In-has_unit c s (ground arith) m)

renames_no_dot : any (λ e. has_unit 183 e.1) compressor_renames ≡ false
unfolding compressor_renames has_unit
renames_no_dot = refl

-- A display name is empty, or would be renamed.
unsettled : Str → Bool
unsettled s =
    if str_eq s []
    then true
    else if str_eq (or_else (get (to_lower s) compressor_renames) s) s
    then false
    else true

renames_settled : any (λ e. unsettled e.1) compressor_renames ≡ false
unfolding compressor_renames unsettled str_eq or_else get to_lower
renames_settled = refl

display_base-cases :
    (b : Str)
    → (display_base b ≡ b)
      ⊎ ((v : Str) × (get (to_lower b) compressor_renames ≡ some v)
          × (str_eq v [] ≡ false)
          × (display_base b ≡ v))
unfolding display_base
display_base-cases b = elim (Option-cases (get (to_lower b) compressor_renames)) [
  | inl missing ↦ inl (rw missing)
  | inr (v, found) ↦ elim (Bool-cases (str_eq v [])) [
    | inl empty ↦ inl (rw (found, empty))
    | inr full ↦ inr (v, found, full, rw (found, full))
  ]
]

display_base-HasNoDot : (b : Str) → HasNoDot b → HasNoDot (display_base b)
display_base-HasNoDot b h = elim (display_base-cases b) [
  | inl same ↦ rw same h
  | inr (v, found, full, e) ↦
      rw e (In-has_unit 183 v (get-any (has_unit 183) _ v compressor_renames renames_no_dot found))
]

settled : (v : Str) → str_eq v [] ≡ false → unsettled v ≡ false → display_base v ≡ v
unfolding unsettled display_base
settled v full h = (str_eq_iff _ _).0 (ground (arith, full, h))

-- Renaming a display name changes nothing.
pub display_base_idempotent : (b : Str) → display_base (display_base b) ≡ display_base b
display_base_idempotent b = elim (display_base-cases b) [
  | inl same ↦ rw (same, same)
  | inr (v, found, full, e) ↦
      rw e (settled v full (get-any unsettled _ v compressor_renames renames_settled found))
]

split_plain : (b : Str) → HasNoDot b → split_compressor_label b ≡ record { base = b; config = [] }
split_plain b h = split_compressor_label-none b (index_of-none b h)

rename_plain : (b : Str) → HasNoDot b → rename_compressor b ≡ display_base b
unfolding rename_compressor str_eq
rename_plain b h = rw (split_plain b h)

-- If the name of a compressor holds no middle dot, a configuration follows it through renaming: the
-- renamed label splits into the display name of the base and the same configuration.
pub split_compressor_label-rename_compressor :
    (base config : Str)
    → HasNoDot base
    → split_compressor_label (rename_compressor (base ++ label_separator ++ config))
      ≡ record { base = display_base base; config = config }
unfolding rename_compressor
split_compressor_label-rename_compressor base config h =
    rw (split_compressor_label-append base config h) (elim (Bool-cases (str_eq config [])) [
      | inl e ↦ rw e (
          rw ((str_eq_iff config []).0 e)
            (split_plain (display_base base) (display_base-HasNoDot base h)))
      | inr e ↦
          rw e (
            split_compressor_label-append (display_base base) config (display_base-HasNoDot base h))
    ])

-- The colour and the shape of a labelled compressor, also of one that is renamed already, are
-- those of its base.
pub color_shape-rename_compressor :
    (base config : Str)
    → HasNoDot base
    → (get_compressor_color (base ++ label_separator ++ config) ≡ get_compressor_color base)
      × (get_compressor_color (rename_compressor (base ++ label_separator ++ config))
          ≡ get_compressor_color base)
      × (get_compressor_shape (base ++ label_separator ++ config) ≡ get_compressor_shape base)
      × (get_compressor_shape (rename_compressor (base ++ label_separator ++ config))
          ≡ get_compressor_shape base)
unfolding get_compressor_color get_compressor_shape
color_shape-rename_compressor base config h =
    let plain = split_plain base h in
    let whole = split_compressor_label-append base config h in
    let renamed = split_compressor_label-rename_compressor base config h in
    let shown : rename_compressor (display_base base) ≡ rename_compressor base =
      rename_plain (display_base base) (display_base-HasNoDot base h)
      ∙ display_base_idempotent base
      ∙ sym (rename_plain base h) in
    (rw (plain, whole), rw (plain, renamed, shown), rw (plain, whole), rw (plain, renamed, shown))
