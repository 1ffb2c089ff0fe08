-- ===== src/Compressors/Labels.antt =====
-- Splitting a label at the first separator.
use bit_bench.Prelude.{
  ◌≡◌, refl, ◌⊎◌, inl, inr, none, some, [], ◌∷◌, ◌++◌, ℕ, suc, ◌+◌, Str, length, take, drop,
  starts_with, index_of, In, arith, Option-cases, ap, false, ◌∙◌, take-append_self, append_assoc,
  ap₂, index_of-drop,
}
use bit_bench.Compressors.{label_separator, split_compressor_label}

-- No middle dot, the second unit of the separator, stands in the text.
abbrev pub HasNoDot : Str → Type 0
HasNoDot s = ¬ (In 183 s)

starts_with-separator :
    (c : ℕ) (s t : Str)
    → HasNoDot (c ∷ s)
    → starts_with label_separator (c ∷ s ++ label_separator ++ t) ≡ false
unfolding starts_with
starts_with-separator c [] t h = ground arith
starts_with-separator c (d ∷ s) t h = ground (arith, λ (e : 183 ≡ d). h (inr (inl e)))

index_of-separator :
    (s t : Str)
    → HasNoDot s
    → index_of label_separator (s ++ label_separator ++ t) ≡ some (length s)
unfolding index_of starts_with
index_of-separator [] t h = refl
index_of-separator (c ∷ s) t h =
    rw (starts_with-separator c s t h, index_of-separator s t (λ m. h (inr m)))

drop-separator :
    (base config : Str) → drop (length base + 3) (base ++ label_separator ++ config) ≡ config
drop-separator [] config = refl
drop-separator (c ∷ base) config =
    let e : suc (length base) + 3 ≡ suc (length base + 3) = omega arith in
    rw e (drop-separator base config)

pub split_compressor_label-none :
    (name : Str)
    → index_of label_separator name ≡ none
    → split_compressor_label name ≡ record { base = name; config = [] }
unfolding split_compressor_label
split_compressor_label-none name h = rw (h, split_compressor_label)

pub split_compressor_label-some :
    (name : Str) (i : ℕ)
    → index_of label_separator name ≡ some i
    → split_compressor_label name ≡ record { base = take i name; config = drop (i + 3) name }
unfolding split_compressor_label
split_compressor_label-some name i h = rw (h, split_compressor_label)

-- A name without a middle dot and a configuration are recovered from their label.
pub split_compressor_label-append :
    (base config : Str)
    → HasNoDot base
    → split_compressor_label (base ++ label_separator ++ config)
      ≡ record { base = base; config = config }
split_compressor_label-append base config h =
    split_compressor_label-some _ (length base) (index_of-separator base config h)
    ∙ ap₂ (λ b c. record { base = b; config = c })
        (ap (take (length base)) (append_assoc base label_separator config)
          ∙ take-append_self base (label_separator ++ config))
        (drop-separator base config)

-- Whatever the name: without a separator it is the base, with no configuration; with one, the base,
-- the separator and the configuration put together are the name.
pub split_compressor_label_lem :
    (name : Str)
    → ((index_of label_separator name ≡ none)
        × (split_compressor_label name ≡ record { base = name; config = [] }))
      ⊎ ((split_compressor_label name).base
            ++ label_separator
            ++ (split_compressor_label name).config
          ≡ name)
split_compressor_label_lem name = elim (Option-cases (index_of label_separator name)) [
  | inl h ↦ inl (h, split_compressor_label-none name h)
  | inr (i, h) ↦
      inr (rw (split_compressor_label-some name i h) (index_of-drop label_separator name i h))
]

starts_with-separator_plain : (s : Str) → HasNoDot s → starts_with label_separator s ≡ false
unfolding starts_with
starts_with-separator_plain [] h = refl
starts_with-separator_plain (c ∷ []) h = ground arith
starts_with-separator_plain (c ∷ d ∷ s) h = ground (arith, λ (e : 183 ≡ d). h (inr (inl e)))

pub index_of-none : (s : Str) → HasNoDot s → index_of label_separator s ≡ none
unfolding index_of starts_with
index_of-none [] h = refl
index_of-none (c ∷ s) h =
    rw (starts_with-separator_plain (c ∷ s) h, index_of-none s (λ m. h (inr m)))
