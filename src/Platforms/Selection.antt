-- ===== src/Platforms/Selection.antt =====
-- Which selected packages the emulation warning lists.
use bit_bench.Prelude.{
  ◌≡◌, refl, ◌↔◌, ◌≢◌, inl, inr, Option, none, some, List, [], ◌∷◌, true, false, Str, In, has,
  has_iff, str_eq, str_eq_iff, arith, Bool-cases, Option-cases, AllDistinct, sym, ◌∙◌,
}
use bit_bench.Objects.{Object, get}
use bit_bench.Platforms.{
  option_eq, normalize_platform, is_emulated, Emulated, emulated_from, emulated_selection,
}
use bit_bench.Platforms.Laws.{is_emulated_iff}

abbrev pub names : List Emulated → List Str
names [] = []
names (e ∷ es) = e.name ∷ names es

same_platform_iff : (s t : Option Str) → (option_eq s t ≡ true) ↔ (s ≡ t)
unfolding option_eq
same_platform_iff none none = ground arith
same_platform_iff none (some t) = ground arith
same_platform_iff (some s) none = ground arith
same_platform_iff (some s) (some t) = ground (arith, str_eq_iff s t)

module _ (packages : Object Str) (host : Option Str) where
  -- The package's platform is known, and is not the host's normalized platform.
  abbrev pub IsForeign : Str → Type 0
  IsForeign name =
      (normalize_platform (get name packages) ≢ none)
      × (normalize_platform (get name packages) ≢ normalize_platform host)

  -- What one round of the loop does.
  data Round (seen : List Str) (name : Str) (rest : List Str) : Type 0 where
    skipped :
        ¬ (IsForeign name × ¬ (In name seen))
        → emulated_from seen (name ∷ rest) packages host ≡ emulated_from seen rest packages host
        → Round seen name rest
    listed :
        (p : Str)
        → IsForeign name
        → ¬ (In name seen)
        → emulated_from seen (name ∷ rest) packages host
          ≡ record { name = name; platform = p } ∷ emulated_from (name ∷ seen) rest packages host
        → Round seen name rest

  round : (seen : List Str) (name : Str) (rest : List Str) → Round seen name rest
  unfolding emulated_from
  round seen name rest = elim (Option-cases (normalize_platform (get name packages))) [
    | inl e ↦ skipped (λ ((known, _), _). known e) (rw (e, emulated_from))
    | inr (p, e) ↦ elim (Bool-cases (option_eq (some p) (normalize_platform host))) [
      | inl same ↦
          skipped (λ ((_, other), _). other (e ∙ (same_platform_iff _ _).0 same))
            (rw (e, emulated_from, same))
      | inr other ↦ elim (Bool-cases (has name seen)) [
        | inl old ↦
            skipped (λ (_, new). new ((has_iff name seen).0 old))
              (rw (e, emulated_from, other, old))
        | inr new ↦
            listed p
              (
                (λ n. cc (e, n)),
                (λ n.
                    cc (
                      other,
                      (same_platform_iff (some p) (normalize_platform host)).1 (sym e ∙ n),
                    )),
              )
              (λ m. cc (new, (has_iff name seen).1 m)) (rw (e, emulated_from, other, new))
      ]
    ]
  ]

  -- The names listed by the loop.
  In-emulated_from :
      (k : Str) (seen selected : List Str)
      → In k (names (emulated_from seen selected packages host))
        ↔ (In k selected × IsForeign k × (¬ (In k seen)))
  In-emulated_from k seen [] =
      ((λ m. absurd (let n : ⊥ = unfold emulated_from in m in n)), (λ h. absurd h.0))
  In-emulated_from k seen (x ∷ rest) = elim (round seen x rest) [
    | skipped not_new e ↦
        let (to, from) = In-emulated_from k seen rest in
        rw e (
          (λ m. let (m', w, new) = to m in (inr m', w, new)),
          (λ (m, w, new). elim m [
            | inl same ↦ absurd (not_new (rw same at w, rw same at new))
            | inr later ↦ from (later, w, new)
          ]),
        )
    | listed p foreign new e ↦
        let (to, from) = In-emulated_from k (x ∷ seen) rest in
        rw e (
          (λ m. elim m [
            | inl same ↦ (inl same, rw same foreign, rw same new)
            | inr later ↦ let (m', w, fresh) = to later in (inr m', w, (λ s. fresh (inr s)))
          ]),
          (λ (m, w, fresh). elim (Bool-cases (str_eq k x)) [
            | inl same ↦ inl ((str_eq_iff k x).0 same)
            | inr other ↦ inr (
                from (
                  elim m [ inl same ↦ cc (other, (str_eq_iff k x).1 same) | inr later ↦ later ],
                  w,
                  (λ s. elim s [
                    | inl same ↦ cc (other, (str_eq_iff k x).1 same)
                    | inr old ↦ fresh old
                  ]),
                ))
          ]),
        )
  ]

  emulated_from-AllDistinct :
      (seen selected : List Str) → AllDistinct (names (emulated_from seen selected packages host))
  emulated_from-AllDistinct seen [] = unfold emulated_from in tt
  emulated_from-AllDistinct seen (x ∷ rest) = elim (round seen x rest) [
    | skipped _ e ↦ rw e (emulated_from-AllDistinct seen rest)
    | listed p foreign new e ↦ rw e (
      (λ m. ((In-emulated_from x (x ∷ seen) rest).0 m).2 (inl refl)),
      emulated_from-AllDistinct (x ∷ seen) rest,
    )
  ]

  -- The warning lists each name once, and it lists exactly the selected packages whose platform is
  -- known and is not the normalized platform of the host.
  pub emulated_selection_iff :
      (selected : List Str)
      → AllDistinct (names (emulated_selection selected packages host))
        × ((k : Str)
            → In k (names (emulated_selection selected packages host))
              ↔ (In k selected × IsForeign k))
  unfolding emulated_selection
  emulated_selection_iff selected = (
    emulated_from-AllDistinct [] selected,
    (λ k.
        let (to, from) = In-emulated_from k [] selected in
        ((λ m. let (m', w, _) = to m in (m', w)), (λ (m, w). from (m, w, (λ n. n))))),
  )

  -- Where the host's platform is unknown, the warning lists every selected package of a known
  -- platform, though none of them counts as emulated.
  pub emulated_selection_unknown_host :
      (selected : List Str) (k : Str)
      → normalize_platform host ≡ none
      → In k selected
      → normalize_platform (get k packages) ≢ none
      → In k (names (emulated_selection selected packages host))
        × (is_emulated (get k packages) host ≡ false)
  emulated_selection_unknown_host selected k unknown at known = (
    ((emulated_selection_iff selected).1 k).1 (at, (known, (λ e. known (e ∙ unknown)))),
    elim (Bool-cases (is_emulated (get k packages) host)) [
      | inl shown ↦ absurd (((is_emulated_iff (get k packages) host).0.0 shown).1 unknown)
      | inr e ↦ e
    ],
  )
