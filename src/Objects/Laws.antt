-- ===== src/Objects/Laws.antt =====
-- Reading after writing, and the keys of an object.
use bit_bench.Prelude.{
  subst, ap, Option, All, str_eq_refl, ◌≡◌, refl, ◌⊎◌, inl, inr, Option, none, some, [], ◌∷◌, Str,
  str_eq, str_eq_iff, if◌then◌else◌, In, arith, Bool-cases, sym,
}
use bit_bench.Objects.{Object, keys, get, put, IsObject}

abbrev value_or : {A : Type 0} → A → Option A → A
value_or d none = d
value_or d (some v) = v

module _ {A : Type 0} where
  pub get-put :
      (j k : Str) (v : A) (o : Object A)
      → get j (put k v o) ≡ (if str_eq j k then some v else get j o)
  unfolding get put
  get-put j k v [] = refl
  get-put j k v ((i, w) ∷ o) =
      ground (arith, get-put j k v o, str_eq_iff j k, str_eq_iff k i, str_eq_iff j i)

  pub In-keys_of_get : (k : Str) (o : Object A) (v : A) → get k o ≡ some v → In k (keys o)
  unfolding get
  In-keys_of_get k [] v h = cc
  In-keys_of_get k ((j, w) ∷ o) v h = elim (Bool-cases (str_eq k j)) [
    | inl e ↦ inl ((str_eq_iff k j).0 e)
    | inr e ↦ inr (In-keys_of_get k o v (rw e at h))
  ]

  pub get-none : (k : Str) (o : Object A) → ¬ (In k (keys o)) → get k o ≡ none
  unfolding get
  get-none k [] h = refl
  get-none k ((j, w) ∷ o) h = elim (Bool-cases (str_eq k j)) [
    | inl e ↦ absurd (h (inl ((str_eq_iff k j).0 e)))
    | inr e ↦ rw e (get-none k o (λ m. h (inr m)))
  ]

  pub keys-put :
      (k : Str) (v : A) (o : Object A) (j : Str) → In j (keys (put k v o)) → (j ≡ k) ⊎ In j (keys o)
  unfolding put
  keys-put k v [] j (inl e) = inl e
  keys-put k v [] j (inr h) = inr h
  keys-put k v ((i, w) ∷ o) j h = elim (Bool-cases (str_eq k i)) [
    | inl e ↦ inr (rw e at h)
    | inr e ↦ elim (let h' : (j ≡ i) ⊎ In j (keys (put k v o)) = rw e at h in h') [
      | inl p ↦ inr (inl p)
      | inr m ↦ elim (keys-put k v o j m) [ inl q ↦ inl q | inr r ↦ inr (inr r) ]
    ]
  ]

  -- A write keeps every key single.
  pub put-IsObject : (k : Str) (v : A) (o : Object A) → IsObject o → IsObject (put k v o)
  unfolding put
  put-IsObject k v [] h = ((λ m. m), tt)
  put-IsObject k v ((i, w) ∷ o) (new, h) = elim (Bool-cases (str_eq k i)) [
    | inl e ↦ rw e (new, h)
    | inr e ↦ rw e (
      (λ m. elim (keys-put k v o i m) [ inl p ↦ cc ((str_eq_iff k i).1 (sym p)) | inr r ↦ new r ]),
      put-IsObject k v o h,
    )
  ]

  -- Every entry of an object is found under its key.
  pub entries_found :
      (all o : Object A)
      → IsObject o
      → ((k : Str) → In k (keys o) → get k all ≡ get k o)
      → All (λ e. get e.0 all ≡ some e.1) o
  unfolding get
  entries_found all [] h same = tt
  entries_found all ((k, v) ∷ o) (new, h) same = (
    rw (str_eq_refl k) at (same k (inl refl)),
    entries_found all o h (λ j m. elim (Bool-cases (str_eq j k)) [
      | inl e ↦ absurd (new (rw ((str_eq_iff j k).0 e) at m))
      | inr e ↦ rw e at (same j (inr m))
    ]),
  )

  -- A key of an object is found.
  pub get_of_In : (k : Str) (o : Object A) → In k (keys o) → (v : A) × (get k o ≡ some v)
  unfolding get
  get_of_In k ((j, v) ∷ o) m = elim (Bool-cases (str_eq k j)) [
    | inl e ↦ (v, rw e)
    | inr e ↦ rw e (get_of_In k o (elim m [ inl p ↦ cc (e, (str_eq_iff k j).1 p) | inr r ↦ r ]))
  ]
  get_of_In k [] m = elim m [ ]

  -- What holds of every entry holds of one that is looked up.
  pub All-get :
      (P : Str × A → Type 0) (k : Str) (o : Object A) (v : A)
      → All P o
      → get k o ≡ some v
      → P (k, v)
  unfolding get
  All-get P k [] v h e = cc
  All-get P k ((j, w) ∷ o) v (here, h) e = elim (Bool-cases (str_eq k j)) [
    | inl s ↦
        let q : some w ≡ some v = rw s at e in
        subst P (λ i. (sym ((str_eq_iff k j).0 s) i, ap (value_or w) q i)) here
    | inr s ↦ All-get P k o v h (rw s at e)
  ]
