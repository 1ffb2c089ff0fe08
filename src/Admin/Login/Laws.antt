-- ===== src/Admin/Login/Laws.antt =====
-- Whom the login lets into the administration.
use bit_bench.Prelude.{
  ℕ, ◌≡◌, ◌⊎◌, refl, ap, ◌∙◌, subst, inl, inr, Option, none, some, [], Bool, true, false, Str,
  codes, str_eq, str_eq_iff, if◌then◌else◌, arith, Bool-cases,
}
use bit_bench.Api.{Response, is_ok}
use bit_bench.Platforms.{option_eq}
use bit_bench.Session.{
  Claims, claims_from_token, get_role, is_current, is_authenticated, is_staff_authenticated,
  is_staff_authenticated_iff,
}
use bit_bench.Admin.Login.{LoginState, check_role, try_login, begin_login, end_login, handle_login}

module _ (error_of : Str → Option Str) (token_of : Str → Option Str) (decode : Str → Option Claims)
    (failure : Str → Str) where
  -- The token is that of a member of the staff.
  abbrev pub IsStaffToken : Option Str → Type 0
  IsStaffToken token =
      (text : Str) × (claims : Claims) × (token ≡ some text)
      × (decode text ≡ some claims)
      × ((claims.role ≡ some (codes "admin")) ⊎ (claims.role ≡ some (codes "professor")))

  is_role : (role : Option Str) (name : Str) → option_eq role (some name) ≡ true → role ≡ some name
  unfolding option_eq
  is_role none name h = cc
  is_role (some s) name h = ap some ((str_eq_iff s name).0 h)

  -- Where the page is left for the users, the token is that of a member of the staff.
  abbrev LetsStaffIn : LoginState → Type 0
  LetsStaffIn s = s.at_users ≡ true → IsStaffToken s.token

  check_role-LetsStaffIn :
      (token : Str) (claims : Claims) (s : LoginState)
      → decode token ≡ some claims
      → s.at_users ≡ false
      → LetsStaffIn (check_role error_of token_of decode failure token claims.role s)
  unfolding check_role
  check_role-LetsStaffIn token claims s known outside =
      elim (Bool-cases (option_eq claims.role (some (codes "admin")))) [
        | inl a ↦
            rw a (λ h. (token, claims, refl, known, inl (is_role claims.role (codes "admin") a)))
        | inr a ↦ elim (Bool-cases (option_eq claims.role (some (codes "professor")))) [
          | inl b ↦
              rw (a, b)
                (λ h. (token, claims, refl, known, inr (is_role claims.role (codes "professor") b)))
          | inr b ↦ rw (a, b) (λ h. absurd (cc (h, outside)))
        ]
      ]

  try_login-LetsStaffIn :
      (r : Response) (s : LoginState)
      → s.at_users ≡ false
      → LetsStaffIn (try_login error_of token_of decode failure r s)
  unfolding try_login
  try_login-LetsStaffIn r s outside = elim (Bool-cases (is_ok r.status)) [
    | inr e ↦ rw e (λ h. absurd (cc (h, outside)))
    | inl e ↦ rw e (with_token (token_of r.body))
  ]
    where
      with_claims :
          (token : Str) (found : Option Claims)
          → decode token ≡ found
          → LetsStaffIn (elim found [
            | none ↦ record s { error = failure r.body }
            | some claims ↦ check_role error_of token_of decode failure token claims.role s
          ])
      with_claims token none known h = absurd (cc (h, outside))
      with_claims token (some claims) known h =
          check_role-LetsStaffIn token claims s known outside h

      with_token :
          (token : Option Str)
          → LetsStaffIn (elim token [
            | none ↦ record s { error = failure r.body }
            | some token ↦ elim (decode token) [
              | none ↦ record s { error = failure r.body }
              | some claims ↦ check_role error_of token_of decode failure token claims.role s
            ]
          ])
      with_token none h = absurd (cc (h, outside))
      with_token (some token) h = with_claims token (decode token) refl h

  empty_token :
      (text : Str) (now : ℕ)
      → str_eq text [] ≡ true
      → is_authenticated decode (some text) now ≡ false
  unfolding claims_from_token is_authenticated
  empty_token text now e =
      ap
        (λ (b : Bool). (elim (if b then none else decode text) [
          | none ↦ false
          | some claims ↦ is_current claims.exp now
        ]))
        e

  claims_from_current :
      (text : Str) (now : ℕ)
      → is_authenticated decode (some text) now ≡ true
      → claims_from_token decode (some text) ≡ decode text
  unfolding claims_from_token is_authenticated
  claims_from_current text now valid = elim (Bool-cases (str_eq text [])) [
    | inl e ↦ absurd (cc (empty_token text now e, valid))
    | inr e ↦ rw e refl
  ]

  role_of :
      (text : Str) (claims : Claims)
      → claims_from_token decode (some text) ≡ some claims
      → get_role decode (some text) ≡ claims.role
  unfolding get_role
  role_of text claims known =
      ap (λ (found : Option Claims). elim found [ none ↦ none | some c ↦ c.role ]) known

  has_role :
      (token : Option Str) (now : ℕ)
      → IsStaffToken token
      → is_authenticated decode token now ≡ true
      → (get_role decode token ≡ some (codes "admin"))
        ⊎ (get_role decode token ≡ some (codes "professor"))
  has_role token now (text, claims, its_token, known, role) valid =
      let valid_text = subst (λ t. is_authenticated decode t now ≡ true) its_token valid in
      let its_role : get_role decode token ≡ claims.role =
        ap (get_role decode) its_token
        ∙ role_of text claims (claims_from_current text now valid_text ∙ known) in
      elim role [ inl a ↦ inl (its_role ∙ a) | inr b ↦ inr (its_role ∙ b) ]

  same_test : (a b : Bool) → (a ≡ true → b ≡ true) → (b ≡ true → a ≡ true) → a ≡ b
  same_test a b p q = ground (arith, p, q)

  staff_token :
      (token : Option Str) (now : ℕ)
      → IsStaffToken token
      → is_staff_authenticated decode token now ≡ is_authenticated decode token now
  staff_token token now staff =
      same_test (is_staff_authenticated decode token now) (is_authenticated decode token now)
        (λ h. ((is_staff_authenticated_iff decode token now).0 h).0)
        (λ h. (is_staff_authenticated_iff decode token now).1 (h, has_role token now staff h))

  -- A login that leaves the page for the users has stored a token of a member of the staff: as long
  -- as it admits to the frontend, it admits to the administration.
  pub handle_login-is_staff_authenticated :
      (r : Response) (s : LoginState) (now : ℕ)
      → s.at_users ≡ false
      → (handle_login error_of token_of decode failure r s).at_users ≡ true
      → let token = (handle_login error_of token_of decode failure r s).token in
        is_staff_authenticated decode token now ≡ is_authenticated decode token now
  unfolding handle_login begin_login end_login
  handle_login-is_staff_authenticated r s now outside inside =
      staff_token (handle_login error_of token_of decode failure r s).token now
        (try_login-LetsStaffIn r (begin_login error_of token_of decode failure s) outside inside)
