-- ===== src/Admin/Users/Laws.antt =====
-- Whom the users page lets manage whom, and when a password is reset.
use bit_bench.Prelude.{
  ◌≤◌, ◌≡◌, ◌↔◌, sym, ap, ◌∙◌, subst, inl, inr, Option, none, some, [], ◌∷◌, Bool, true, false,
  ◌||◌, Str, codes, str_eq, str_eq_iff, length, ltb, In, arith, Bool-cases,
}
use bit_bench.Platforms.{option_eq}
use bit_bench.Admin.Users.{
  Role, student, phd, professor, admin, role_name, role_options, can_manage, User, send,
  reset_password, confirm_password, handle_reset_password,
}

-- A user may be managed exactly when the own role offers the role of that user.
pub can_manage_iff :
    (is_admin : Bool) (u : User)
    → (can_manage is_admin u ≡ true) ↔ In u.role (role_options is_admin)
unfolding can_manage role_options role_name str_eq
can_manage_iff is_admin u = by_role is_admin u.role
  where
    by_role :
        (b : Bool) (r : Role)
        → ((b || str_eq (role_name r) (codes "student") || str_eq (role_name r) (codes "phd"))
            ≡ true)
          ↔ In r (role_options b)
    by_role true student = ground arith
    by_role true phd = ground arith
    by_role true professor = ground arith
    by_role true admin = ground arith
    by_role false student = ground arith
    by_role false phd = ground arith
    by_role false professor = ground arith
    by_role false admin = ground arith

send_inj : (p q : Str) → send (reset_password p) ≡ send (reset_password q) → p ≡ q
send_inj p q h = cc

option_eq-some : (o : Option Str) (p : Str) → (option_eq o (some p) ≡ true) ↔ (o ≡ some p)
unfolding option_eq
option_eq-some none p = ground arith
option_eq-some (some q) p = ground (arith, str_eq_iff q p)

short_iff : (q : Str) → ((str_eq q [] || ltb (length q) 6) ≡ false) ↔ (6 ≤ length q)
unfolding str_eq
short_iff [] = ground arith
short_iff (c ∷ q) = ground arith

confirm_password_iff :
    (q : Str) (confirmed : Option Str) (p : Str)
    → (confirm_password q confirmed ≡ send (reset_password p)) ↔ ((q ≡ p) × (confirmed ≡ some p))
unfolding confirm_password
confirm_password_iff q confirmed p = elim (Bool-cases (option_eq confirmed (some q))) [
  | inl e ↦
      let twice = (option_eq-some confirmed q).0 e in
      rw e (
        (λ h. let same = send_inj q p h in (same, twice ∙ ap some same)),
        (λ h. ap (λ z. send (reset_password z)) h.0),
      )
  | inr e ↦ rw e (
    (λ h. cc h),
    (λ h.
        let twice = (option_eq-some confirmed q).1 (h.1 ∙ ap some (sym h.0)) in
        absurd (cc (e, twice))),
  )
]

-- A request to reset a password is sent exactly where the new password has at least six units and
-- was entered twice; it carries this password.
pub handle_reset_password_iff :
    (entered confirmed : Option Str) (p : Str)
    → (handle_reset_password entered confirmed ≡ send (reset_password p))
      ↔ ((entered ≡ some p) × (confirmed ≡ some p) × (6 ≤ length p))
unfolding handle_reset_password
handle_reset_password_iff none confirmed p = ground arith
handle_reset_password_iff (some q) confirmed p =
    let (to, from) = confirm_password_iff q confirmed p in
    elim (Bool-cases (str_eq q [] || ltb (length q) 6)) [
      | inl e ↦ rw e (
        (λ h. cc h),
        (λ h.
            let same : p ≡ q = cc (h.0) in
            let long = (short_iff q).1 (subst (λ z. 6 ≤ length z) same h.2) in
            absurd (cc (e, long))),
      )
      | inr e ↦ rw e (
        (λ h.
            let (same, twice) = to h in
            (ap some same, twice, subst (λ z. 6 ≤ length z) same ((short_iff q).0 e))),
        (λ h. from (cc (h.0), h.1)),
      )
    ]
