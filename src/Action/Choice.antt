-- ===== src/Action/Choice.antt =====
-- Which action the switch of go-susi/action/process_act.go chooses for a header, told from the action.
use limux_gosa.Base.{
  Bool, true, false, not, Option, none, some, List, [], ◌∷◌, All, ◌≡◌, refl, sym, subst, ◌⊎◌, inl,
  inr, Bool-cases,
}
use limux_gosa.Base.Text.{Text, codes, text_eq, text_eq_iff}
use limux_gosa.Action.{
  Act, send_user_msg, wake, lock, localboot, halt, reboot, faireboot, activate, update, reinstall,
  is_one_of, cases, choose,
}

-- The headers that ask for an action.
abbrev pub headers_of : Act → List Text
headers_of send_user_msg = codes "send_user_msg" ∷ []
headers_of wake = codes "trigger_action_wake" ∷ codes "deregistered" ∷ []
headers_of lock = codes "trigger_action_lock" ∷ []
headers_of localboot = codes "trigger_action_localboot" ∷ []
headers_of halt = codes "trigger_action_halt" ∷ []
headers_of reboot = codes "trigger_action_reboot" ∷ []
headers_of faireboot = codes "trigger_action_faireboot" ∷ []
headers_of activate = codes "trigger_action_activate" ∷ codes "set_activated_for_installation" ∷ []
headers_of update = codes "trigger_action_update" ∷ []
headers_of reinstall = codes "trigger_action_reinstall" ∷ []

-- The headers of the jobs that are kept, since they go on.
abbrev pub kept_headers : List Text
kept_headers =
    codes "deregistered" ∷ codes "trigger_action_update" ∷ codes "trigger_action_reinstall" ∷ []

-- The action for a header, or none where there is none, and whether its job is over with it.
abbrev pub IsChoice : Text → Option Act × Bool → Type 0
IsChoice h (some act, done) =
    (is_one_of h (headers_of act) ≡ true) × (done ≡ not (is_one_of h kept_headers))
IsChoice h (none, done) =
    ((act : Act) → is_one_of h (headers_of act) ≡ false) × (done ≡ not (is_one_of h kept_headers))

abbrev IsEntry : Text × Option Act × Bool → Type 0
IsEntry (label, act, done) = IsChoice label (act, done)

choose_cases :
    (t : List (Text × Option Act × Bool)) (h : Text)
    → All IsEntry t
    → (All (λ c. text_eq h c.0 ≡ false) t × (choose t h ≡ (none, true))) ⊎ IsChoice h (choose t h)
unfolding choose
choose_cases [] h p = inl (tt, refl)
choose_cases ((label, act, done) ∷ t) h (p, ps) = elim (Bool-cases (text_eq h label)) [
  | inl e ↦ inr (rw e (subst (λ x. IsChoice x (act, done)) (sym ((text_eq_iff h label).0 e)) p))
  | inr e ↦ elim (choose_cases t h ps) [
    | inl (ns, f) ↦ inl (rw e ((refl, ns), f))
    | inr q ↦ inr (rw e q)
  ]
]

no_act : (act : Act) → is_one_of (codes "trigger_action_audit") (headers_of act) ≡ false
unfolding text_eq
no_act send_user_msg = refl
no_act wake = refl
no_act lock = refl
no_act localboot = refl
no_act halt = refl
no_act reboot = refl
no_act faireboot = refl
no_act activate = refl
no_act update = refl
no_act reinstall = refl

infixr 3 ◌&◌
abbrev ◌&◌ : {A B : Type 0} → A → B → A × B
p & q = (p, q)

cases-IsChoice : All IsEntry cases
unfolding text_eq
cases-IsChoice =
    (refl, refl)
    & (refl, refl)
    & (refl, refl)
    & (refl, refl)
    & (refl, refl)
    & (refl, refl)
    & (refl, refl)
    & (refl, refl)
    & (refl, refl)
    & (refl, refl)
    & (refl, refl)
    & (refl, refl)
    & (no_act, refl)
    & tt

unknown-IsChoice : (h : Text) → All (λ c. text_eq h c.0 ≡ false) cases → IsChoice h (none, true)
unknown-IsChoice h
      (msg, (wk, (gone, (lk, (lb, (hl, (rb, (fb, (sa, (ac, (up, (re, (au, _))))))))))))) =
    (
      λ act. elim act as (λ k. is_one_of h (headers_of k) ≡ false) [
        | send_user_msg ↦ rw msg refl
        | wake ↦ rw (wk, gone) refl
        | lock ↦ rw lk refl
        | localboot ↦ rw lb refl
        | halt ↦ rw hl refl
        | reboot ↦ rw rb refl
        | faireboot ↦ rw fb refl
        | activate ↦ rw (ac, sa) refl
        | update ↦ rw up refl
        | reinstall ↦ rw re refl
      ],
      rw (gone, up, re) refl,
    )

pub choose-IsChoice : (h : Text) → IsChoice h (choose cases h)
choose-IsChoice h = elim (choose_cases cases h cases-IsChoice) [
  | inl (ns, e) ↦ subst (λ c. IsChoice h c) (sym e) (unknown-IsChoice h ns)
  | inr q ↦ q
]
