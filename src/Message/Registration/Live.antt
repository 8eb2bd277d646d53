-- ===== src/Message/Registration/Live.antt =====
-- The registration of a client in go-susi/message/registered.go never comes to a halt.
use limux_gosa.Base.{
  Bool, true, false, ◌||◌, List, [], ◌∷◌, ◌++◌, ◌==◌, any, drop_while, if◌then◌else◌, ◌≡◌, refl,
  subst, arith, inl, inr, Bool-cases,
}
use limux_gosa.Base.Text.{Text, codes, text_eq}
use limux_gosa.Message.Registration.{
  Command, register, timeout, confirm_timeout, confirm, Entry, command, registered, deregistered,
  question, Client, push_command, Step, round, wake, arrive, leave, ask, recheck, try_next,
  start_registration, unconfirmed, next_candidate, accepted, ask_again, switch_on, handle,
  new_client,
}

abbrev pub same : Command → Command → Bool
same register register = true
same timeout timeout = true
same confirm_timeout confirm_timeout = true
same confirm confirm = true
same _ _ = false

abbrev pub is_command : Command → Entry → Bool
is_command c (command d) = same c d
is_command c _ = false

-- Whether a string is in the queue or will be.
abbrev pub pending : Command → Client → Bool
pending c s = any (is_command c) s.queue || any (same c) s.timers

-- A client that is not registered will try again, and one that waits for a confirmation will stop to wait.
abbrev pub is_live : Client → Bool
is_live s =
    if s.registration_state == 0
    then pending register s || pending timeout s
    else if s.registration_state == 1
    then pending confirm_timeout s
    else s.registration_state == 2

any-append {ℓ} :
    {A : Type ℓ} (p : A → Bool) (xs ys : List A) → any p (xs ++ ys) ≡ (any p xs || any p ys)
any-append p [] ys = refl
any-append p (x ∷ xs) ys = ground (arith, any-append p xs ys)

push_command-is_live :
    (c : Command) (s : Client) → is_live s ≡ true → is_live (push_command c s) ≡ true
push_command-is_live c s h = ground (
  arith,
  h,
  any-append (is_command register) s.queue (command c ∷ []),
  any-append (is_command timeout) s.queue (command c ∷ []),
  any-append (is_command confirm_timeout) s.queue (command c ∷ []),
)

-- What a round does with each string that this file pushes.
register-is_live :
    (servers_to_try : Text → List Text) (resolve : Text → Text)
    (insert : Entry → List Entry → List Entry) (s : Client)
    → is_live (record s { queue = command register ∷ s.queue }) ≡ true
    → is_live (start_registration servers_to_try resolve insert s) ≡ true
unfolding start_registration
register-is_live servers_to_try resolve insert s h =
    ground (arith, h, any-append (is_command timeout) s.queue (command timeout ∷ []))

confirm_timeout-is_live :
    (servers_to_try : Text → List Text) (resolve : Text → Text)
    (insert : Entry → List Entry → List Entry) (s : Client)
    → is_live (record s { queue = command confirm_timeout ∷ s.queue }) ≡ true
    → is_live (unconfirmed servers_to_try resolve insert s) ≡ true
unfolding unconfirmed
confirm_timeout-is_live servers_to_try resolve insert s h =
    ground (arith, h, any-append (is_command register) s.queue (command register ∷ []))

accepted-is_live :
    (servers_to_try : Text → List Text) (resolve : Text → Text)
    (insert : Entry → List Entry → List Entry) (m : Bool) (s : Client)
    → is_live (accepted servers_to_try resolve insert m s) ≡ true
unfolding accepted
accepted-is_live servers_to_try resolve insert m s = ground arith

ask_again-is_live :
    (servers_to_try : Text → List Text) (resolve : Text → Text)
    (insert : Entry → List Entry → List Entry) (s : Client)
    → is_live s ≡ true
    → is_live (ask_again servers_to_try resolve insert s) ≡ true
unfolding ask_again
ask_again-is_live servers_to_try resolve insert s h =
    ground (arith, h, any-append (same confirm_timeout) s.timers (confirm_timeout ∷ []))

module _ (servers_to_try : Text → List Text) (resolve : Text → Text)
    (insert : Entry → List Entry → List Entry)
    (insert-has : (p : Entry → Bool) (e : Entry) (q : List Entry)
      → any p (insert e q) ≡ (p e || any p q)) where
  try_next-is_live :
      (servers : List Text) (s : Client)
      → (s.registration_state == 0) ≡ true
      → is_live (try_next servers_to_try resolve insert servers s) ≡ true
  unfolding try_next
  try_next-is_live [] s e =
      ground (arith, e, insert-has (is_command register) (command register) s.queue)
  try_next-is_live (server ∷ servers) s e =
      ground (arith, e, any-append (same timeout) s.timers (timeout ∷ []))

  timeout-is_live :
      (s : Client)
      → is_live (record s { queue = command timeout ∷ s.queue }) ≡ true
      → is_live (next_candidate servers_to_try resolve insert s) ≡ true
  unfolding next_candidate
  timeout-is_live s h = elim (Bool-cases (s.registration_state == 0)) [
    | inl e ↦ rw e (try_next-is_live (drop_while (λ server. text_eq server []) s.candidates) s e)
    | inr e ↦ rw e (ground (arith, h, e))
  ]

  -- One more entry, whatever it is.
  more-is_live :
      (e : Entry) (s : Client)
      → is_live s ≡ true
      → is_live (record s { queue = e ∷ s.queue }) ≡ true
  more-is_live e s h = ground (arith, h)

  switch_on-is_live :
      (m : Bool) (r : Text) (s : Client)
      → is_live s ≡ true
      → is_live (switch_on servers_to_try resolve insert m r s) ≡ true
  unfolding switch_on
  switch_on-is_live m r s h = elim (Bool-cases (text_eq r (codes "register"))) [
    | inl a ↦
        rw a
          (register-is_live servers_to_try resolve insert s (more-is_live (command register) s h))
    | inr a ↦ elim (Bool-cases (text_eq r (codes "confirm_timeout"))) [
      | inl b ↦
          rw (a, b)
            (confirm_timeout-is_live servers_to_try resolve insert s
              (more-is_live (command confirm_timeout) s h))
      | inr b ↦ elim (Bool-cases (text_eq r (codes "timeout"))) [
        | inl c ↦ rw (a, b, c) (timeout-is_live s (more-is_live (command timeout) s h))
        | inr c ↦ elim (Bool-cases (text_eq r s.current_server)) [
          | inl d ↦ rw (a, b, c, d) (accepted-is_live servers_to_try resolve insert m s)
          | inr d ↦ elim (Bool-cases (text_eq r (codes "confirm"))) [
            | inl e ↦ rw (a, b, c, d, e) (ask_again-is_live servers_to_try resolve insert s h)
            | inr e ↦ rw (a, b, c, d, e) (push_command-is_live confirm s h)
          ]
        ]
      ]
    ]
  ]

  handle-is_live :
      (e : Entry) (s : Client)
      → is_live (record s { queue = e ∷ s.queue }) ≡ true
      → is_live (handle servers_to_try resolve insert e s) ≡ true
  unfolding handle
  handle-is_live (command register) s h =
      unfold switch_on text_eq in register-is_live servers_to_try resolve insert s h
  handle-is_live (command timeout) s h = unfold switch_on text_eq in timeout-is_live s h
  handle-is_live (command confirm_timeout) s h =
      unfold switch_on text_eq in confirm_timeout-is_live servers_to_try resolve insert s h
  handle-is_live (command confirm) s h =
      switch_on-is_live false (codes "confirm") s (ground (arith, h))
  handle-is_live (registered server) s h = switch_on-is_live true server s (ground (arith, h))
  handle-is_live (deregistered server) s h = elim (Bool-cases (text_eq server s.current_server)) [
    | inl e ↦ rw e (switch_on-is_live true (codes "confirm") s (ground (arith, h)))
    | inr e ↦ rw e (ground (arith, h))
  ]
  handle-is_live question s h = ground (arith, h)

  queued-is_live :
      (e : Entry) (s : Client)
      → is_live s ≡ true
      → is_live (record s { queue = s.queue ++ e ∷ [] }) ≡ true
  queued-is_live e s h = ground (
    arith,
    h,
    any-append (is_command register) s.queue (e ∷ []),
    any-append (is_command timeout) s.queue (e ∷ []),
    any-append (is_command confirm_timeout) s.queue (e ∷ []),
  )

  woken-is_live :
      (s : Client) (before : List Command) (c : Command) (after : List Command)
      → is_live (record s { timers = before ++ c ∷ after }) ≡ true
      → is_live (push_command c (record s { timers = before ++ after })) ≡ true
  woken-is_live s before c after h = ground (
    arith,
    h,
    any-append (is_command register) s.queue (command c ∷ []),
    any-append (is_command timeout) s.queue (command c ∷ []),
    any-append (is_command confirm_timeout) s.queue (command c ∷ []),
    any-append (same register) before (c ∷ after),
    any-append (same timeout) before (c ∷ after),
    any-append (same confirm_timeout) before (c ∷ after),
    any-append (same register) before after,
    any-append (same timeout) before after,
    any-append (same confirm_timeout) before after,
  )

  step-is_live :
      (s t : Client) → Step servers_to_try resolve insert s t → is_live s ≡ true → is_live t ≡ true
  step-is_live _ _ (round s e q eq) h =
      handle-is_live e (record s { queue = q })
        (subst (λ p. is_live (record s { queue = p }) ≡ true) eq h)
  step-is_live _ _ (wake s before c after eq) h =
      woken-is_live s before c after (subst (λ p. is_live (record s { timers = p }) ≡ true) eq h)
  step-is_live _ _ (arrive s server _) h = queued-is_live (registered server) s h
  step-is_live _ _ (leave s server _) h = queued-is_live (deregistered server) s h
  step-is_live _ _ (ask s) h = queued-is_live question s h
  step-is_live _ _ (recheck s) h = queued-is_live (command confirm) s h

  pub data Steps : Client → Client → Type 0 where
    stop : (s : Client) → Steps s s
    go : (s t u : Client) → Step servers_to_try resolve insert s t → Steps t u → Steps s u

  steps-is_live : (s t : Client) → Steps s t → is_live s ≡ true → is_live t ≡ true
  steps-is_live _ _ (stop s) h = h
  steps-is_live _ _ (go s t u step steps) h = steps-is_live t u steps (step-is_live s t step h)

  -- From the start on, whatever comes in and whenever the goroutines wake up, as long as `Insert` adds just
  -- its entry to the queue: a client that is not registered has a "register" or "timeout" in the queue or
  -- in a goroutine that sleeps, and one that waits for a confirmation has a "confirm_timeout" there; there
  -- is no fourth state.
  pub registration-is_live : (t : Client) → Steps new_client t → is_live t ≡ true
  registration-is_live t steps = steps-is_live new_client t steps refl
