-- ===== src/Message/Registration/Tests.antt =====
-- A client that registers, for go-susi/message/registered.go.
use limux_gosa.Base.{true, List, [], ◌∷◌, ◌≡◌, refl}
use limux_gosa.Base.Text.{Text, codes, text_eq}
use limux_gosa.Message.Registration.{
  Client, Entry, round, command, register, timeout, registered, handle, new_client,
}
use limux_gosa.Message.Registration.Live.{Steps, stop, go, is_live, registration-is_live}

abbrev servers : Text → List Text
servers current = current ∷ codes "10.0.0.1:20081" ∷ []

abbrev same_text : Text → Text
same_text s = s

abbrev in_front : Entry → List Entry → List Entry
in_front e q = e ∷ q

-- The first round has emptied the server and put the candidates in place; the second one asks the first of
-- them.
abbrev first : Client
first = handle servers same_text in_front (command register) (record new_client { queue = [] })

abbrev second : Client
second = handle servers same_text in_front (command timeout) (record first { queue = [] })

asked_run : (second.here_i_am ≡ codes "10.0.0.1:20081" ∷ []) × (second.timers ≡ timeout ∷ [])
unfolding handle text_eq
asked_run = (refl, refl)

registered_run :
    (handle servers same_text in_front
      (registered (codes "10.0.0.1:20081"))
      second).registration_state
    ≡ 2
unfolding handle text_eq
registered_run = refl

registration_steps : Steps servers same_text in_front (λ p e q. refl) new_client second
unfolding handle text_eq
registration_steps =
    go new_client first second (round new_client (command register) [] refl)
      (go first second second (round first (command timeout) [] refl) (stop second))

registration_example : is_live second ≡ true
registration_example =
    registration-is_live servers same_text in_front (λ p e q. refl) second registration_steps
