-- ===== src/Message/Registration.antt =====
-- go-susi/message/registered.go: how a client registers at a server, and stays registered.
pub mod Live
pub mod Tests
use limux_gosa.Base.{
  ℕ, Bool, true, false, not, List, [], ◌∷◌, ◌++◌, ◌==◌, any, drop_while, if◌then◌else◌, ◌≡◌,
}
use limux_gosa.Base.Text.{Text, codes, text_eq}

-- The strings that this file pushes into `registrationQueue`.
pub data Command : Type 0 where
  register : Command
  timeout : Command
  confirm_timeout : Command
  confirm : Command

abbrev pub command_text : Command → Text
command_text register = codes "register"
command_text timeout = codes "timeout"
command_text confirm_timeout = codes "confirm_timeout"
command_text confirm = codes "confirm"

-- What is in the queue: a string, a message "registered" or "deregistered" with its source, or the channel of
-- `CurrentRegistrationServer`.
pub data Entry : Type 0 where
  command : Command → Entry
  registered : Text → Entry
  deregistered : Text → Entry
  question : Entry

pub record Client : Type 0 where
  pub queue : List Entry
  -- the goroutines that sleep, by what they push afterwards
  pub timers : List Command
  -- 0: not registered, 1: waiting for a confirmation, 2: registered
  pub registration_state : ℕ
  pub current_server : Text
  -- `serverList` behind `indexInList`
  pub candidates : List Text
  -- the calls of `Send_here_i_am` and of `CallRegisteredHook`, and the replies to questions
  pub here_i_am : List Text
  pub hooks : List Text
  pub replies : List Text
  -- whether a type assertion has ended the goroutine
  pub panicked : Bool

abbrev pub push_command : Command → Client → Client
push_command c s = record s { queue = s.queue ++ command c ∷ [] }

-- The start of `RegistrationHandler`.
abbrev pub new_client : Client
new_client = record {
  queue = command register ∷ [];
  timers = [];
  registration_state = 0;
  current_server = [];
  candidates = [];
  here_i_am = [];
  hooks = [];
  replies = [];
  panicked = false;
}

-- `serversToTry`, `util.Resolve`, and `registrationQueue.Insert`.
module _ (servers_to_try : Text → List Text) (resolve : Text → Text)
    (insert : Entry → List Entry → List Entry) where
  -- The next candidate, or a new start.
  unfoldable pub try_next : List Text → Client → Client
  try_next [] s = record s { candidates = []; queue = insert (command register) s.queue }
  try_next (server ∷ candidates) s = record s {
    candidates = candidates;
    current_server = resolve server;
    here_i_am = s.here_i_am ++ resolve server ∷ [];
    timers = s.timers ++ timeout ∷ [];
  }

  -- `case "register"`
  unfoldable pub start_registration : Client → Client
  start_registration s =
      if s.registration_state == 0
      then push_command timeout
          (record s { candidates = servers_to_try s.current_server; current_server = [] })
      else s

  -- `case "confirm_timeout"`
  unfoldable pub unconfirmed : Client → Client
  unconfirmed s =
      if s.registration_state == 1
      then push_command register (record s { registration_state = 0 })
      else s

  -- `case "timeout"`
  unfoldable pub next_candidate : Client → Client
  unfolding try_next
  next_candidate s =
      let tried = try_next (drop_while (λ server. text_eq server []) s.candidates) s in
      if s.registration_state == 0 then tried else s

  -- `case currentServer`; the flag says that the entry is a message.
  unfoldable pub accepted : Bool → Client → Client
  accepted is_message s = if s.registration_state == 2 then s else record s {
    registration_state = 2;
    hooks = s.hooks ++ s.current_server ∷ [];
    panicked = not is_message;
  }

  -- `case "confirm"`
  unfoldable pub ask_again : Client → Client
  ask_again s =
      if s.registration_state == 2
      then record s {
        registration_state = 1;
        here_i_am = s.here_i_am ++ s.current_server ∷ [];
        timers = s.timers ++ confirm_timeout ∷ [];
      }
      else s

  -- `switch r`
  unfoldable pub switch_on : Bool → Text → Client → Client
  unfolding start_registration unconfirmed next_candidate accepted ask_again
  switch_on is_message r s =
      if text_eq r (codes "register")
      then start_registration s
      else if text_eq r (codes "confirm_timeout")
      then unconfirmed s
      else if text_eq r (codes "timeout")
      then next_candidate s
      else if text_eq r s.current_server
      then accepted is_message s
      else if text_eq r (codes "confirm")
      then ask_again s
      else push_command confirm s

  -- One round of `RegistrationHandler`, for the entry that it has taken from the queue.
  unfoldable pub handle : Entry → Client → Client
  unfolding switch_on
  handle (command c) s = switch_on false (command_text c) s
  handle (registered server) s = switch_on true server s
  handle (deregistered server) s =
      if text_eq server s.current_server then switch_on true (codes "confirm") s else s
  handle question s = record s {
    replies = s.replies ++ (if s.registration_state == 0 then [] else s.current_server) ∷ [];
  }

  -- A round, a goroutine that wakes up, and what others push into the queue.
  pub data Step : Client → Client → Type 0 where
    round :
        (s : Client) (e : Entry) (q : List Entry)
        → s.queue ≡ e ∷ q
        → Step s (handle e (record s { queue = q }))
    wake :
        (s : Client) (before : List Command) (c : Command) (after : List Command)
        → s.timers ≡ before ++ c ∷ after
        → Step s (push_command c (record s { timers = before ++ after }))
    arrive :
        (s : Client) (server : Text)
        → text_eq server [] ≡ false
        → Step s (record s { queue = s.queue ++ registered server ∷ [] })
    leave :
        (s : Client) (server : Text)
        → text_eq server [] ≡ false
        → Step s (record s { queue = s.queue ++ deregistered server ∷ [] })
    ask : (s : Client) → Step s (record s { queue = s.queue ++ question ∷ [] })
    recheck : (s : Client) → Step s (push_command confirm s)
