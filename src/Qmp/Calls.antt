-- ===== src/Qmp/Calls.antt =====
-- Calls of Execute on a QMPClient (vm/qmp_client.go) that run at the same time, its reader goroutine,
-- and QEMU at the other end of the socket, in any order of their steps. QEMU answers each command once,
-- in the order of the commands, as its protocol documents; which responses answer a command is the
-- parameter `Answers`.
use dvf.Prelude.{List, [], ◌∷◌, ◌++◌, Option, none, some, true, false, ◌≡◌}
use dvf.Qmp.{QmpCommand, QmpResponse, QmpMessage, QmpClient, close, route, is_response, response_of}

pub record Session : Type 0 where
  pub client : QmpClient
  pub calls : List QmpCommand  -- calls of Execute that wait for the mutex
  pub executing : Option QmpCommand  -- the one that has it, and has sent its command
  pub to_qemu : List QmpCommand  -- commands that QEMU has not answered
  pub from_qemu : List QmpMessage  -- messages that the reader has not read
  pub returned : List (QmpCommand × QmpResponse)  -- what each finished call received

abbrev pub connected : QmpClient → Session
connected c = record {
  client = c;
  calls = [];
  executing = none;
  to_qemu = [];
  from_qemu = [];
  returned = [];
}

module _ (Answers : QmpCommand → QmpResponse → Type 0) where
  -- The steps in which each call that has sent its command waits for its response.
  pub data Move (s : Session) : Session → Type 0 where
    enters :
        (cmd : QmpCommand) → s.client.closed ≡ false → Move s (record s { calls = cmd ∷ s.calls })
    sends :
        (before after : List QmpCommand) (cmd : QmpCommand)
        → s.calls ≡ before ++ cmd ∷ after
        → s.executing ≡ none
        → Move s (record s {
          calls = before ++ after;
          executing = some cmd;
          to_qemu = s.to_qemu ++ cmd ∷ [];
        })
    fails_to_send :
        (before after : List QmpCommand) (cmd : QmpCommand)
        → s.calls ≡ before ++ cmd ∷ after
        → s.executing ≡ none
        → Move s (record s { calls = before ++ after })
    replies :
        (cmd : QmpCommand) (rest : List QmpCommand) (msg : QmpMessage)
        → s.to_qemu ≡ cmd ∷ rest
        → is_response msg ≡ true
        → Answers cmd (response_of msg)
        → Move s (record s { to_qemu = rest; from_qemu = s.from_qemu ++ msg ∷ [] })
    notifies :
        (msg : QmpMessage)
        → is_response msg ≡ false
        → Move s (record s { from_qemu = s.from_qemu ++ msg ∷ [] })
    reads :
        (msg : QmpMessage) (rest : List QmpMessage)
        → s.client.done ≡ false
        → s.from_qemu ≡ msg ∷ rest
        → Move s (record s { client = route msg s.client; from_qemu = rest })
    collects :
        (cmd : QmpCommand) (r : QmpResponse)
        → s.executing ≡ some cmd
        → s.client.response_ch ≡ some r
        → Move s (record s {
          client = record s.client { response_ch = none };
          executing = none;
          returned = (cmd, r) ∷ s.returned;
        })
    stops_reading : Move s (record s { client = record s.client { done = true } })
    closes : Move s (record s { client = close s.client })

  -- And those in which a call leaves without one.
  pub data Step (s : Session) : Session → Type 0 where
    moves : {t : Session} → Move s t → Step s t
    expires : (cmd : QmpCommand) → s.executing ≡ some cmd → Step s (record s { executing = none })
    hangs_up :
        (cmd : QmpCommand)
        → s.executing ≡ some cmd
        → s.client.done ≡ true
        → Step s (record s { executing = none })

  pub data Moves (s : Session) : Session → Type 0 where
    here : Moves s s
    later : {t u : Session} → Moves s t → Move t u → Moves s u

  pub data Reach (s : Session) : Session → Type 0 where
    stays : Reach s s
    goes : {t u : Session} → Reach s t → Step t u → Reach s u
