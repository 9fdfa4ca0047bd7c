-- ===== src/Qmp/Tests.antt =====
-- One call of Execute, and two of which the first gives up (vm/qmp_client.go).
use dvf.Prelude.{◌≡◌, refl, [], ◌∷◌, none, some}
use dvf.Qmp.{QmpCommand, QmpResponse, QmpMessage, new_qmp_client, route, response_of}
use dvf.Qmp.Calls.{
  Session, connected, Moves, enters, sends, replies, reads, collects, here, later, Reach,
}
use dvf.Qmp.Answers.{IsCalm, Moves-IsCalm, stale_answer}

abbrev query : QmpCommand
query = record { execute = "query-status"; arguments = none }

abbrev powerdown : QmpCommand
powerdown = record { execute = "system_powerdown"; arguments = none }

abbrev running : QmpMessage
running = record {
  qmp = none;
  result = some "{\"running\": true}";
  error = none;
  event = "";
  payload = none;
  timestamp = none;
}

-- The response above answers query-status alone.
abbrev Answers : QmpCommand → QmpResponse → Type 0
Answers cmd r = (cmd ≡ query) × (r ≡ response_of running)

abbrev done_session : Session
done_session = record (connected (new_qmp_client "/tmp/vm-1.sock")) {
  returned = (query, response_of running) ∷ [];
}

done_session-Moves : Moves Answers (connected (new_qmp_client "/tmp/vm-1.sock")) done_session
unfolding route
done_session-Moves =
    later
      (later
        (later (later (later here (enters query refl)) (sends [] [] query refl refl))
          (replies query [] running refl refl (refl, refl)))
        (reads running [] refl refl))
      (collects query (response_of running) refl refl)

Moves-IsCalm_example : IsCalm Answers done_session
Moves-IsCalm_example = Moves-IsCalm Answers "/tmp/vm-1.sock" done_session done_session-Moves

stale_answer_example :
    (s : Session) × Reach Answers (connected (new_qmp_client "/tmp/vm-1.sock")) s
    × (s.returned ≡ (powerdown, response_of running) ∷ [])
stale_answer_example =
    stale_answer Answers "/tmp/vm-1.sock" query powerdown running refl (refl, refl)
