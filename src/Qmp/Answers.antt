-- ===== src/Qmp/Answers.antt =====
-- Which response a call of Execute (vm/qmp_client.go) receives.
use dvf.Prelude.{◌≤◌, ◌≡◌, refl, ◌∙◌, String, List, [], ◌∷◌, ◌++◌, true, arith, length, All}
use dvf.Qmp.{
  QmpCommand, QmpResponse, QmpMessage, QmpClient, is_response, response_of, close, new_qmp_client,
}
use dvf.Qmp.Reader.{route_response, route-le, close-same}
use dvf.Qmp.Calls.{
  Session, connected, Move, enters, sends, fails_to_send, replies, notifies, reads, collects,
  stops_reading, closes, Moves, here, later, moves, expires, Reach, stays, goes,
}
use dvf.Qmp.Phase.{
  Phase, idle, asked, answered, arrived, sends-Phase, replies-Phase, notifies-Phase, reads-Phase,
  collects-Phase,
}

module _ (Answers : QmpCommand → QmpResponse → Type 0) where
  abbrev pub IsAnswered : QmpCommand × QmpResponse → Type 0
  IsAnswered p = Answers p.0 p.1

  -- What is under way is the command of the call that executes, or its response, once; each call that
  -- returned received a response to its own command; and no more than 64 events wait.
  pub record IsCalm (s : Session) : Type 0 where
    pub phase : Phase Answers s
    pub answers : All IsAnswered s.returned
    pub events : length s.client.events_ch ≤ 64

  -- A change of the client alone that keeps what waits in its channels.
  kept :
      (s : Session) (c : QmpClient) (calls : List QmpCommand)
      → c.response_ch ≡ s.client.response_ch
      → c.events_ch ≡ s.client.events_ch
      → IsCalm s
      → IsCalm (record s { client = c; calls = calls })
  kept s c calls e f v = record {
    phase = phase_of v.phase;
    answers = v.answers;
    events = rw f v.events;
  }
    where
      phase_of : Phase Answers s → Phase Answers (record s { client = c; calls = calls })
      phase_of (idle x q z r) = idle x q z (e ∙ r)
      phase_of (asked cmd x q z r) = asked cmd x q z (e ∙ r)
      phase_of (answered cmd x q z r) = answered cmd x q z (e ∙ r)
      phase_of (arrived cmd a x q z r w) = arrived cmd a x q z (e ∙ r) w

  Move-IsCalm : {s t : Session} → Move Answers s t → IsCalm s → IsCalm t
  Move-IsCalm {s} (enters cmd e) v = kept s s.client (cmd ∷ s.calls) refl refl v
  Move-IsCalm {s} (sends before after cmd e n) v = record {
    phase = sends-Phase Answers s (before ++ after) cmd n v.phase;
    answers = v.answers;
    events = v.events;
  }
  Move-IsCalm {s} (fails_to_send before after cmd e n) v =
      kept s s.client (before ++ after) refl refl v
  Move-IsCalm {s} (replies cmd rest msg e f a) v = record {
    phase = replies-Phase Answers s cmd rest msg e f a v.phase;
    answers = v.answers;
    events = v.events;
  }
  Move-IsCalm {s} (notifies msg f) v = record {
    phase = notifies-Phase Answers s msg f v.phase;
    answers = v.answers;
    events = v.events;
  }
  Move-IsCalm {s} (reads msg rest d e) v = record {
    phase = reads-Phase Answers s msg rest e v.phase;
    answers = v.answers;
    events = route-le msg s.client v.events;
  }
  Move-IsCalm {s} (collects cmd r e f) v =
      let (a, p) = collects-Phase Answers s cmd r e f v.phase in
      record { phase = p; answers = (a, v.answers); events = v.events }
  Move-IsCalm {s} stops_reading v = kept s (record s.client { done = true }) s.calls refl refl v
  Move-IsCalm {s} closes v =
      let (e, f) = close-same s.client in kept s (close s.client) s.calls e f v

  -- While each call of Execute that has sent its command waits for its response, and QEMU answers each
  -- command once, every response that a call returns answers its own command, and at most 64 events wait.
  -- While no call executes no command and no response is under way; while one does, its command or a
  -- response to it is, once.
  pub Moves-IsCalm :
      (path : String) (s : Session) → Moves Answers (connected (new_qmp_client path)) s → IsCalm s
  Moves-IsCalm path s here = record {
    phase = idle refl refl refl refl;
    answers = tt;
    events = omega arith;
  }
  Moves-IsCalm path s (later ms m) = Move-IsCalm m (Moves-IsCalm path _ ms)

  -- A call of Execute whose context ends before its response comes leaves that response behind: the call
  -- after it, of whatever command, can return it.
  pub stale_answer :
      (path : String) (first second : QmpCommand) (msg : QmpMessage)
      → is_response msg ≡ true
      → Answers first (response_of msg)
      → (s : Session) × Reach Answers (connected (new_qmp_client path)) s
        × (s.returned ≡ (second, response_of msg) ∷ [])
  stale_answer path first second msg e a =
      let sent =
        goes (goes stays (moves (enters first refl))) (moves (sends [] [] first refl refl)) in
      let left_behind =
        goes (goes sent (expires first refl)) (moves (replies first [] msg refl e a)) in
      let again =
        goes (goes left_behind (moves (enters second refl)))
          (moves (sends [] [] second refl refl)) in
      let read = goes again (moves (reads msg [] refl refl)) in
      (
        _,
        goes read (
            moves (
              collects second (response_of msg) refl
                (route_response msg (new_qmp_client path) e refl))),
        refl,
      )
