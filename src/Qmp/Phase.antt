-- ===== src/Qmp/Phase.antt =====
-- Where the one command of a QMPClient (vm/qmp_client.go) that is under way is, or its response.
use dvf.Prelude.{
  ◌≡◌, ◌⊎◌, inl, inr, refl, sym, ◌∙◌, ap, subst, List, [], ◌∷◌, ◌++◌, none, some, true, false,
  arith,
}
use dvf.Qmp.{QmpCommand, QmpResponse, QmpMessage, route, is_response, response_of}
use dvf.Qmp.Reader.{silent, silent-append, silent_cons, route_response, route_other, clash}
use dvf.Qmp.Calls.{Session}

module _ (Answers : QmpCommand → QmpResponse → Type 0) where
  -- One response is among the messages, and it answers the command.
  abbrev pub OneAnswer : QmpCommand → List QmpMessage → Type 0
  OneAnswer cmd [] = ⊥
  OneAnswer cmd (m ∷ ms) =
      ((is_response m ≡ true) × Answers cmd (response_of m) × (silent ms ≡ true))
      ⊎ ((is_response m ≡ false) × OneAnswer cmd ms)

  -- Where the one command that is under way is, or its response.
  pub data Phase (s : Session) : Type 0 where
    idle :
        s.executing ≡ none
        → s.to_qemu ≡ []
        → silent s.from_qemu ≡ true
        → s.client.response_ch ≡ none
        → Phase s
    asked :
        (cmd : QmpCommand)
        → s.executing ≡ some cmd
        → s.to_qemu ≡ cmd ∷ []
        → silent s.from_qemu ≡ true
        → s.client.response_ch ≡ none
        → Phase s
    answered :
        (cmd : QmpCommand)
        → s.executing ≡ some cmd
        → s.to_qemu ≡ []
        → OneAnswer cmd s.from_qemu
        → s.client.response_ch ≡ none
        → Phase s
    arrived :
        (cmd : QmpCommand) (r : QmpResponse)
        → s.executing ≡ some cmd
        → s.to_qemu ≡ []
        → silent s.from_qemu ≡ true
        → s.client.response_ch ≡ some r
        → Answers cmd r
        → Phase s

  OneAnswer-append :
      (cmd : QmpCommand) (ms : List QmpMessage) (m : QmpMessage)
      → OneAnswer cmd ms
      → is_response m ≡ false
      → OneAnswer cmd (ms ++ m ∷ [])
  OneAnswer-append cmd [] m a f = absurd a
  OneAnswer-append cmd (x ∷ ms) m (inl (e, a, q)) f = inl (e, a, silent-append ms m q f)
  OneAnswer-append cmd (x ∷ ms) m (inr (e, a)) f = inr (e, OneAnswer-append cmd ms m a f)

  OneAnswer-reply :
      (cmd : QmpCommand) (ms : List QmpMessage) (m : QmpMessage)
      → silent ms ≡ true
      → is_response m ≡ true
      → Answers cmd (response_of m)
      → OneAnswer cmd (ms ++ m ∷ [])
  OneAnswer-reply cmd [] m q e a = inl (e, a, refl)
  OneAnswer-reply cmd (x ∷ ms) m q e a =
      inr (ground arith, OneAnswer-reply cmd ms m (ground arith) e a)

  pub sends-Phase :
      (s : Session) (calls : List QmpCommand) (cmd : QmpCommand)
      → s.executing ≡ none
      → Phase s
      → Phase (record s { calls = calls; executing = some cmd; to_qemu = s.to_qemu ++ cmd ∷ [] })
  sends-Phase s calls cmd n (idle x q z r) = asked cmd refl (ap (λ l. l ++ cmd ∷ []) q) z r
  sends-Phase s calls cmd n (asked c x q z r) = absurd (clash x n)
  sends-Phase s calls cmd n (answered c x q z r) = absurd (clash x n)
  sends-Phase s calls cmd n (arrived c a x q z r w) = absurd (clash x n)

  pub replies-Phase :
      (s : Session) (cmd : QmpCommand) (rest : List QmpCommand) (msg : QmpMessage)
      → s.to_qemu ≡ cmd ∷ rest
      → is_response msg ≡ true
      → Answers cmd (response_of msg)
      → Phase s
      → Phase (record s { to_qemu = rest; from_qemu = s.from_qemu ++ msg ∷ [] })
  replies-Phase s cmd rest msg e f a (idle x q z r) = absurd (cc (e, q))
  replies-Phase s cmd rest msg e f a (asked c x q z r) =
      let same : cmd ≡ c = cc (e, q) in
      let none_more : rest ≡ [] = cc (e, q) in
      answered cmd (x ∙ ap some (sym same)) none_more (OneAnswer-reply cmd s.from_qemu msg z f a) r
  replies-Phase s cmd rest msg e f a (answered c x q z r) = absurd (cc (e, q))
  replies-Phase s cmd rest msg e f a (arrived c b x q z r w) = absurd (cc (e, q))

  pub notifies-Phase :
      (s : Session) (msg : QmpMessage)
      → is_response msg ≡ false
      → Phase s
      → Phase (record s { from_qemu = s.from_qemu ++ msg ∷ [] })
  notifies-Phase s msg f (idle x q z r) = idle x q (silent-append s.from_qemu msg z f) r
  notifies-Phase s msg f (asked c x q z r) = asked c x q (silent-append s.from_qemu msg z f) r
  notifies-Phase s msg f (answered c x q z r) =
      answered c x q (OneAnswer-append c s.from_qemu msg z f) r
  notifies-Phase s msg f (arrived c a x q z r w) =
      arrived c a x q (silent-append s.from_qemu msg z f) r w

  -- The reader takes the first message.
  pub reads-Phase :
      (s : Session) (msg : QmpMessage) (rest : List QmpMessage)
      → s.from_qemu ≡ msg ∷ rest
      → Phase s
      → Phase (record s { client = route msg s.client; from_qemu = rest })
  reads-Phase s msg rest e (idle x q z r) =
      let (f, y) = silent_cons msg rest (ap silent (sym e) ∙ z) in
      idle x q y (route_other msg s.client f ∙ r)
  reads-Phase s msg rest e (asked c x q z r) =
      let (f, y) = silent_cons msg rest (ap silent (sym e) ∙ z) in
      asked c x q y (route_other msg s.client f ∙ r)
  reads-Phase s msg rest e (arrived c a x q z r w) =
      let (f, y) = silent_cons msg rest (ap silent (sym e) ∙ z) in
      arrived c a x q y (route_other msg s.client f ∙ r) w
  reads-Phase s msg rest e (answered c x q z r) = elim (subst (OneAnswer c) e z) [
    | inl (f, a, y) ↦ arrived c (response_of msg) x q y (route_response msg s.client f r) a
    | inr (f, a) ↦ answered c x q a (route_other msg s.client f ∙ r)
  ]

  pub collects-Phase :
      (s : Session) (cmd : QmpCommand) (r : QmpResponse)
      → s.executing ≡ some cmd
      → s.client.response_ch ≡ some r
      → Phase s
      → Answers cmd r
        × Phase (record s {
          client = record s.client { response_ch = none };
          executing = none;
          returned = (cmd, r) ∷ s.returned;
        })
  collects-Phase s cmd r e f (idle x q z n) = absurd (clash f n)
  collects-Phase s cmd r e f (asked c x q z n) = absurd (clash f n)
  collects-Phase s cmd r e f (answered c x q z n) = absurd (clash f n)
  collects-Phase s cmd r e f (arrived c a x q z n w) =
      let mine : c ≡ cmd = cc (x, e) in
      let this : a ≡ r = cc (n, f) in
      (subst (λ b. Answers cmd b) this (subst (λ b. Answers b a) mine w), idle refl q z refl)
