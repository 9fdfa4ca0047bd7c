-- ===== src/Qmp/Reader.antt =====
-- What the reader goroutine of QMPClient (vm/qmp_client.go) does to the channels.
use dvf.Prelude.{
  ◌+◌, ◌≤◌, ◌≡◌, inl, inr, refl, List, [], ◌∷◌, ◌++◌, Option, none, some, Bool, true, false, ◌&&◌,
  not, arith, Bool-cases, length, length-append, ltb,
}
use dvf.Prelude.Dict.{is_some}
use dvf.Qmp.{
  QmpMessage, QmpClient, QmpEvent, route, send_event, event_of, is_event, is_response, response_of,
  close,
}

pub clash {ℓ} : {A : Type ℓ} {o : Option A} {a : A} → o ≡ some a → o ≡ none → ⊥
clash e f = cc (e, f)

-- No response is among the messages.
abbrev pub silent : List QmpMessage → Bool
silent [] = true
silent (m ∷ ms) = not (is_response m) && silent ms

pub silent-append :
    (ms : List QmpMessage) (m : QmpMessage)
    → silent ms ≡ true
    → is_response m ≡ false
    → silent (ms ++ m ∷ []) ≡ true
silent-append [] m e f = rw f refl
silent-append (x ∷ ms) m e f = ground (arith, silent-append ms m)

pub silent_cons :
    (m : QmpMessage) (ms : List QmpMessage)
    → silent (m ∷ ms) ≡ true
    → (is_response m ≡ false) × (silent ms ≡ true)
silent_cons m ms e = ground arith

pub route_response :
    (m : QmpMessage) (c : QmpClient)
    → is_response m ≡ true
    → c.response_ch ≡ none
    → (route m c).response_ch ≡ some (response_of m)
unfolding route
route_response m c e f = rw (e, f) refl

pub route_other :
    (m : QmpMessage) (c : QmpClient)
    → is_response m ≡ false
    → (route m c).response_ch ≡ c.response_ch
unfolding route
route_other m c e = rw e (elim (Bool-cases (is_event m)) [
  | inl f ↦
      rw f
        (elim (Bool-cases (ltb (length c.events_ch) 64)) [ inl g ↦ rw g refl | inr g ↦ rw g refl ])
  | inr f ↦ rw f refl
])

send_event-le :
    (e : QmpEvent) (c : QmpClient)
    → length c.events_ch ≤ 64
    → length (send_event e c).events_ch ≤ 64
send_event-le e c h = elim (Bool-cases (ltb (length c.events_ch) 64)) [
  | inl g ↦ rw g (omega (arith, length-append c.events_ch (e ∷ []), ltb_lem g))
  | inr g ↦ rw g h
]
  where
    ltb_lem : ltb (length c.events_ch) 64 ≡ true → length c.events_ch + 1 ≤ 64
    ltb_lem g = ground arith

pub route-le :
    (m : QmpMessage) (c : QmpClient) → length c.events_ch ≤ 64 → length (route m c).events_ch ≤ 64
unfolding route
route-le m c h = elim (Bool-cases (is_response m)) [
  | inl e ↦ rw e (elim (Bool-cases (is_some c.response_ch)) [ inl g ↦ rw g h | inr g ↦ rw g h ])
  | inr e ↦ rw e (elim (Bool-cases (is_event m)) [
    | inl f ↦ rw f (send_event-le (event_of m) c h)
    | inr f ↦ rw f h
  ])
]

pub close-same :
    (c : QmpClient) → ((close c).response_ch ≡ c.response_ch) × ((close c).events_ch ≡ c.events_ch)
close-same c = elim (Bool-cases c.closed) [ inl e ↦ rw e (refl, refl) | inr e ↦ rw e (refl, refl) ]
