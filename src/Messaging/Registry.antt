-- ===== src/Messaging/Registry.antt =====
-- internal/application/registry/handler_registry.go. The handlers act on a state of type S.
use notai_api.Base.{List, [], arith, if◌then◌else◌, none, some, ◌++◌, ◌∷◌, ◌≡◌}
use notai_api.Base.Text.{Text, text_eq, text_eq_iff}
use notai_api.Messaging.Failure.{Answer}

-- A registered handler: the payload and the state, to the new state and the answer.
abbrev pub Handler : Type 0 → Type 0 → Type 0
Handler S P = P → S → S × Answer

-- The map from an event type to its handlers, in the order of their registration.
abbrev pub Registry : Type 0 → Type 0 → Type 0
Registry S P = List (Text × List (Handler S P))

module _ {S : Type 0} {P : Type 0} where
  unfoldable pub handlers_of : Registry S P → Text → List (Handler S P)
  handlers_of [] t = []
  handlers_of ((u, hs) ∷ r) t = if text_eq t u then hs else handlers_of r t

  unfoldable pub register : Text → Handler S P → Registry S P → Registry S P
  register t h [] = (t, h ∷ []) ∷ []
  register t h ((u, hs) ∷ r) =
      if text_eq t u then (u, hs ++ (h ∷ [])) ∷ r else (u, hs) ∷ register t h r

  -- The loop of Dispatch: the first failure ends it.
  unfoldable pub run_handlers : List (Handler S P) → P → S → S × Answer
  run_handlers [] p s = (s, none)
  run_handlers (h ∷ hs) p s =
      let (s', a) = h p s in elim a [ none ↦ run_handlers hs p s' | some f ↦ (s', some f) ]

  unfoldable pub dispatch : Registry S P → Text → P → S → S × Answer
  unfolding handlers_of run_handlers
  dispatch r t p s = run_handlers (handlers_of r t) p s

  -- A registration is seen under its own event type, behind the earlier ones, and under no other.
  handlers_of-register :
      (t u : Text) (h : Handler S P) (r : Registry S P)
      → handlers_of (register t h r) u
        ≡ (if text_eq t u then handlers_of r u ++ (h ∷ []) else handlers_of r u)
  unfolding handlers_of register
  handlers_of-register t u h [] = ground (arith, text_eq_iff t u, text_eq_iff u t)
  handlers_of-register t u h ((v, hs) ∷ r) = ground (
    arith,
    text_eq_iff t u,
    text_eq_iff u t,
    text_eq_iff t v,
    text_eq_iff u v,
    handlers_of-register t u h r,
  )
