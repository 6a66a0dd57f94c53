-- ===== src/Chat/Window/Overtaken.antt =====
-- Two conversations that are opened one after the other in
-- frontend/src/features/chat/components/ChatWindow.tsx, and the form of the second in CreateOrderModal.tsx.
use decentrarent.Prelude.{ℕ, String, Option, none, some}
use decentrarent.Api.Calls.{CreateOrderRequest}
use decentrarent.Chat.{Conversation}
use decentrarent.Properties.{Property, Numbers}
use decentrarent.Orders.Draft.{initial_draft, request}
use decentrarent.Chat.Window.Loaded.{Loaded, property_effect}

-- The conversation `a` is selected, left, and then `b` is.
abbrev pub opened_both : Conversation → Conversation → Loaded → Loaded
opened_both a b l =
    property_effect none (some b) (property_effect (some a) none (property_effect none (some a) l))

module _ (n : Numbers) (read : String → Option ℕ) (iso_at : ℕ → String → String) where
  abbrev pub asked_for : Conversation → Property → ℕ → ℕ → CreateOrderRequest
  asked_for c p start end =
      request n read iso_at c (initial_draft n (some p)) (iso_at start "12:00") (iso_at end "12:00")
