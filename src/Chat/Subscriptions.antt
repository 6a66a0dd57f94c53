-- ===== src/Chat/Subscriptions.antt =====
-- The subscriptions of frontend/src/features/chat/hooks/useChat.ts and of
-- frontend/src/features/orders/hooks/useOrderUpdates.ts on the one client of the broker, as
-- frontend/src/features/chat/components/ChatWindow.tsx runs their effects. The client itself is the
-- library centrifuge: the interface `Broker`.
pub mod Again
mod Tests
use decentrarent.Prelude.{
  String, ◌<>◌, Bool, true, false, not, ◌&&◌, Option, none, some, ◌==◌, ◌≡◌, if◌then◌else◌, truthy,
}
use decentrarent.Prelude.Outcome.{Result, ok, threw, Thrown, ◌>>=◌}
use decentrarent.Chat.Types.{Conversation}

-- A client with its registry of subscriptions, by their channels.
pub record Broker : Type 1 where
  pub Client : Type 0
  pub has_subscription : Client → String → Bool
  pub new_subscription : String → Client → Result Client
  pub unsubscribe : String → Client → Client

-- What the library documents: `newSubscription` throws where the registry has the channel and else
-- puts it there, and `unsubscribe` leaves the registry as it is (`removeSubscription` is what takes a
-- channel out).
pub record IsDocumented (b : Broker) : Type 0 where
  pub throws :
      (c : b.Client) (channel : String)
      → b.has_subscription c channel ≡ true
      → (e : Thrown) × (b.new_subscription channel c ≡ threw e)
  pub adds :
      (c : b.Client) (channel : String)
      → b.has_subscription c channel ≡ false
      → (d : b.Client) × (b.new_subscription channel c ≡ ok d)
        × ((other : String)
            → b.has_subscription d other
              ≡ (if channel == other then true else b.has_subscription c other))
  pub keeps :
      (c : b.Client) (channel other : String)
      → b.has_subscription (b.unsubscribe channel c) other ≡ b.has_subscription c other

abbrev pub chat_channel : Conversation → String
chat_channel c = "property:" <> (c.property_id <> (":chat:" <> c.loaner_id))

abbrev pub orders_channel : Conversation → String
orders_channel c = "orders:" <> c.id

module _ (b : Broker) where
  open b use {Client, new_subscription, unsubscribe}

  -- The client, what the two cleanups unsubscribe, and the conversation of the last run, on which the
  -- effects depend.
  pub record Subscribed : Type 0 where
    pub client : Client
    pub chat_sub : Option String
    pub orders_sub : Option String
    pub last : Option Conversation

  abbrev pub idle : Client → Subscribed
  idle c = record { client = c; chat_sub = none; orders_sub = none; last = none }

  -- Whether the dependencies have changed: the channel and the id, or the id.
  abbrev pub chat_changed : Option Conversation → Conversation → Bool
  chat_changed none conv = true
  chat_changed (some c) conv = not (chat_channel c == chat_channel conv && c.id == conv.id)

  abbrev pub orders_changed : Option Conversation → Conversation → Bool
  orders_changed none conv = true
  orders_changed (some c) conv = not (c.id == conv.id)

  abbrev pub cleaned : Option String → Client → Client
  cleaned none c = c
  cleaned (some channel) c = unsubscribe channel c

  -- All cleanups of the effects that run again go before the first of the effects.
  abbrev pub clean_all : Conversation → Subscribed → Client
  clean_all conv s =
      let c = if chat_changed s.last conv then cleaned s.chat_sub s.client else s.client in
      if orders_changed s.last conv then cleaned s.orders_sub c else c

  -- The body of an effect: the client after it, and its cleanup.
  abbrev pub subscribed : Result Client → String → Result (Client × Option String)
  subscribed (threw e) channel = threw e
  subscribed (ok c) channel = ok (c, some channel)

  abbrev pub effect : String → String → Client → Result (Client × Option String)
  effect channel id c =
      let made = new_subscription channel c in
      if truthy channel && truthy id then subscribed made channel else ok (c, none)

  abbrev pub chat_effect : Conversation → Subscribed → Client → Result (Client × Option String)
  chat_effect conv s c =
      if chat_changed s.last conv then effect (chat_channel conv) conv.id c else ok (c, s.chat_sub)

  abbrev pub orders_effect : Conversation → Subscribed → Client → Result (Client × Option String)
  orders_effect conv s c =
      if orders_changed s.last conv
      then effect (orders_channel conv) conv.id c
      else ok (c, s.orders_sub)

  -- Both effects on a client, in the order of the hooks.
  abbrev pub run_effects : Conversation → Subscribed → Client → Result Subscribed
  run_effects conv s c = chat_effect conv s c >>= λ first.
      orders_effect conv s first.0 >>= λ second.
      ok (record { client = second.0; chat_sub = first.1; orders_sub = second.1; last = some conv })

  -- A conversation is selected: both hooks are rendered with it.
  unfoldable pub select : Conversation → Subscribed → Result Subscribed
  select conv s = run_effects conv s (clean_all conv s)
