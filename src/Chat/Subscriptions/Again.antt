-- ===== src/Chat/Subscriptions/Again.antt =====
-- A conversation can be opened once.
use Prim.Native.Char.{code}
use Prim.Native.String.append
use text.Mathlib.TextLemmas.{append_cancel_left}
use decentrarent.Prelude.{
  ℕ, String, ◌<>◌, true, false, ◌||◌, Option, none, some, ◌==◌, ◌≡◌, ◌≢◌, refl, sym, ap, ◌∙◌,
  if◌then◌else◌, truthy, Bool-cases, inl, inr, eq_iff, eq_refl, arith,
}
use decentrarent.Prelude.Slices.{append_filled}
use decentrarent.Prelude.Outcome.{ok, threw, Thrown}
use decentrarent.Chat.Types.{Conversation}
use decentrarent.Chat.Subscriptions.{
  Broker, IsDocumented, chat_channel, orders_channel, Subscribed, idle, chat_changed,
  orders_changed, cleaned, clean_all, run_effects, select,
}

abbrev first_code : String → Option ℕ
first_code String.[] = none
first_code (String.◌∷◌ c s) = some (code c)

first_code-append : (s t : String) → truthy s ≡ true → first_code (s <> t) ≡ first_code s
first_code-append String.[] t h = absurd (ground (arith, h))
first_code-append (String.◌∷◌ c s) t h = rw (append.cons c s t) refl

-- The channels of the chats and those of the orders have nothing in common.
channels_apart : (a b : Conversation) → (chat_channel a == orders_channel b) ≡ false
channels_apart a b = elim (Bool-cases (chat_channel a == orders_channel b)) [
  | inr differ ↦ differ
  | inl same ↦ absurd (
      clash (
        sym (first_code-append "property:" (a.property_id <> (":chat:" <> a.loaner_id)) refl)
        ∙ (ap first_code ((eq_iff (chat_channel a) (orders_channel b)).0 same)
            ∙ first_code-append "orders:" b.id refl)))
]
  where
    clash : first_code "property:" ≢ first_code "orders:"
    clash e = ground (arith, e)

not_equal_back : (x y : String) → (x == y) ≡ false → (y == x) ≡ false
not_equal_back x y h = ground (arith, eq_iff x y, eq_iff y x, h)

apart_back : (a b : Conversation) → (orders_channel b == chat_channel a) ≡ false
apart_back a b = not_equal_back (chat_channel a) (orders_channel b) (channels_apart a b)

channel_filled : (a : Conversation) → truthy (chat_channel a) ≡ true
channel_filled a =
    ground (arith, append_filled "property:" (a.property_id <> (":chat:" <> a.loaner_id)) refl)

orders_filled : (a : Conversation) → truthy (orders_channel a) ≡ true
orders_filled a = ground (arith, append_filled "orders:" a.id refl)

module _ (b : Broker) (doc : IsDocumented b) where
  open b use {Client, has_subscription, new_subscription, unsubscribe}
  open doc use {throws, adds, keeps}

  cleaned-keeps :
      (sub : Option String) (c : Client) (other : String)
      → has_subscription (cleaned b sub c) other ≡ has_subscription c other
  cleaned-keeps none c other = refl
  cleaned-keeps (some channel) c other = keeps c channel other

  clean_all-keeps :
      (conv : Conversation) (s : Subscribed b) (other : String)
      → has_subscription (clean_all b conv s) other ≡ has_subscription s.client other
  clean_all-keeps conv s other = ground (
    arith,
    cleaned-keeps s.chat_sub s.client other,
    cleaned-keeps s.orders_sub
        (if chat_changed b s.last conv then cleaned b s.chat_sub s.client else s.client) other,
  )

  -- Where the registry has neither channel, both effects subscribe.
  abbrev Opened : Conversation → Subscribed b → Client → Type 0
  Opened conv s c =
      (t : Subscribed b) × (run_effects b conv s c ≡ ok t)
      × (t.last ≡ some conv)
      × ((other : String)
          → has_subscription t.client other ≡ (
              chat_channel conv == other
              || (orders_channel conv == other || has_subscription c other)))

  opens :
      (conv : Conversation) (s : Subscribed b) (c : Client)
      → truthy conv.id ≡ true
      → chat_changed b s.last conv ≡ true
      → orders_changed b s.last conv ≡ true
      → has_subscription c (chat_channel conv) ≡ false
      → has_subscription c (orders_channel conv) ≡ false
      → Opened conv s c
  opens conv s c filled chat orders no_chat no_orders =
      let (d, made, has_d) = adds c (chat_channel conv) no_chat in
      let free : has_subscription d (orders_channel conv) ≡ false =
        has_d (orders_channel conv) ∙ rw (channels_apart conv conv) no_orders in
      let (e, made', has_e) = adds d (orders_channel conv) free in
      (
        record {
          client = e;
          chat_sub = some (chat_channel conv);
          orders_sub = some (orders_channel conv);
          last = some conv;
        },
        rw (chat, channel_filled conv, filled, made, orders, orders_filled conv, made') refl,
        refl,
        λ other. ground (arith, has_e other, has_d other),
      )

  -- Where the registry has the channel of the chat, the first effect throws.
  refuses :
      (conv : Conversation) (s : Subscribed b) (c : Client)
      → truthy conv.id ≡ true
      → chat_changed b s.last conv ≡ true
      → has_subscription c (chat_channel conv) ≡ true
      → (e : Thrown) × (run_effects b conv s c ≡ threw e)
  refuses conv s c filled chat there =
      let (e, thrown) = throws c (chat_channel conv) there in
      (e, rw (chat, channel_filled conv, filled, thrown) refl)

  -- On a client that is new, with nothing subscribed: two conversations with ids and channels of their
  -- own are opened one after the other, and each is subscribed to its two channels; but the way back to
  -- the first throws in its effect, since what unsubscribed it has left it in the registry.
  pub reopening-throws :
      (c : Client) (one other : Conversation)
      → ((channel : String) → has_subscription c channel ≡ false)
      → truthy one.id ≡ true
      → truthy other.id ≡ true
      → (one.id == other.id) ≡ false
      → (chat_channel one == chat_channel other) ≡ false
      → (t : Subscribed b) × (u : Subscribed b) × (e : Thrown) × (select b one (idle b c) ≡ ok t)
        × (select b other t ≡ ok u)
        × (select b one u ≡ threw e)
  unfolding select
  reopening-throws c one other new filled_one filled_other ids channels =
      let (t, opened, last_t, has_t) =
        opens one (idle b c) c filled_one refl refl (new (chat_channel one))
          (new (orders_channel one)) in
      let c' = clean_all b other t in
      let no_chat : has_subscription c' (chat_channel other) ≡ false =
        clean_all-keeps other t (chat_channel other)
        ∙ (has_t (chat_channel other)
            ∙ rw (channels, apart_back other one, new (chat_channel other)) refl) in
      let no_orders : has_subscription c' (orders_channel other) ≡ false =
        clean_all-keeps other t (orders_channel other)
        ∙ (has_t (orders_channel other)
            ∙ rw (channels_apart one other, orders_differ, new (orders_channel other)) refl) in
      let (u, opened', last_u, has_u) =
        opens other t c' filled_other (ap (λ l. chat_changed b l other) last_t ∙ rw channels refl)
          (ap (λ l. orders_changed b l other) last_t ∙ rw ids refl) no_chat no_orders in
      let there : has_subscription (clean_all b one u) (chat_channel one) ≡ true =
        clean_all-keeps one u (chat_channel one)
        ∙ (has_u (chat_channel one)
            ∙ rw
                (
                  not_equal_back (chat_channel one) (chat_channel other) channels,
                  apart_back one other,
                  clean_all-keeps other t (chat_channel one),
                  has_t (chat_channel one),
                  eq_refl (chat_channel one),
                )
                refl) in
      let (e, thrown) =
        refuses one u (clean_all b one u) filled_one
          (ap (λ l. chat_changed b l one) last_u
            ∙ rw (not_equal_back (chat_channel one) (chat_channel other) channels) refl)
          there in
      (t, u, e, opened, opened', thrown)
    where
      orders_differ : (orders_channel one == orders_channel other) ≡ false
      orders_differ = elim (Bool-cases (orders_channel one == orders_channel other)) [
        | inr differ ↦ differ
        | inl same ↦
            let e =
              append_cancel_left "orders:" one.id other.id
                ((eq_iff (orders_channel one) (orders_channel other)).0 same) in
            absurd (ground (arith, ids, (eq_iff one.id other.id).1 e))
      ]
