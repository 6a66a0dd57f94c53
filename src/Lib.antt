-- ===== src/Lib.antt =====
-- The web client of decentrarent, a rental marketplace with an on-chain escrow for deposits and rent:
-- the stores, hooks and handlers of frontend/src, with theorems on what they keep and what they do.
--
-- The parts and how they interact. The chat (features/chat) shows conversations, whose messages come
-- from a subscription and from REST. Orders (features/orders) stand in a conversation and are updated
-- by events. An order's money is moved by the escrow hooks (features/escrow), which build a Solana
-- instruction, have the wallet sign it and tell their progress in one shared transaction store. The
-- quick actions (chat/utils/getMagicActions.ts, chat/components/MagicDogButton.tsx) offer what an order
-- allows and call those hooks. What succeeds or fails is told by toasts (features/toast).
--
-- Files and code:
--   Toast      frontend/src/features/toast/store.ts
--   Chat       frontend/src/features/chat: types.ts, store.ts (Chat/Store), hooks/useChat.ts and
--              hooks/useConversations.ts (Chat/Hook), components/MessageList.tsx (Chat/Grouping),
--              utils/getMagicActions.ts (Chat/Magic), components/MagicDogButton.tsx
--              (Chat/Magic/Handlers), components/ChatWindow.tsx (Chat/Window)
--   Orders     frontend/src/features/orders: types.ts (Orders/Types), hooks/useOrderUpdates.ts
--              (Orders/Updates)
--   Escrow     frontend/src/features/escrow: store.ts, pda.ts (Escrow/Pda, with bytesToUuid of
--              frontend/src/devtools.ts), the nine hooks (Escrow/Instructions and Escrow/Run)
--   Api        frontend/src/lib/api.ts; features/orders/api.ts (Api/Calls),
--              features/properties/api.ts (Api/Properties)
--   Auth       frontend/src/features/auth: store.ts, hooks/useWalletAuth.ts; the forms of
--              components/ConnectWallet.tsx, pages/Onboarding*Page.tsx and pages/ProfilePage.tsx
--              (Auth/Forms)
--   Properties frontend/src/features/properties/types.ts, frontend/src/lib/tokenAmount.ts
--   Orders/Card   frontend/src/features/orders/components/OrderCard.tsx, with
--              escrow/hooks/useEscrowAccount.ts
--   Navigation frontend/src/App.tsx (routes), frontend/src/components/Layout/BottomNav.tsx
--   Listings   frontend/src/pages/CreateListingPage.tsx (Listings/Create),
--              pages/ListingsPage.tsx (Listings/Filters), and of
--              pages/PropertyDetailPage.tsx the calendar (Listings/Availability) and the handlers
--              (Listings/Detail)
--   Orders/Draft  frontend/src/features/orders/components/CreateOrderModal.tsx
--   Orders/Panel, Orders/Disputes  frontend/src/features/orders/components/OrdersPanel.tsx and
--              frontend/src/pages/AdminDisputePage.tsx
--   Chat/Subscriptions  the effects of useChat.ts and useOrderUpdates.ts that subscribe
--   Chat/Messages, Chat/Connection  frontend/src/features/chat: components/MessageList.tsx and
--              components/MessageInput.tsx; hooks/useCentrifugo.ts, and frontend/src/lib/centrifugo.ts
--   Chat/Window   also the caches (Caches, Fetching, Settling), the search (Search, Finding), the
--              photos (Photos), what opens and shuts (Panels) and the property (Loaded, Overtaken)
--   Listings/Create  also the previews (Previews, Held) and the text of the progress (Progress)
--   Auth/Intents, Listings/Loading  the wallet buttons and the guides of the onboarding; the effects
--              that load pages/ListingsPage.tsx and pages/PropertyDetailPage.tsx, and the latter's editor
--   Overview   frontend/src/pages/HomePage.tsx, frontend/src/pages/ProfilePage.tsx
--   Prelude    what they share: texts and lists as JavaScript tests them, objects as dictionaries,
--              results that may be thrown
--
-- A function of the source has its name in snake case. A zustand store is a record, and its actions
-- are functions on it. An async function is cut at its awaits: a part is a function of the state and of
-- what the awaited promise gave, a value or what was thrown. A React state is a field of a record; its
-- setters are record updates, and what a closure captured is an argument. A field that may be null or
-- absent is an Option. Loops are structural recursion; only the following of redirects in Navigation
-- takes a number of steps, of which three are enough for every path.
--
-- Parameters: the wallet, web3.js and anchor are the interface Chain of Escrow/Instructions; a client
-- of centrifuge is the interface Broker of Chat/Subscriptions; what the
-- REST API, the broker and the clock give are arguments, and `new Date(text).getTime()` is a function
-- to Option with none for NaN. Amounts and times are natural numbers where the code only compares or
-- passes them on. The routes are matched as React Router documents it: a fixed segment without regard
-- to case, and before one with a parameter. A time field is empty or a time of the day, as the
-- browser's input gives it.
--
-- Not modelled: markup and styles, the Go backend, the Rust program and the mobile shell.
pub mod Prelude
pub mod Api
pub mod Auth
pub mod Chat
pub mod Escrow
pub mod Listings
pub mod Navigation
pub mod Orders
pub mod Overview
pub mod Properties
pub mod Toast
