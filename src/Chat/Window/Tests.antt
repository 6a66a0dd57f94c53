-- ===== src/Chat/Window/Tests.antt =====
-- The window's theorems at concrete inputs.
use decentrarent.Prelude.{
  ℕ, ◌*◌, String, ◌-◌, ◌≤◌, none, some, [], ◌∷◌, ◌==◌, ◌≡◌, refl, All, if◌then◌else◌, true, false,
  not, ◌&&◌, Memᴰ, map, foldl, includes, truthy, trim, ◌↔◌,
}
use decentrarent.Chat.{Conversation, Message, ChatState, initial_chat, unread_of, text}
use decentrarent.Chat.Window.{
  Window, initial_window, select_conversation, publish, sum_by, property_groups, group_time,
}
use decentrarent.Chat.Window.Unread.{start, next, selected, published, never_unread}
use decentrarent.Chat.Window.Sorting.{Newest}
use decentrarent.Chat.Window.Groups.{GroupIsValid, one_if, property_groups-hold}
use decentrarent.Prelude.Outcome.{ok}
use decentrarent.Properties.{Property}
use decentrarent.Chat.Window.{PropertyGroup}
use decentrarent.Chat.Window.Caches.{
  UserProfile, Caches, Fetch, property_fetch, user_fetch, is_some, is_cached, conversation_parties,
  prop_ids, user_ids, cache_fetches, name_of,
}
use decentrarent.Chat.Window.Fetching.{times_sent, cache_fetches-once}
use decentrarent.Chat.Window.Settling.{Succeeds, taken, cache_fetches_settle}
use decentrarent.Chat.Window.Loaded.{Loaded}
use decentrarent.Properties.{Numbers}
use decentrarent.Orders.Draft.{Dates, selecting_start}
use decentrarent.Chat.Window.Search.{filtered_groups}
use decentrarent.Chat.Window.Finding.{Mentioned, searched, filtered_groups-finds}
use decentrarent.Chat.Window.Ago.{IsRight, time_ago, hours, time_ago-IsRight}

abbrev talk : String → String → String → Conversation
talk id property at = record {
  id = id;
  property_id = property;
  landlord_id = "u1";
  loaner_id = "u2";
  last_message = some "hi";
  last_message_at = some at;
  created_at = "0";
}

abbrev hello : Message
hello = record {
  id = "m1";
  conversation_id = "c1";
  sender_id = "u1";
  content = "hello";
  message_type = some text;
  metadata = none;
  created_at = "1";
}

abbrev opened : Window × ChatState
opened = select_conversation (talk "c1" "p1" "5") (initial_window, initial_chat)

never_unread_example : unread_of "c1" (publish opened.0 hello opened.1) ≡ 0
never_unread_example =
    never_unread
      (next (next start (selected (talk "c1" "p1" "5") (initial_window, initial_chat)))
        (published hello opened))
      "c1"

abbrev clock : String → ℕ
clock t = if t == "5" then 5 else 9

abbrev inbox : ChatState
inbox = record initial_chat {
  conversations = talk "c1" "p1" "5" ∷ talk "c2" "p2" "9" ∷ talk "c3" "p1" "9" ∷ [];
}

property_groups-hold_example :
    ((f : Conversation → ℕ)
      → sum_by (λ g. sum_by f g.conversations) (property_groups clock [] inbox)
        ≡ sum_by f inbox.conversations)
    × All (GroupIsValid clock [] inbox) (property_groups clock [] inbox)
    × ((id : String)
        → sum_by (λ g. one_if (g.property_id == id)) (property_groups clock [] inbox) ≤ 1)
    × Newest (group_time clock) (property_groups clock [] inbox)
property_groups-hold_example = property_groups-hold clock [] inbox

an_hour : time_ago (λ t. 1000) 3700000 (some "x") ≡ hours 1
unfolding time_ago
an_hour = refl

time_ago_run : IsRight (time_ago (λ t. 1000) 3700000 (some "x")) (3700000 - 1000)
time_ago_run = time_ago-IsRight (λ t. 1000) 3700000 "x" refl

abbrev no_caches : Caches
no_caches = record { property_cache = []; user_cache = [] }

cache_fetches-once_example :
    let shown = not (is_some initial_window.selected_conversation) in
    (times_sent (property_fetch "p1") (cache_fetches initial_window "u1" inbox no_caches)
      ≡ one_if (
          shown
          && includes (map (λ v. v.property_id) inbox.conversations) "p1"
          && not (is_cached no_caches (property_fetch "p1"))))
    × (times_sent (user_fetch "p1") (cache_fetches initial_window "u1" inbox no_caches)
        ≡ one_if (
            shown
            && includes (conversation_parties inbox.conversations) "p1"
            && not ("p1" == "u1")
            && not (is_cached no_caches (user_fetch "p1"))))
cache_fetches-once_example = cache_fetches-once initial_window "u1" inbox no_caches "p1"

abbrev cabin : String → Property
cabin id = record {
  id = id;
  landlord_id = "u1";
  title = "Cabin";
  description = "";
  location = "Lake";
  price = 5;
  deposit_price = 10;
  token_mint = "SOL";
  period_type = "month";
  status = "available";
  verification_status = "verified";
  media = [];
  created_at = "0";
  updated_at = "0";
}

abbrev profile : String → UserProfile
profile id = record { id = id; display_name = ""; wallet_address = none }

some_answer : (f : Fetch) → Succeeds (λ id. ok (cabin id)) (λ id. ok (profile id)) f
some_answer (property_fetch id) = (cabin id, refl)
some_answer (user_fetch id) = (profile id, refl)

cache_fetches_settle_example :
    let sent = cache_fetches initial_window "u1" inbox no_caches in
    let c = foldl (taken (λ id. ok (cabin id)) (λ id. ok (profile id))) no_caches sent in
    (cache_fetches initial_window "u1" inbox c ≡ [])
    × (initial_window.selected_conversation ≡ none
        → ((id : String) → Memᴰ id (prop_ids inbox) → is_cached c (property_fetch id) ≡ true)
          × ((id : String) → Memᴰ id (user_ids "u1" inbox) → is_cached c (user_fetch id) ≡ true))
cache_fetches_settle_example =
    cache_fetches_settle (λ id. ok (cabin id)) (λ id. ok (profile id)) initial_window "u1" inbox
      no_caches (cache_fetches initial_window "u1" inbox no_caches) (λ f m. (m, some_answer f))

abbrev lake : PropertyGroup
lake = record {
  property_id = "p1";
  property = some (cabin "p1");
  conversations = talk "c1" "p1" "5" ∷ [];
  latest_message_at = some "5";
  total_unread = 0;
}

filtered_groups-finds_example :
    (truthy (trim "abi") ≡ true
      → (g : PropertyGroup)
      → Memᴰ g (filtered_groups (λ t. t) "u1" [] "abi" (lake ∷ []))
        ↔ (Memᴰ g (lake ∷ []) × Mentioned (λ t. t) "abi" (searched "u1" [] g)))
    × (truthy (trim "abi") ≡ false → filtered_groups (λ t. t) "u1" [] "abi" (lake ∷ []) ≡ lake ∷ [])
filtered_groups-finds_example = filtered_groups-finds (λ t. t) "u1" [] "abi" (lake ∷ [])

found : filtered_groups (λ t. t) "u1" [] "abi" (lake ∷ []) ≡ lake ∷ []
unfolding filtered_groups trim
found = refl

unnamed : name_of "u1234567" (profile "u1") ≡ "u12345..."
unfolding name_of
unnamed = refl

abbrev naturals : Numbers
naturals = record {
  Num = ℕ;
  number = λ s. 2;
  text_of = λ n. "2";
  whole = λ n. n;
  times = λ a b. a * b;
  over = λ a b. a;
  round = λ n. n;
}

abbrev first_days : Dates
first_days = record { start_date = some 5; end_date = some 9; selecting = selecting_start }

abbrev nothing_loaded : Loaded
nothing_loaded = record { property = none; requests = [] }
