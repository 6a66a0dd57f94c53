-- ===== src/Chat/Window/Caches.antt =====
-- frontend/src/features/chat/components/ChatWindow.tsx: the effect that asks for the properties and
-- the users of the list of conversations, and the names that are shown.
use decentrarent.Prelude.{
  String, ◌<>◌, Bool, true, false, not, ◌&&◌, Option, none, some, List, [], ◌∷◌, ◌++◌, ◌==◌, map,
  filter, default, if◌then◌else◌, truthy, present, or_text,
}
use decentrarent.Prelude.Slices.{head_slice, short_wallet}
use decentrarent.Prelude.Outcome.{Result, ok, threw}
use decentrarent.Prelude.Dict.{Dict, lookup, insert}
use decentrarent.Api.{ApiCall}
use decentrarent.Chat.{Conversation, ChatState}
use decentrarent.Chat.Window.{Window}
use decentrarent.Properties.{Property}

pub record UserProfile : Type 0 where
  pub id : String
  pub display_name : String
  pub wallet_address : Option String

pub record Caches : Type 0 where
  pub property_cache : Dict Property
  pub user_cache : Dict String

-- `[...new Set(ids)]`
unfoldable pub unique : List String → List String
unique [] = []
unique (x ∷ xs) = x ∷ filter (λ y. not (y == x)) (unique xs)

-- `conversations.flatMap(c => [c.landlord_id, c.loaner_id])`
abbrev pub conversation_parties : List Conversation → List String
conversation_parties [] = []
conversation_parties (c ∷ cs) = c.landlord_id ∷ c.loaner_id ∷ conversation_parties cs

pub data Fetch : Type 0 where
  property_fetch user_fetch : String → Fetch

-- The request; `apiFetch` is given the token only for a user.
unfoldable pub fetch_call : Option String → Fetch → ApiCall
fetch_call token (property_fetch id) = record {
  path = "/properties/" <> id;
  method = "GET";
  body = none;
  token = none;
}
fetch_call token (user_fetch id) = record {
  path = "/users/" <> id;
  method = "GET";
  body = none;
  token = token;
}

abbrev pub is_some {ℓ} : {A : Type ℓ} → Option A → Bool
is_some none = false
is_some (some a) = true

-- `propertyCache[pid]` and `userCache[uid]` as the loops test them.
abbrev pub is_cached : Caches → Fetch → Bool
is_cached c (property_fetch id) = is_some (lookup id c.property_cache)
is_cached c (user_fetch id) = present (lookup id c.user_cache)

abbrev pub prop_ids : ChatState → List String
prop_ids s = unique (map (λ c. c.property_id) s.conversations)

abbrev pub user_ids : String → ChatState → List String
user_ids me s = filter (λ id. not (id == me)) (unique (conversation_parties s.conversations))

-- The requests of one run of the effect, in their order; `me` is `currentUserId`.
unfoldable pub cache_fetches : Window → String → ChatState → Caches → List Fetch
cache_fetches w me s c =
    if is_some w.selected_conversation
    then []
    else filter (λ f. not (is_cached c f)) (map property_fetch (prop_ids s))
      ++ filter (λ f. not (is_cached c f)) (map user_fetch (user_ids me s))

abbrev pub wallet_name : String → Option String → String
wallet_name uid none = head_slice 6 uid <> "..."
wallet_name uid (some wallet) =
    if truthy wallet then short_wallet wallet else head_slice 6 uid <> "..."

abbrev pub is_wallet : String → Option String → Bool
is_wallet name none = false
is_wallet name (some wallet) = name == wallet

-- `name`
unfoldable pub name_of : String → UserProfile → String
name_of uid u =
    if truthy u.display_name && not (is_wallet u.display_name u.wallet_address)
    then u.display_name
    else wallet_name uid u.wallet_address

abbrev pub with_property : String → Result Property → Caches → Caches
with_property id (ok p) c = record c { property_cache = insert id p c.property_cache }
with_property id (threw e) c = c

abbrev pub with_user : String → Result UserProfile → Caches → Caches
with_user id (ok u) c = record c { user_cache = insert id (name_of id u) c.user_cache }
with_user id (threw e) c = c

-- What the answer to a request makes of the caches.
module _ (property_answer : String → Result Property)
    (user_answer : String → Result UserProfile) where
  unfoldable pub on_fetched : Fetch → Caches → Caches
  unfolding name_of
  on_fetched (property_fetch id) c = with_property id (property_answer id) c
  on_fetched (user_fetch id) c = with_user id (user_answer id) c

-- `getUserName`
unfoldable pub get_user_name : Dict String → String → String
get_user_name cache id = or_text (default (lookup id cache) "") (short_wallet id)
