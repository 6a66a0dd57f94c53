-- ===== src/Chat/Subscriptions/Tests.antt =====
-- The reopening of a conversation on a client that is a list of channels.
use decentrarent.Prelude.{String, none, List, [], ◌∷◌, ◌≡◌, refl, includes, if◌then◌else◌}
use decentrarent.Prelude.Outcome.{ok, threw, Thrown, other}
use decentrarent.Chat.Types.{Conversation}
use decentrarent.Chat.Subscriptions.{Broker, IsDocumented, Subscribed, idle, select}
use decentrarent.Chat.Subscriptions.Again.{reopening-throws}

abbrev registry : Broker
registry = record {
  Client = List String;
  has_subscription = includes;
  new_subscription = λ channel c. if includes c channel then threw other else ok (channel ∷ c);
  unsubscribe = λ channel c. c;
}

-- The laws of the library can be met.
registry-IsDocumented : IsDocumented registry
registry-IsDocumented = record {
  throws = λ c channel h. (other, rw h refl);
  adds = λ c channel h. (channel ∷ c, rw h refl, λ o. refl);
  keeps = λ c channel o. refl;
}

abbrev talk : String → Conversation
talk id = record {
  id = id;
  property_id = id;
  landlord_id = "u1";
  loaner_id = "u2";
  last_message = none;
  last_message_at = none;
  created_at = "0";
}

reopening-throws_example :
    (t : Subscribed registry) × (u : Subscribed registry) × (e : Thrown) × (select registry
        (talk "c1")
        (idle registry [])
      ≡ ok t)
    × (select registry (talk "c2") t ≡ ok u)
    × (select registry (talk "c1") u ≡ threw e)
reopening-throws_example =
    reopening-throws registry registry-IsDocumented [] (talk "c1") (talk "c2") (λ channel. refl)
      refl refl refl refl
