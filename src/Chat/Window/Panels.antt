-- ===== src/Chat/Window/Panels.antt =====
-- What frontend/src/features/chat/components/ChatWindow.tsx opens and shuts: the search, the form for
-- an order and the panel with the orders, and which of the two screens is shown.
use decentrarent.Prelude.{
  String, Bool, true, false, not, Option, none, some, List, [], ◌∷◌, ◌≡◌, refl, if◌then◌else◌, leb,
  ℕ, ◌+◌, Bool-cases, inl, inr, sym, ◌∙◌,
}
use decentrarent.Prelude.Outcome.{Result, ok, threw}
use decentrarent.Prelude.Dict.{Dict}
use decentrarent.Chat.{Conversation, ChatState}
use decentrarent.Chat.Window.{
  Window, initial_window, PropertyGroup, select_conversation, open_located, back, touch_end,
  conversation_click, group_click, end_delete, is_swiped,
}
use decentrarent.Chat.Window.Search.{filtered_groups}

pub record Panels : Type 0 where
  pub window : Window
  pub search_query : String
  pub show_search : Bool
  pub show_order_modal : Bool

unfoldable pub initial_panels : Panels
unfolding initial_window
initial_panels = record {
  window = initial_window;
  search_query = "";
  show_search = false;
  show_order_modal = false;
}

-- The magnifier and the field of the search.
unfoldable pub toggle_search : Panels → Panels
toggle_search p = record p { show_search = not p.show_search }

unfoldable pub type_query : String → Panels → Panels
type_query text p = record p { search_query = text }

-- The button for a new order, and `onClose` of its form.
unfoldable pub open_order_modal : Panels → Panels
open_order_modal p = record p { show_order_modal = true }

unfoldable pub close_order_modal : Panels → Panels
close_order_modal p = record p { show_order_modal = false }

-- The button for the orders, and `onClose` of their panel.
unfoldable pub toggle_orders : Window → Window
toggle_orders w = record w { show_orders_panel = not w.show_orders_panel }

unfoldable pub close_orders : Window → Window
close_orders w = record w { show_orders_panel = false }

-- What is on the screen: a conversation, with its panel and its form or without; or the groups of the
-- list, with the field of the search or without.
pub data WindowView : Type 0 where
  conversation_screen : Conversation → Bool → Bool → WindowView
  list_screen : Option String → List PropertyGroup → WindowView

abbrev pub search_field : Bool → String → Option String
search_field shown text = if shown then some text else none

abbrev pub screen_on :
    (String → String)
    → String
    → Dict String
    → List PropertyGroup
    → Panels
    → Option Conversation
    → WindowView
screen_on lower me cache groups p (some c) =
    conversation_screen c p.window.show_orders_panel p.show_order_modal
screen_on lower me cache groups p none =
    list_screen (search_field p.show_search p.search_query)
      (filtered_groups lower me cache p.search_query groups)

unfoldable pub window_view :
    (String → String) → String → Dict String → List PropertyGroup → Panels → WindowView
window_view lower me cache groups p =
    screen_on lower me cache groups p p.window.selected_conversation

-- The parts of the window that clicks and answers change; the panel and its button are there with a
-- conversation only.
pub data Step (s : ChatState) : Window → Window → Type 0 where
  selected : (c : Conversation) (w : Window) → Step s w (select_conversation c (w, s)).0
  located : (c : Option Conversation) (w : Window) → Step s w (open_located c (w, s)).0
  went_back : (w : Window) → Step s w (back w)
  touched : (id : String) (from to : ℕ) (w : Window) → Step s w (touch_end id from to w)
  clicked : (c : Conversation) (w : Window) → Step s w (conversation_click c (w, s)).0
  group_clicked :
      (id : String) (cs : List Conversation) (w : Window) → Step s w (group_click id cs (w, s)).0
  deleted : (r : Result (Unit {0})) (w : Window) → Step s w (end_delete r w)
  panel_toggled :
      (c : Conversation) (w : Window)
      → w.selected_conversation ≡ some c
      → Step s w (toggle_orders w)
  closed : (w : Window) → Step s w (close_orders w)

pub data Reach : Window → Type 0 where
  start : Reach initial_window
  next : {v w : Window} (s : ChatState) → Reach v → Step s v w → Reach w

-- Without a conversation the panel with the orders is shut.
abbrev pub IsShut : Window → Type 0
IsShut w = w.selected_conversation ≡ none → w.show_orders_panel ≡ false

toggled-IsShut :
    (c : Conversation) (w : Window) → w.selected_conversation ≡ some c → IsShut (toggle_orders w)
unfolding toggle_orders
toggled-IsShut c w there gone = cc (sym there ∙ gone)

clicked-IsShut :
    (c : Conversation) (w : Window) (s : ChatState)
    → IsShut w
    → IsShut (conversation_click c (w, s)).0
unfolding conversation_click select_conversation
clicked-IsShut c w s v = elim (Bool-cases (is_swiped c.id w.swiped_conv_id)) [
  | inl swiped ↦ rw swiped v
  | inr still ↦ rw still (λ gone. cc gone)
]

touched-IsShut :
    (id : String) (from to : ℕ) (w : Window) → IsShut w → IsShut (touch_end id from to w)
unfolding touch_end
touched-IsShut id from to w v = elim (Bool-cases (leb (to + 61) from)) [
  | inl left ↦ rw left v
  | inr h ↦
      rw h
        (elim (Bool-cases (leb (from + 31) to)) [ inl right ↦ rw right v | inr still ↦ rw still v ])
]

Step-IsShut : (s : ChatState) {v w : Window} → Step s v w → IsShut v → IsShut w
unfolding select_conversation open_located back group_click end_delete close_orders
Step-IsShut s (selected c w) v = λ gone. cc gone
Step-IsShut s (located none w) v = v
Step-IsShut s (located (some c) w) v = λ gone. cc gone
Step-IsShut s (went_back w) v = λ gone. refl
Step-IsShut s (touched id from to w) v = touched-IsShut id from to w v
Step-IsShut s (clicked c w) v = clicked-IsShut c w s v
Step-IsShut s (group_clicked id [] w) v = v
Step-IsShut s (group_clicked id (c ∷ []) w) v = clicked-IsShut c w s v
Step-IsShut s (group_clicked id (c ∷ d ∷ cs) w) v = v
Step-IsShut s (deleted (ok _) w) v = v
Step-IsShut s (deleted (threw e) w) v = v
Step-IsShut s (panel_toggled c w there) v = toggled-IsShut c w there
Step-IsShut s (closed w) v = λ gone. refl

Reach-IsShut : {w : Window} → Reach w → IsShut w
unfolding initial_window
Reach-IsShut start = λ gone. refl
Reach-IsShut (next s r st) = Step-IsShut s st (Reach-IsShut r)

-- However the window has come to show the list, a conversation that is selected there opens without
-- the panel of the orders, whatever panel the last one had.
pub selected-IsShut :
    (lower : String → String) (me : String) (cache : Dict String) (groups : List PropertyGroup)
    (c : Conversation) (s : ChatState) (p : Panels)
    → Reach p.window
    → p.window.selected_conversation ≡ none
    → window_view lower me cache groups
        (record p { window = (select_conversation c (p.window, s)).0 })
      ≡ conversation_screen c false p.show_order_modal
unfolding window_view select_conversation
selected-IsShut lower me cache groups c s p r there = rw (Reach-IsShut r there) refl

-- A query that was typed goes on to filter the list after the field is hidden, where nothing on the
-- screen tells it.
pub hidden_query :
    (lower : String → String) (me : String) (cache : Dict String) (groups : List PropertyGroup)
    (text : String) (p : Panels)
    → p.window.selected_conversation ≡ none
    → p.show_search ≡ true
    → window_view lower me cache groups (toggle_search (type_query text p))
      ≡ list_screen none (filtered_groups lower me cache text groups)
unfolding window_view toggle_search type_query
hidden_query lower me cache groups text p there shown = rw (there, shown) refl
