-- ===== src/Chat/Refine.antt =====
-- The store refines its contract.
use decentrarent.Chat.Types.{Message}
use decentrarent.Prelude.{
  ℕ, String, ◌≡◌, refl, ap, fun_ext, List, [], ◌∷◌, ◌++◌, ◌+◌, arith, default, foldl, ◌∙◌,
}
use decentrarent.Prelude.Dict.{Dict, lookup, insert, lookup-insert}
use decentrarent.Chat.Store.{
  ChatState, messages_of, unread_of, set_conversations, set_active_conversation, set_messages,
  add_message, prepend_messages, increment_unread, clear_unread, update_conversation_last_message,
}
use decentrarent.Chat.Spec.{Abstract, view, Op, apply, at, spec}

-- A lookup with a default, after an insertion, as a function of the key.
default-insert {ℓ} :
    {V : Type ℓ} (k : String) (v d : V) (m : Dict V)
    → (λ (j : String). default (lookup j (insert k v m)) d) ≡ at k v (λ j. default (lookup j m) d)
default-insert k v d m = fun_ext λ j. ground (arith, lookup-insert k j v m)

-- Paths between two contract states that differ in one field.
log_path :
    (s : ChatState) {f g : String → List Message}
    → f ≡ g
    → ◌≡◌ {A = Abstract} (record (view s) { log = f }) (record (view s) { log = g })
log_path s p = ap (λ h. record (view s) { log = h }) p

unread_path :
    (s : ChatState) {f g : String → ℕ}
    → f ≡ g
    → ◌≡◌ {A = Abstract} (record (view s) { unread = f }) (record (view s) { unread = g })
unread_path s p = ap (λ h. record (view s) { unread = h }) p

-- Every action of the store is the corresponding change of the contract's state.
pub apply_refines : (op : Op) (s : ChatState) → view (apply op s) ≡ spec op (view s)
unfolding apply set_conversations set_active_conversation set_messages add_message prepend_messages
    increment_unread clear_unread update_conversation_last_message
apply_refines (Op.op_set_conversations cs) s = refl
apply_refines (Op.op_set_active id) s = refl
apply_refines (Op.op_set_messages id ms) s = log_path s (default-insert id ms [] s.messages)
apply_refines (Op.op_add_message id m) s =
    log_path s (default-insert id (messages_of id s ++ m ∷ []) [] s.messages)
apply_refines (Op.op_prepend id ms) s =
    log_path s (default-insert id (ms ++ messages_of id s) [] s.messages)
apply_refines (Op.op_increment id) s =
    unread_path s (default-insert id (unread_of id s + 1) 0 s.unread_counts)
apply_refines (Op.op_clear id) s = unread_path s (default-insert id 0 0 s.unread_counts)
apply_refines (Op.op_last_message id c t) s = refl

-- So a run of actions is the run of their changes, in order.
pub run_refines :
    (ops : List Op) (s : ChatState)
    → view (foldl (λ t op. apply op t) s ops) ≡ foldl (λ a op. spec op a) (view s) ops
run_refines [] s = refl
run_refines (op ∷ ops) s =
    run_refines ops (apply op s) ∙ ap (λ a. foldl (λ a op. spec op a) a ops) (apply_refines op s)
