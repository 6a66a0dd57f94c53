-- ===== src/Chat/Window/Photos.antt =====
-- `handlePhotoSend` of frontend/src/features/chat/components/ChatWindow.tsx, and the effect that asks
-- for the property of the selected conversation.
use decentrarent.Prelude.{
  String, ◌<>◌, Bool, true, false, Option, none, some, List, [], ◌∷◌, if◌then◌else◌, truthy, ◌≡◌,
  refl,
}
use decentrarent.Prelude.Outcome.{Result, ok, threw, Thrown}
use decentrarent.Api.{ApiCall, text_value}
use decentrarent.Chat.{Conversation}

pub record PhotoFile : Type 0 where
  pub name : String
  pub type : String

-- What is sent: requests of the API, and the file itself.
pub data Sent : Type 0 where
  asked : ApiCall → Sent
  put_file : String → PhotoFile → Sent

pub record UploadUrl : Type 0 where
  pub upload_url : String
  pub file_key : String

abbrev pub url_call : Conversation → String → PhotoFile → ApiCall
url_call conv token file = record {
  path = "/conversations/" <> (conv.id <> "/photos/upload-url");
  method = "POST";
  body = some (("file_name", text_value file.name) ∷ []);
  token = some token;
}

abbrev pub photo_call : Conversation → String → String → ApiCall
photo_call conv token key = record {
  path = "/conversations/" <> (conv.id <> "/photos");
  method = "POST";
  body = some (("file_key", text_value key) ∷ ("caption", text_value "") ∷ []);
  token = some token;
}

-- What the three awaits give. The second is a plain `fetch`: it gives an answer, of which the flag
-- says whether it is ok, and throws only when there is none.
pub record PhotoAnswers : Type 0 where
  pub url : Result UploadUrl
  pub put : Result Bool
  pub photo : Result (Unit {0})

-- What was sent, and what the console is told.
abbrev pub Trace : Type 0
Trace = List Sent × Option Thrown

abbrev pub then_sent : Sent → Trace → Trace
then_sent s (sent, e) = (s ∷ sent, e)

abbrev pub logged : Result (Unit {0}) → Option Thrown
logged (ok _) = none
logged (threw e) = some e

abbrev pub after_put : Conversation → String → String → PhotoAnswers → Result Bool → Trace
after_put conv token key a (threw e) = ([], some e)
after_put conv token key a (ok is_ok) = (asked (photo_call conv token key) ∷ [], logged a.photo)

abbrev pub after_url : Conversation → String → PhotoFile → PhotoAnswers → Result UploadUrl → Trace
after_url conv token file a (threw e) = ([], some e)
after_url conv token file a (ok u) =
    then_sent (put_file u.upload_url file) (after_put conv token u.file_key a a.put)

abbrev pub send_with : Conversation → String → PhotoFile → PhotoAnswers → Bool → Bool × Trace
send_with conv token file a uploading =
    if truthy token
    then (false, then_sent (asked (url_call conv token file)) (after_url conv token file a a.url))
    else (uploading, ([], none))

-- The flag `photoUploading` after it, and the trace.
unfoldable pub handle_photo_send :
    Option Conversation → Option String → PhotoFile → PhotoAnswers → Bool → Bool × Trace
handle_photo_send none token file a uploading = (uploading, ([], none))
handle_photo_send (some conv) none file a uploading = (uploading, ([], none))
handle_photo_send (some conv) (some token) file a uploading = send_with conv token file a uploading

-- Whatever the store answers to the file, the message is asked for once it has answered at all, with
-- the key that came with the address; and the flag is down after every course.
pub handle_photo_send-registers :
    (conv : Conversation) (token : String) (file : PhotoFile) (a : PhotoAnswers) (uploading : Bool)
    → truthy token ≡ true
    → ((handle_photo_send (some conv) (some token) file a uploading).0 ≡ false)
      × ((u : UploadUrl) (is_ok : Bool)
          → a.url ≡ ok u
          → a.put ≡ ok is_ok
          → (handle_photo_send (some conv) (some token) file a uploading).1 ≡ (
            asked (url_call conv token file)
                ∷ put_file u.upload_url file
                ∷ asked (photo_call conv token u.file_key)
                ∷ [],
            logged a.photo,
          ))
unfolding handle_photo_send
handle_photo_send-registers conv token file a uploading h =
    rw h (refl, λ u is_ok url put. rw (url, put) refl)
