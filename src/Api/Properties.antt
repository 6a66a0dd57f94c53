-- ===== src/Api/Properties.antt =====
-- The requests of frontend/src/features/properties/api.ts.
use decentrarent.Prelude.{String, ◌<>◌, Option, none, some, [], ◌∷◌, truthy, if◌then◌else◌}
use decentrarent.Prelude.Dict.{Dict}
use decentrarent.Api.{Value, text_value, ApiCall}
use decentrarent.Api.Calls.{get, send}

-- `query` is the text of the `URLSearchParams`.
unfoldable pub list_properties : String → Option String → ApiCall
list_properties query token =
    get ("/properties" <> (if truthy query then "?" <> query else "")) token

unfoldable pub get_property : String → Option String → ApiCall
get_property id token = get ("/properties/" <> id) token

-- The members of a new property.
unfoldable pub create_property : Dict Value → String → ApiCall
create_property members token = send "POST" "/properties" (some members) token

-- The members of an update that are given.
unfoldable pub update_property : String → Dict Value → String → ApiCall
update_property id changes token = send "PUT" ("/properties/" <> id) (some changes) token

unfoldable pub delete_property : String → String → ApiCall
delete_property id token = send "DELETE" ("/properties/" <> id) none token

unfoldable pub update_property_status : String → String → String → ApiCall
update_property_status id status token =
    send "PATCH" ("/properties/" <> (id <> "/status")) (some (("status", text_value status) ∷ []))
      token

unfoldable pub get_upload_url : String → String → String → ApiCall
get_upload_url id file_name token =
    send "POST" ("/properties/" <> (id <> "/media/upload-url"))
      (some (("file_name", text_value file_name) ∷ [])) token

unfoldable pub register_media : String → String → String → ApiCall
register_media id file_key token =
    send "POST" ("/properties/" <> (id <> "/media")) (some (("file_key", text_value file_key) ∷ []))
      token

unfoldable pub delete_media : String → String → String → ApiCall
delete_media id media_id token =
    send "DELETE" ("/properties/" <> (id <> ("/media/" <> media_id))) none token
