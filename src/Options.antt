-- ===== src/Options.antt =====
-- garwarp/src/portal_options.rs: the typed options of the portal's methods. The values come from
-- zbus, which is not in the repository: their type and the two conversions are parameters.
use garwarp.Base.{Bool, Option, none, some, Result, ok, err, ◌>>=◌, Text, codes}
use garwarp.Base.Map.{Map, get}
use garwarp.Error.{PortalError, invalid_request_payload}

pub record ScreenshotOptions : Type 0 where
  pub modal : Option Bool
  pub interactive : Option Bool
  pub permission_store_checked : Option Bool

pub record FileChooserOptions : Type 0 where
  pub accept_label : Option Text
  pub modal : Option Bool
  pub multiple : Option Bool
  pub directory : Option Bool
  pub current_name : Option Text

pub record AppChooserOptions : Type 0 where
  pub last_choice : Option Text
  pub modal : Option Bool
  pub content_type : Option Text
  pub uri : Option Text
  pub filename : Option Text
  pub activation_token : Option Text

-- `.map(convert).transpose()`.
unfoldable pub converted :
    {Value A : Type 0} → (Value → Option A) → Option Value → Result PortalError (Option A)
converted convert none = ok none
converted convert (some value) = elim (convert value) [
  | none ↦ err invalid_request_payload
  | some a ↦ ok (some a)
]

-- `bool::try_from` and `<&str>::try_from` of `OwnedValue`, none for an error.
module _ {Value : Type 0} (as_bool : Value → Option Bool) (as_text : Value → Option Text) where
  unfoldable pub bool_option : Map Value → Text → Result PortalError (Option Bool)
  unfolding converted
  bool_option options key = converted as_bool (get key options)

  unfoldable pub string_option : Map Value → Text → Result PortalError (Option Text)
  unfolding converted
  string_option options key = converted as_text (get key options)

  unfoldable pub parse_screenshot_options : Map Value → Result PortalError ScreenshotOptions
  parse_screenshot_options options = do
    modal ← bool_option options (codes "modal")
    interactive ← bool_option options (codes "interactive")
    checked ← bool_option options (codes "permission_store_checked")
    ok (record { modal = modal; interactive = interactive; permission_store_checked = checked })

  unfoldable pub parse_file_chooser_options : Map Value → Result PortalError FileChooserOptions
  parse_file_chooser_options options = do
    accept_label ← string_option options (codes "accept_label")
    modal ← bool_option options (codes "modal")
    multiple ← bool_option options (codes "multiple")
    directory ← bool_option options (codes "directory")
    current_name ← string_option options (codes "current_name")
    ok (record {
      accept_label = accept_label;
      modal = modal;
      multiple = multiple;
      directory = directory;
      current_name = current_name;
    })

  unfoldable pub parse_app_chooser_options : Map Value → Result PortalError AppChooserOptions
  parse_app_chooser_options options = do
    last_choice ← string_option options (codes "last_choice")
    modal ← bool_option options (codes "modal")
    content_type ← string_option options (codes "content_type")
    uri ← string_option options (codes "uri")
    filename ← string_option options (codes "filename")
    activation_token ← string_option options (codes "activation_token")
    ok (record {
      last_choice = last_choice;
      modal = modal;
      content_type = content_type;
      uri = uri;
      filename = filename;
      activation_token = activation_token;
    })
