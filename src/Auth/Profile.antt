-- ===== src/Auth/Profile.antt =====
-- auth/src/routes.rs: an account's own settings and its SSH keys. Every handler but `get_avatar`
-- takes the account that the extractor has admitted.
use spwn.Base.{
  ℕ, String, Bool, not, ◌||◌, Option, none, some, List, length, ltb, ◌*◌, map, if◌then◌else◌,
}
use spwn.Base.Text.{◌&◌, strip_prefix}
use spwn.Base.Text.Letters.{split_whitespace}
use spwn.Db.Json.{Json, obj, field, end, str, num, bool, null, arr, Items, nil, cons}
use spwn.Db.Rows.{AccountRow, AuthMode, password, passkey, password_passkey, SshKeyRow}
use spwn.Db.Vms.{is_none}
use spwn.Db.Accounts.{get_account, update_theme, update_account_display_name, update_account_avatar}
use spwn.Db.Keys.{list_ssh_keys, add_ssh_key, delete_ssh_key}
use spwn.World.{Exec, Failure, pure, ◌>>=◌, attempt, on_result, on_option}
use spwn.Auth.Http.{
  Response, text, json, bytes, failure, status, with_body, error_json, or_500, is_unique,
}

abbrev pub str_or_null : Option String → Json
str_or_null none = null
str_or_null (some s) = str s

abbrev pub mode_text : AuthMode → String
mode_text password = "password"
mode_text passkey = "passkey"
mode_text password_passkey = "password_passkey"

-- MeResponse
unfoldable pub me_response : AccountRow → Response
me_response acc = with_body 200 (
    json (
      obj (
        field "id" (str acc.id) (
          field "email" (str acc.email) (
            field "username" (str acc.username) (
              field "display_name" (str_or_null acc.display_name) (
                field "has_avatar" (bool (not (is_none acc.avatar_bytes))) (
                  field "theme" (str acc.theme) (
                    field "vm_limit" (num acc.vm_limit) (
                      field "vcpu_limit" (num acc.vcpu_limit) (
                        field "mem_limit_mb" (num acc.mem_limit_mb) (
                          field "role" (str acc.role)
                            (field "auth_mode" (str (mode_text acc.auth_mode)) end)))))))))))))

unfoldable pub me : String → Exec Response
unfolding me_response
me account_id =
    or_500 (get_account account_id)
      (λ account. on_option account (λ acc. pure (me_response acc)) (pure (status 401)))

unfoldable pub set_theme : String → String → Exec Response
set_theme account_id theme = or_500 (update_theme account_id theme) (λ done. pure (status 204))

unfoldable pub update_profile : String → Option String → Exec Response
update_profile account_id display_name =
    or_500 (update_account_display_name account_id display_name) (λ done. pure (status 204))

abbrev text_or_empty : Option String → String
text_or_empty none = ""
text_or_empty (some s) = s

abbrev starts_with : String → String → Bool
starts_with p s = not (is_none (strip_prefix p s))

abbrev is_image : String → Bool
is_image content_type =
    starts_with "image/png" content_type
    || (starts_with "image/jpeg" content_type || starts_with "image/webp" content_type)

abbrev max_avatar_bytes : ℕ
max_avatar_bytes = 10 * 1024 * 1024

-- `resize_avatar` is the image crate's: none when the bytes are no image.
unfoldable pub upload_avatar :
    (List ℕ → Option (List ℕ)) → String → Option String → List ℕ → Exec Response
upload_avatar resize_avatar account_id content_type body =
    if not (is_image (text_or_empty content_type))
    then pure (with_body 400 (text "unsupported image type"))
    else if ltb max_avatar_bytes (length body)
    then pure (with_body 400 (text "image too large (max 10mb)"))
    else on_option (resize_avatar body)
        (λ resized. or_500 (update_account_avatar account_id resized) (λ done. pure (status 204)))
        (pure (with_body 400 (text "could not decode image")))

unfoldable pub get_avatar : String → Exec Response
get_avatar account_id = or_500 (get_account account_id) (λ account.
    on_option account
      (λ acc.
        on_option acc.avatar_bytes (λ png. pure (with_body 200 (bytes png))) (pure (status 404)))
      (pure (status 404)))

-- A failure of the database is told with its message.
abbrev pub or_error :
    {A : Type 0} → (Failure → Response) → Exec A → (A → Exec Response) → Exec Response
or_error told m f = do r ← attempt m; on_result r f (λ e. pure (told e))

-- e.to_string(), whose text stands for the failure
abbrev pub told_500 : Failure → Response
told_500 e = with_body 500 (failure e)

unfoldable pub key_json : SshKeyRow → Json
key_json k = obj (
    field "id" (str k.id) (
      field "name" (str k.name)
        (field "fingerprint" (str k.fingerprint) (field "created_at" (num k.created_at) end))))

unfoldable pub items : List Json → Items
items List.[] = nil
items (List.◌∷◌ x xs) = cons x (items xs)

unfoldable pub ssh_keys : String → Exec Response
unfolding key_json items
ssh_keys account_id =
    or_error told_500 (list_ssh_keys account_id)
      (λ keys. pure (with_body 200 (json (arr (items (map key_json keys))))))

abbrev key_refused : Failure → Response
key_refused e = if is_unique e then with_body 409 (error_json "key already added") else told_500 e

abbrev second : List String → Option String
second (List.◌∷◌ a (List.◌∷◌ b rest)) = some b
second _ = none

abbrev digested : (List ℕ → String) → Option (List ℕ) → Option String
digested fingerprint none = none
digested fingerprint (some key) = some ("SHA256:" & fingerprint key)

-- `decode` is base64's, and `digest` the SHA-256 of the bytes in base64.
unfoldable pub ssh_key_fingerprint :
    (String → Option (List ℕ)) → (List ℕ → String) → String → Option String
ssh_key_fingerprint decode digest public_key = elim (second (split_whitespace public_key)) [
  | none ↦ none
  | some b64 ↦ digested digest (decode b64)
]

unfoldable pub new_ssh_key :
    (String → Option (List ℕ)) → (List ℕ → String) → String → String → String → Exec Response
unfolding key_json ssh_key_fingerprint
new_ssh_key decode digest account_id name public_key =
    on_option (ssh_key_fingerprint decode digest public_key)
      (λ fingerprint.
        or_error key_refused (add_ssh_key account_id name public_key fingerprint)
          (λ key. pure (with_body 201 (json (key_json key)))))
      (pure (with_body 400 (error_json "invalid public key")))

unfoldable pub remove_ssh_key : String → String → Exec Response
remove_ssh_key account_id id =
    or_error told_500 (delete_ssh_key id account_id)
      (λ deleted. pure (if deleted then status 204 else with_body 404 (error_json "key not found")))
