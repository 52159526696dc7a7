-- ===== src/Command/Updates.antt =====
-- The command UPDATE: when a download starts, and when a second one starts beside it.
use governance_iot_platform.Prelude.{
  String, true, false, ◌||◌, if◌then◌else◌, some, List, [], ◌∷◌, ◌≡◌, ap, arith, Bool,
}
use governance_iot_platform.Nvs.{Nvs}
use governance_iot_platform.AppState.Codes.{
  ota_found, ota_downloading, ErrorCode, Source, state_index,
}
use governance_iot_platform.AppState
use governance_iot_platform.Device.{World, set_error, transition}
use governance_iot_platform.Device.State.{start_ota}
use governance_iot_platform.Command.{
  Json, update, get_command_type, Answers, good, is_state, update_fields, run_update, dispatch,
  manage_command, manage_item, manage,
}

module _ (nvs : Nvs) (json : Json) where
  -- The payload is a JSON object with the command UPDATE and its three texts.
  pub record IsUpdate (payload version url sha : String) : Type 0 where
    pub root : json.Item
    pub command : json.Item
    pub body : json.Item
    pub version_item : json.Item
    pub url_item : json.Item
    pub sha_item : json.Item
    pub parsed : json.parse payload ≡ some root
    pub has_command : json.get_object_item root "command" ≡ some command
    pub command_string : json.is_string command ≡ true
    pub command_update : get_command_type (json.valuestring command) ≡ update
    pub has_body : json.get_object_item root "payload" ≡ some body
    pub body_object : json.is_object body ≡ true
    pub has_version : json.get_object_item body "version" ≡ some version_item
    pub has_url : json.get_object_item body "url" ≡ some url_item
    pub has_sha : json.get_object_item body "versionSHA" ≡ some sha_item
    pub version_string : json.is_string version_item ≡ true
    pub url_string : json.is_string url_item ≡ true
    pub sha_string : json.is_string sha_item ≡ true
    pub version_value : json.valuestring version_item ≡ version
    pub url_value : json.valuestring url_item ≡ url
    pub sha_value : json.valuestring sha_item ≡ sha

  fields_of_update :
      (version url sha : json.Item)
      → json.is_string version ≡ true
      → json.is_string url ≡ true
      → json.is_string sha ≡ true
      → update_fields nvs json (some version) (some url) (some sha)
        ≡ good (json.valuestring version) (json.valuestring url) (json.valuestring sha)
  unfolding update_fields
  fields_of_update version url sha v u s = ground arith

  manage_update :
      {payload version url sha : String}
      → IsUpdate payload version url sha
      → (a : Answers) (w : World nvs)
      → manage nvs json a payload w ≡ run_update nvs json a (good version url sha) w
  unfolding manage manage_item manage_command dispatch
  manage_update r a w =
      rw (r.parsed, manage)
        (rw (r.has_command, manage_item)
          (rw r.command_string (
            rw (r.has_body, manage_command)
              (rw (r.body_object, r.command_update, r.has_version, r.has_url, r.has_sha)
                (rw (fields_of_update _ _ _ r.version_string r.url_string r.sha_string)
                  (rw (r.version_value, r.url_value, r.sha_value)))))))

  -- When the task can be created, an update starts a download exactly when none is in progress by
  -- the device's state; if one is, the reply is success and nothing changes.
  pub update_starts_once :
      (a : Answers) (payload version url sha : String) (w : World nvs)
      → IsUpdate payload version url sha
      → a.task_created ≡ true
      → manage nvs json a payload w ≡ (
          if is_state w.app.current ota_found || is_state w.app.current ota_downloading
          then (w, true)
          else (
            record w {
              app = AppState.transition ota_found w.app;
              effects = start_ota version url sha ∷ w.effects;
            },
            true,
          ))
  unfolding run_update transition
  update_starts_once a payload version url sha w u t = rw (manage_update u a w) (ground arith)

  abbrev pub is_updating : World nvs → Bool
  is_updating w = is_state w.app.current ota_found || is_state w.app.current ota_downloading

  -- What follows an update: further commands, and the transition of the task that begins to download.
  pub data Event : Type 0 where
    asks : String → Event
    downloads : Event

  unfoldable pub handle : Answers → Event → World nvs → World nvs
  handle a (asks payload) w = (manage nvs json a payload w).0
  handle a downloads w = transition nvs ota_downloading w

  unfoldable pub handle_all : Answers → List Event → World nvs → World nvs
  unfolding handle
  handle_all a [] w = w
  handle_all a (e ∷ es) w = handle_all a es (handle a e w)

  -- each command asks for an update, of whatever version
  abbrev pub AreUpdates : List Event → Type 0
  AreUpdates [] = Unit
  AreUpdates (asks payload ∷ es) =
      ((version : String) × (url : String) × (sha : String) × IsUpdate payload version url sha)
      × AreUpdates es
  AreUpdates (downloads ∷ es) = AreUpdates es

  -- the device on which the task of an update begins
  abbrev found : String → String → String → World nvs → World nvs
  found version url sha w = record w {
    app = AppState.transition ota_found w.app;
    effects = start_ota version url sha ∷ w.effects;
  }

  -- A second update during the download is ignored; but once any task has reported an error, the
  -- state no longer says that a download is in progress, and the second update starts another one.
  pub update_restarts_after_error :
      (a : Answers) (payload version url sha : String) (code : ErrorCode) (msg : String)
      (source : Source) (details : List (String × String)) (w : World nvs)
      → IsUpdate payload version url sha
      → a.task_created ≡ true
      → w.app.ready ≡ true
      → (is_state w.app.current ota_found || is_state w.app.current ota_downloading) ≡ false
      → let w1 = (manage nvs json a payload w).0 in
        let w2 = set_error nvs code msg source details w1 in
        (manage nvs json a payload w1 ≡ (w1, true))
        × ((manage nvs json a payload w2).0.effects
            ≡ start_ota version url sha ∷ start_ota version url sha ∷ w.effects)
  unfolding AppState.transition set_error AppState.register state_index
  update_restarts_after_error a payload version url sha code msg source details w u t r free =
      let once = update_starts_once a payload version url sha in
      rw (once w u t) (rw free (rw r (once _ u t, ap (λ r. r.0.effects) (once _ u t))))
