-- ===== src/Http.antt =====
-- HttpService of the provisioning firmware
-- (perceptive-layer/mqtt_protobuff/FIRM_PROVISIONING_MQTT_PROTOBUFF/main/src/HttpService.cpp): one
-- request, with the answers of esp_http_client as arguments.
use governance_iot_platform.Prelude.{
  ℕ, ltb, leb, String, Bool, true, false, not, ◌&&◌, ◌||◌, if◌then◌else◌, Option, none, some, List,
  [], ◌∷◌,
}
use mathlib.Core.List.{foldl}
use Prim.Native.String.{◌++◌ as text_append}
use governance_iot_platform.Nvs.{Nvs}
use governance_iot_platform.AppState.Codes.{
  http_init, http_request, http_init_fail, http_request_fail,
}
use governance_iot_platform.Device.{World, at, set_error, transition}
pub mod Outcomes

pub data Method : Type 0 where
  get_method post_method : Method

-- HTTP_EVENT_ON_DATA with its bytes, and the other events of the client
pub data HttpEvent : Type 0 where
  on_data : String → HttpEvent
  other_event : HttpEvent

-- http_event_handler
unfoldable pub http_event_handler : String → HttpEvent → String
http_event_handler buffer (on_data bytes) = text_append buffer bytes
http_event_handler buffer other_event = buffer

-- what esp_http_client_perform ends with: the status code, or the name of its error
pub data Answer : Type 0 where
  status_code : ℕ → Answer
  client_error : String → Answer

-- The headers and the body of a request.
pub record Request : Type 0 where
  pub url : String
  pub body : Option String
  pub content_type : Option String
  pub authorization : Option String

unfoldable pub prepare : String → Method → String → Option String → Option String → Request
prepare url get_method payload content_type authorization = record {
  url = url;
  body = none;
  content_type = none;
  authorization = authorization;
}
prepare url post_method payload none authorization = record {
  url = url;
  body = some payload;
  content_type = some "application/json";
  authorization = authorization;
}
prepare url post_method payload (some given) authorization = record {
  url = url;
  body = some payload;
  content_type = some given;
  authorization = authorization;
}

-- What a request leaves: the state, its result, response_buffer, msgOut, and the request that was
-- made, if the client could be created.
pub record Performed (S : Type 0) : Type 0 where
  pub state : S
  pub success : Bool
  pub response : String
  pub message : String
  pub request : Option Request

module _ (nvs : Nvs) (print : ℕ → String) where
  unfoldable pub conclude : Answer → String → World nvs → World nvs × Bool × String
  conclude (status_code n) response w =
      let good =
        text_append "Request Successful (Code: "
          (text_append (print n) (text_append ")Response Buffer:" response)) in
      let bad = text_append "HTTP Code: " (print n) in
      if leb 200 n && ltb n 300 then (w, true, good) else (
        set_error nvs http_request_fail bad (at "HttpService" "perform_request") [] w,
        false,
        bad,
      )
  conclude (client_error name) response w =
      let msg = text_append "Falha no request HTTP: " name in
      (set_error nvs http_request_fail msg (at "HttpService" "perform_request") [] w, false, msg)

  -- HttpService::perform_request: whether the client is created, and what it meets
  unfoldable pub perform_request :
      Bool → List HttpEvent → Answer → Request → World nvs → Performed (World nvs)
  unfolding http_event_handler conclude
  perform_request false events answer r w =
      let msg : String = "Falha ao inicializar cliente HTTP" in
      record {
        state =
            set_error nvs http_init_fail msg (at "HttpService" "perform_request") []
              (transition nvs http_init w);
        success = false;
        response = "";
        message = msg;
        request = none;
      }
  perform_request true events answer r w =
      let response = foldl http_event_handler "" events in
      let (w', success, msg) =
        conclude answer response (transition nvs http_request (transition nvs http_init w)) in
      record { state = w'; success = success; response = response; message = msg; request = some r }

  -- HttpService::get
  unfoldable pub get :
      Bool → List HttpEvent → Answer → String → Option String → World nvs → Performed (World nvs)
  unfolding prepare perform_request
  get created events answer url authorization w =
      perform_request created events answer (prepare url get_method "" none authorization) w

  -- HttpService::post
  unfoldable pub post :
      Bool
      → List HttpEvent
      → Answer
      → String
      → String
      → Option String
      → Option String
      → World nvs
      → Performed (World nvs)
  unfolding prepare perform_request
  post created events answer url payload content_type authorization w =
      perform_request created events answer
        (prepare url post_method payload content_type authorization) w
