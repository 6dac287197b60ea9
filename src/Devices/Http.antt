-- ===== src/Devices/Http.antt =====
-- internal/devices/http.go: the registry over HTTP. The request's body is what the JSON decoder makes
-- of it, `none` where it refuses it; the text null is taken, as no keys. The path is a clean one:
-- http.ServeMux redirects the others, and gives a path that no pattern matches a 404.
pub mod Answers
use job_scheduler_tooling.Prelude.{
  ℕ, String, Bool, true, false, not, ◌&&◌, List, Option, none, some, str_eq, if◌then◌else◌,
}
use job_scheduler_tooling.Prelude.Dict.{Dict}
use job_scheduler_tooling.Text.{after_prefix, cut}
use job_scheduler_tooling.Queue.{Time}
use job_scheduler_tooling.Devices.{Entry}
use job_scheduler_tooling.Devices.Registry.{Registry, status, list, set_config_of, retry_of}

pub record Request : Type 0 where
  pub method : String
  pub path : String
  pub body : Option (Dict String)

pub data Payload : Type 0 where
  statuses : List Entry → Payload
  one_status : Entry → Payload
  version : ℕ → Payload
  message : String → Payload
  no_body : Payload

pub record Response : Type 0 where
  pub code : ℕ
  pub payload : Payload

abbrev pub fails : ℕ → String → Response
fails code text = record { code = code; payload = message text }

unfoldable pub get_device : String → Registry → Response
get_device id r = elim (status id r) [
  | none ↦ fails 404 "unknown device"
  | some e ↦ record { code = 200; payload = one_status e }
]

-- What a call that may not know the device answers.
abbrev pub answer_version : Registry × Option ℕ → Registry × Response
answer_version (r, none) = (r, fails 404 "unknown device")
answer_version (r, some v) = (r, record { code = 202; payload = version v })

abbrev pub answer_retry : Registry × Bool → Registry × Response
answer_retry (r, false) = (r, fails 404 "unknown device")
answer_retry (r, true) = (r, record { code = 202; payload = no_body })

unfoldable pub put_config : Time → String → Option (Dict String) → Registry → Registry × Response
put_config now id none r = (r, fails 400 "body must be a JSON object of string values")
put_config now id (some cfg) r = answer_version (set_config_of now id cfg r)

-- The handler of "/devices/", the prefix taken off.
unfoldable pub device_handler : Time → Request → String → Registry → Registry × Response
device_handler now req rest r =
    let (id, sub) = cut b'/' rest in
    if str_eq req.method "GET" && str_eq sub ""
    then (r, get_device id r)
    else if str_eq req.method "PUT" && str_eq sub "config"
    then put_config now id req.body r
    else if str_eq req.method "POST" && str_eq sub "retry"
    then answer_retry (retry_of id r)
    else (r, fails 404 "not found")

unfoldable pub list_handler : Request → Registry → Response
list_handler req r =
    if not (str_eq req.method "GET")
    then fails 405 "method not allowed"
    else record { code = 200; payload = statuses (list r) }

-- Handler.
unfoldable pub handle : Time → Request → Registry → Registry × Response
handle now req r =
    if str_eq req.path "/devices"
    then (r, list_handler req r)
    else elim (after_prefix "/devices/" req.path) [
      | none ↦ (r, fails 404 "404 page not found")
      | some rest ↦ device_handler now req rest r
    ]
