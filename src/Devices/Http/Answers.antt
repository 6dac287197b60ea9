-- ===== src/Devices/Http/Answers.antt =====
-- What the requests of internal/devices/http.go do.
use job_scheduler_tooling.Prelude.{
  ℕ, ◌+◌, ◌≡◌, ◌≢◌, ◌⊎◌, ◌∙◌, ◌==◌, inl, inr, refl, ap, String, Bool, true, false, not, ◌&&◌,
  Option, none, some, arith, ◌+++◌, str_eq, eq_iff, ==_iff, if_split, option_split,
}
use job_scheduler_tooling.Prelude.Dict.{Dict, lookup}
use job_scheduler_tooling.Text.{after_prefix, cut, after_prefix_sound, cut_slash}
use job_scheduler_tooling.Queue.{Time}
use job_scheduler_tooling.Devices.{Entry, set_config, ensure_loop}
use job_scheduler_tooling.Devices.Registry.{
  Registry, status, set_config_of, set_config_found, retry_of,
}
use job_scheduler_tooling.Devices.Http.{
  Request, Response, version, get_device, answer_version, answer_retry, put_config, device_handler,
  list_handler, handle,
}

-- The requests that may change a device.
abbrev pub IsPut : Request → String → Dict String → Type 0
IsPut req id cfg =
    (req.method ≡ "PUT")
    × (req.path ≡ "/devices/" +++ (id +++ ("/" +++ "config")))
    × (req.body ≡ some cfg)

abbrev pub IsRetry : Request → String → Type 0
IsRetry req id = (req.method ≡ "POST") × (req.path ≡ "/devices/" +++ (id +++ ("/" +++ "retry")))

-- What an accepted request has done.
abbrev pub Accepts : Time → Request → Registry → Registry × Response → Type 0
Accepts now req r (r', response) =
    (id : String) × (e : Entry) × (status id r ≡ some e)
    × (((cfg : Dict String) × IsPut req id cfg
          × (r' ≡ (set_config_of now id cfg r).0)
          × (response.payload ≡ version (e.desired_version + 1)))
        ⊎ (IsRetry req id × (r' ≡ (retry_of id r).0)))

abbrev pub Answers : Time → Request → Registry → Registry × Response → Type 0
Answers now req r (r', response) =
    ((response.code ≡ 202) × Accepts now req r (r', response)) ⊎ ((response.code ≢ 202) × (r' ≡ r))

not_202 : (code : ℕ) → (code == 202) ≡ false → code ≢ 202
not_202 code h e = cc ((==_iff code 202).1 e, h)

-- A path below a device.
below_device :
    (rest sub : String)
    → str_eq (cut b'/' rest).1 sub ≡ true
    → str_eq "" sub ≡ false
    → rest ≡ (cut b'/' rest).0 +++ ("/" +++ sub)
below_device rest sub h some_sub =
    let same : (cut b'/' rest).1 ≡ sub = (eq_iff _ _).0 h in
    elim (cut_slash rest) [
      | inl none_after ↦ absurd (cc (h, none_after, some_sub))
      | inr split ↦ split ∙ ap (λ t. (cut b'/' rest).0 +++ ("/" +++ t)) same
    ]

put-Answers :
    (now : Time) (req : Request) (id : String) (body : Option (Dict String)) (r : Registry)
    → req.body ≡ body
    → req.method ≡ "PUT"
    → req.path ≡ "/devices/" +++ (id +++ ("/" +++ "config"))
    → Answers now req r (put_config now id body r)
unfolding put_config
put-Answers now req id none r is method path = inr (not_202 400 refl, refl)
put-Answers now req id (some cfg) r is method path = found (lookup id r.devs) refl
  where
    found :
        (o : Option Entry)
        → lookup id r.devs ≡ o
        → Answers now req r (answer_version (set_config_of now id cfg r))
    found none at = unfold set_config_of set_config_found in rw at (inr (not_202 404 refl, refl))
    found (some e) at =
        unfold set_config_of set_config_found status set_config ensure_loop in
        rw at (inl (refl, (id, e, at, inl (cfg, (method, path, is), rw at refl, refl))))

retry-Answers :
    (now : Time) (req : Request) (id : String) (r : Registry)
    → req.method ≡ "POST"
    → req.path ≡ "/devices/" +++ (id +++ ("/" +++ "retry"))
    → Answers now req r (answer_retry (retry_of id r))
unfolding retry_of status
retry-Answers now req id r method path =
    option_split (λ (x : Registry × Bool). Answers now req r (answer_retry x)) (lookup id r.devs)
      (λ _. inr (not_202 404 refl, refl))
      (λ e at. inl (refl, (id, e, at, inr ((method, path), rw (at, retry_of) refl))))

get_device-code : (id : String) (r : Registry) → (get_device id r).code ≢ 202
unfolding get_device
get_device-code id r =
    option_split (λ (p : Response). p.code ≢ 202) (status id r) (λ _. not_202 404 refl)
      (λ e _. not_202 200 refl)

list_handler-code : (req : Request) (r : Registry) → (list_handler req r).code ≢ 202
unfolding list_handler
list_handler-code req r =
    if_split (λ (p : Response). p.code ≢ 202) (not (str_eq req.method "GET"))
      (λ _. not_202 405 refl) (λ _. not_202 200 refl)

device-Answers :
    (now : Time) (req : Request) (rest : String) (r : Registry)
    → req.path ≡ "/devices/" +++ rest
    → Answers now req r (device_handler now req rest r)
unfolding device_handler
device-Answers now req rest r path =
    let (id, sub) = cut b'/' rest in
    if_split (Answers now req r) (str_eq req.method "GET" && str_eq sub "")
      (λ _. inr (get_device-code id r, refl))
      (λ _.
        if_split (Answers now req r) (str_eq req.method "PUT" && str_eq sub "config")
          (λ h.
            put-Answers now req id req.body r refl ((eq_iff req.method "PUT").0 (ground (arith, h)))
              (path
                ∙ ap (λ t. "/devices/" +++ t)
                    (below_device rest "config" (ground (arith, h)) refl)))
          (λ _.
            if_split (Answers now req r) (str_eq req.method "POST" && str_eq sub "retry")
              (λ h. retry-Answers now req id r ((eq_iff req.method "POST").0 (ground (arith, h))) (
                path
                ∙ ap (λ t. "/devices/" +++ t) (below_device rest "retry" (ground (arith, h)) refl)))
              (λ _. inr (not_202 404 refl, refl))))

-- Every request is either accepted or leaves the registry as it is. It is answered with 202 only when
-- it is a PUT of a body that the decoder takes to /devices/ID/config, or a POST to /devices/ID/retry,
-- of a registered device; the registry is then what SetConfig with that body, or Retry, of that
-- device makes of it, and a PUT is told the version after the desired one. With any other answer, and
-- so for another method, path or body and for an unknown device, the registry is as it was.
pub handle-Answers :
    (now : Time) (req : Request) (r : Registry) → Answers now req r (handle now req r)
unfolding handle
handle-Answers now req r =
    if_split (Answers now req r) (str_eq req.path "/devices")
      (λ _. inr (list_handler-code req r, refl))
      (λ _.
        option_split (Answers now req r) (after_prefix "/devices/" req.path)
          (λ _. inr (not_202 404 refl, refl))
          (λ rest at.
            device-Answers now req rest r (after_prefix_sound "/devices/" req.path rest at)))

abbrev pub put_request : String → Dict String → Request
put_request id cfg = record {
  method = "PUT";
  path = "/devices/" +++ (id +++ ("/" +++ "config"));
  body = some cfg;
}

abbrev pub retry_request : String → Request
retry_request id = record {
  method = "POST";
  path = "/devices/" +++ (id +++ ("/" +++ "retry"));
  body = none;
}
