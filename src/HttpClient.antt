-- ===== src/HttpClient.antt =====
-- pkg/httpclient/client.go: a GET with up to three attempts.
pub mod Attempts
pub mod Effort
use Prim.Native.String.{◌++◌ as ◌<>◌}
use food_delivery_analytics.Prelude.{
  ℕ, zero, suc, ◌*◌, String, Bool, true, false, List, [], ◌∷◌, ◌==◌, leb, nat_beq, if◌then◌else◌,
}
use food_delivery_analytics.Effect.{
  Action, Fault, app_fault, duplicate_key, other_fault, Result, ok, err, fail,
}

-- `fmt.Errorf("…: %w", err)`: an error of the service's own is still found inside.
abbrev pub wrap_fault : String → Fault → Fault
wrap_fault message (app_fault e) = app_fault e
wrap_fault message duplicate_key = duplicate_key
wrap_fault message (other_fault cause) = other_fault (message <> cause)

pub record ClientRequest : Type 0 where
  pub url : String
  pub headers : List (String × String)

pub record Reply : Type 0 where
  pub status_code : ℕ
  pub body : String

-- What the client uses of net/http, time and fmt: building a GET request, sending it and reading
-- the whole reply, sleeping for some milliseconds, and printing a number.
pub record Transport (W : Type 0) : Type 0 where
  pub new_request : String → Result ClientRequest
  pub send : ClientRequest → Action W Reply
  pub sleep : ℕ → W → W
  pub itoa : ℕ → String

pub record Client : Type 0 where
  pub base_url : String
  pub headers : List (String × String)

-- `http.Header.Set`: a header of that name is replaced.
abbrev pub set_header : String → String → List (String × String) → List (String × String)
set_header k v [] = (k, v) ∷ []
set_header k v ((j, u) ∷ hs) = if j == k then (k, v) ∷ hs else (j, u) ∷ set_header k v hs

abbrev pub set_headers : List (String × String) → List (String × String) → List (String × String)
set_headers [] hs = hs
set_headers ((k, v) ∷ new) hs = set_headers new (set_header k v hs)

pub record ApiResponse (A : Type 0) : Type 0 where
  pub success : Bool
  pub content : A

-- What one attempt leads to: another one, with its error kept, or the end.
pub data Outcome (A : Type 0) : Type 0 where
  retry : Fault → Outcome A
  stop : Result A → Outcome A

-- `if attempt > 0 { time.Sleep(attempt * 100 ms) }`
abbrev pub pause : {W : Type 0} → Transport W → ℕ → W → W
pause t zero w = w
pause t (suc attempt) w = t.sleep (suc attempt * 100) w

module _ {W A : Type 0} (t : Transport W) (unmarshal : String → Result (ApiResponse A)) where
  abbrev pub decode : Result (ApiResponse A) → Result A
  decode (ok response) = ok response.content
  decode (err e) = err (wrap_fault "decode response: " e)

  -- the body of the loop, after the call
  abbrev pub classify : Result Reply → Outcome A
  classify (err e) = retry e
  classify (ok reply) =
      if leb 500 reply.status_code
      then retry (other_fault ("server error " <> t.itoa reply.status_code <> ": " <> reply.body))
      else if leb 400 reply.status_code
      then stop
          (err (other_fault ("client error " <> t.itoa reply.status_code <> ": " <> reply.body)))
      else stop (decode (unmarshal reply.body))

  -- the loop from an attempt on, with the rounds that are left and the last error
  unfoldable pub attempts : ℕ → ℕ → Fault → ClientRequest → Action W A
  attempts zero attempt last_err req w = (err (wrap_fault "all retries failed: " last_err), w)
  attempts (suc rounds) attempt last_err req w =
      let (r, w') = t.send req (pause t attempt w) in
      elim (classify r) [
        | retry e ↦ attempts rounds (suc attempt) e req w'
        | stop result ↦ (result, w')
      ]

  unfoldable pub get : Client → String → List (String × String) → Action W A
  unfolding attempts
  get c path extra_headers w = elim (t.new_request (c.base_url <> path)) [
    | err e ↦ (err (wrap_fault "build request: " e), w)
    | ok req ↦
        attempts 3 0 (other_fault "")
          (record req { headers = set_headers extra_headers (set_headers c.headers req.headers) }) w
  ]
