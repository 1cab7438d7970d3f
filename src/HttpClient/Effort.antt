-- ===== src/HttpClient/Effort.antt =====
-- How many calls `Get` in pkg/httpclient/client.go makes, and how long it sleeps.
use Prim.Native.String.{◌++◌ as ◌<>◌}
use food_delivery_analytics.Prelude.{
  ℕ, zero, suc, ◌+◌, ◌*◌, ◌≤◌, String, List, ◌≡◌, inl, inr, refl, arith,
}
use food_delivery_analytics.Effect.{Fault, other_fault, Result, ok}
use food_delivery_analytics.HttpClient.{
  Client, Transport, ClientRequest, ApiResponse, pause, attempts, get,
}
use food_delivery_analytics.HttpClient.Attempts.{outcome, world_after, Outcome-cases, prepared}

-- Two meters on the world: the calls that were sent, and the milliseconds that were slept.
pub record Meters {W : Type 0} (t : Transport W) : Type 0 where
  pub sent : W → ℕ
  pub slept : W → ℕ
  pub sent-send : (req : ClientRequest) (w : W) → sent (t.send req w).1 ≡ sent w + 1
  pub slept-send : (req : ClientRequest) (w : W) → slept (t.send req w).1 ≡ slept w
  pub sent-sleep : (n : ℕ) (w : W) → sent (t.sleep n w) ≡ sent w
  pub slept-sleep : (n : ℕ) (w : W) → slept (t.sleep n w) ≡ slept w + n

module _ {W A : Type 0} (t : Transport W) (unmarshal : String → Result (ApiResponse A))
    (meters : Meters t) where
  open meters use {sent, slept}

  pause_meters :
      (n : ℕ) (w : W) → (sent (pause t n w) ≡ sent w) × (slept (pause t n w) ≡ slept w + n * 100)
  pause_meters zero w = (refl, omega arith)
  pause_meters (suc n) w = (meters.sent-sleep (suc n * 100) w, meters.slept-sleep (suc n * 100) w)

  -- The pauses of the rounds that are left.
  abbrev pauses : ℕ → ℕ → ℕ
  pauses zero a = 0
  pauses (suc rounds) a = a * 100 + pauses rounds (suc a)

  abbrev Spends : ℕ → ℕ → W → W → Type 0
  Spends calls ms w v =
      (sent w ≤ sent v) × (sent v ≤ sent w + calls) × (slept w ≤ slept v) × (slept v ≤ slept w + ms)

  attempts-Spends :
      (rounds a : ℕ) (last : Fault) (req : ClientRequest) (w : W)
      → Spends rounds (pauses rounds a) w (attempts t unmarshal rounds a last req w).1
  unfolding attempts
  attempts-Spends zero a last req w = omega arith
  attempts-Spends (suc rounds) a last req w =
      let (calls, ms) = pause_meters a w in
      let sent_one = meters.sent-send req (pause t a w) in
      let slept_none = meters.slept-send req (pause t a w) in
      elim (Outcome-cases t unmarshal req (outcome t unmarshal req a w)) [
        | inl (e, h) ↦
            let rest = attempts-Spends rounds (suc a) e req (world_after t unmarshal req a w) in
            rw (h, attempts) (omega arith)
        | inr (r, h) ↦ rw (h, attempts) (omega arith)
      ]

  attempts_sends :
      (rounds a : ℕ) (last : Fault) (req : ClientRequest) (w : W)
      → sent w + 1 ≤ sent (attempts t unmarshal (suc rounds) a last req w).1
  unfolding attempts
  attempts_sends rounds a last req w =
      let (calls, ms) = pause_meters a w in
      let sent_one = meters.sent-send req (pause t a w) in
      elim (Outcome-cases t unmarshal req (outcome t unmarshal req a w)) [
        | inl (e, h) ↦
            let rest = attempts-Spends rounds (suc a) e req (world_after t unmarshal req a w) in
            rw (h, attempts) (omega arith)
        | inr (r, h) ↦ rw (h, attempts) (omega arith)
      ]

  -- Whatever is answered, a GET sends at most three calls, and sleeps for at most 300 ms between
  -- them; once its request can be built, it sends one at least.
  pub get_effort :
      (c : Client) (path : String) (extra : List (String × String)) (req : ClientRequest) (w : W)
      → t.new_request (c.base_url <> path) ≡ ok req
      → (sent w + 1 ≤ sent (get t unmarshal c path extra w).1)
        × (sent (get t unmarshal c path extra w).1 ≤ sent w + 3)
        × (slept (get t unmarshal c path extra w).1 ≤ slept w + 300)
  unfolding get
  get_effort c path extra req w built =
      let req' = prepared c extra req in
      let most = attempts-Spends 3 0 (other_fault "") req' w in
      let least = attempts_sends 2 0 (other_fault "") req' w in
      rw (built, get) (least, most.1, most.3)
