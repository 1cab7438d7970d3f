-- ===== src/HttpClient/Attempts.antt =====
-- Which attempt of `Get` in pkg/httpclient/client.go decides its result.
use Prim.Native.String.{◌++◌ as ◌<>◌}
use food_delivery_analytics.Prelude.{
  List, ◌*◌, ℕ, zero, suc, ◌+◌, ◌<◌, ◌≤◌, String, ◌≡◌, refl, sym, arith, ◌⊎◌, inl, inr, Bool-cases,
  leb,
}
use food_delivery_analytics.Effect.{Fault, other_fault, Result, ok, err}
use food_delivery_analytics.HttpClient.{
  Client, set_headers, get, Transport, ClientRequest, Reply, ApiResponse, Outcome, retry, stop,
  classify, decode, pause, attempts, wrap_fault,
}

stop-injective : {A : Type 0} (a b : Result A) → stop a ≡ stop b → a ≡ b
stop-injective a b h = cc h

-- A call that did not reach an answer of the other end's own: it failed, or met a server error.
abbrev pub IsTransient : Result Reply → Type 0
IsTransient (err e) = Unit {0}
IsTransient (ok reply) = 500 ≤ reply.status_code

module _ {W A : Type 0} (t : Transport W) (unmarshal : String → Result (ApiResponse A)) where
  -- What the answer of a call means: an error for the client's errors, and the decoded body else.
  abbrev pub Means : Reply → Result A → Type 0
  Means reply result =
      ((400 ≤ reply.status_code) × ((message : String) × (result ≡ err (other_fault message))))
      ⊎ ((reply.status_code < 400) × (result ≡ decode t unmarshal (unmarshal reply.body)))

  classify-IsTransient :
      (r : Result Reply) (e : Fault) → classify t unmarshal r ≡ retry e → IsTransient r
  classify-IsTransient (err e') e h = tt
  classify-IsTransient (ok reply) e h = elim (Bool-cases (leb 500 reply.status_code)) [
    | inl server ↦ ground arith
    | inr below ↦ elim (Bool-cases (leb 400 reply.status_code)) [
      | inl client ↦ absurd (cc (rw (below, client) at h))
      | inr fine ↦ absurd (cc (rw (below, fine) at h))
    ]
  ]

  classify-Means :
      (r : Result Reply) (result : Result A)
      → classify t unmarshal r ≡ stop result
      → (reply : Reply) × (r ≡ ok reply) × (reply.status_code < 500) × Means reply result
  classify-Means (err e) result h = cc h
  classify-Means (ok reply) result h = elim (Bool-cases (leb 500 reply.status_code)) [
    | inl server ↦ absurd (cc (rw server at h))
    | inr below ↦ elim (Bool-cases (leb 400 reply.status_code)) [
      | inl client ↦
          let stopped = rw (below, client) at h in
          (reply, refl, ground arith, inl (ground arith, (_, sym (stop-injective _ _ stopped))))
      | inr fine ↦
          let stopped = rw (below, fine) at h in
          (reply, refl, ground arith, inr (ground arith, sym (stop-injective _ _ stopped)))
    ]
  ]

module _ {W A : Type 0} (t : Transport W) (unmarshal : String → Result (ApiResponse A))
    (req : ClientRequest) where
  -- The world after an attempt that starts in `w`, and what it leads to.
  abbrev pub world_after : ℕ → W → W
  world_after attempt w = (t.send req (pause t attempt w)).1

  abbrev pub outcome : ℕ → W → Outcome A
  outcome attempt w = classify t unmarshal (t.send req (pause t attempt w)).0

  -- From the start of attempt `a` in `w`, attempts are made and lead to another one, until
  -- attempt `b` starts in `v`.
  pub data Retries : ℕ → W → ℕ → W → Type 0 where
    here : {a : ℕ} {w : W} → Retries a w a w
    again :
        {a b : ℕ} {w v : W} (e : Fault)
        → outcome a w ≡ retry e
        → IsTransient (t.send req (pause t a w)).0
        → Retries (suc a) (world_after a w) b v
        → Retries a w b v

  -- How a loop ends: by an attempt that stops it, or out of rounds.
  abbrev pub Ends : ℕ → ℕ → W → Result A × W → Type 0
  Ends rounds a w end =
      ((b : ℕ) × (v : W) × (reply : Reply) × (result : Result A) × Retries a w b v
        × ((t.send req (pause t b v)).0 ≡ ok reply)
        × (reply.status_code < 500)
        × Means t unmarshal reply result
        × (b < a + rounds)
        × (end ≡ (result, world_after b v)))
      ⊎ ((v : W) × (e : Fault) × Retries a w (a + rounds) v
          × (end ≡ (err (wrap_fault "all retries failed: " e), v)))

  Ends-again :
      (rounds a : ℕ) (w : W) (e : Fault) (end : Result A × W)
      → outcome a w ≡ retry e
      → Ends rounds (suc a) (world_after a w) end
      → Ends (suc rounds) a w end
  Ends-again rounds a w e end h (inl (b, v, reply, result, tries, sent, low, means, below, same)) =
      let transient = classify-IsTransient t unmarshal (t.send req (pause t a w)).0 e h in
      inl (b, v, reply, result, again e h transient tries, sent, low, means, omega arith, same)
  Ends-again rounds a w e end h (inr (v, e', tries, same)) =
      let sum : suc a + rounds ≡ a + suc rounds = omega arith in
      let transient = classify-IsTransient t unmarshal (t.send req (pause t a w)).0 e h in
      inr (v, e', again e h transient (rw (← sum) tries), same)

  pub Outcome-cases :
      (o : Outcome A) → ((e : Fault) × (o ≡ retry e)) ⊎ ((r : Result A) × (o ≡ stop r))
  Outcome-cases (retry e) = inl (e, refl)
  Outcome-cases (stop r) = inr (r, refl)

  attempts-Ends :
      (rounds a : ℕ) (last : Fault) (w : W)
      → Ends rounds a w (attempts t unmarshal rounds a last req w)
  unfolding attempts
  attempts-Ends zero a last w =
      let sum : a ≡ a + 0 = omega arith in inr (w, last, rw (← sum) here, refl)
  attempts-Ends (suc rounds) a last w = elim (Outcome-cases (outcome a w)) [
    | inl (e, h) ↦
        Ends-again rounds a w e _ h
          (rw (h, attempts) (attempts-Ends rounds (suc a) e (world_after a w)))
    | inr (r, h) ↦
        let (reply, sent, low, means) =
          classify-Means t unmarshal (t.send req (pause t a w)).0 r h in
        inl (a, w, reply, r, here, sent, low, means, omega arith, rw (h, attempts) refl)
  ]

-- The request that `Get` sends: the path under the base, with the client's headers and then the
-- extra ones.
abbrev pub prepared : Client → List (String × String) → ClientRequest → ClientRequest
prepared c extra req = record req {
  headers = set_headers extra (set_headers c.headers req.headers);
}

module _ {W A : Type 0} (t : Transport W) (unmarshal : String → Result (ApiResponse A)) where
  -- Once its request can be built, a GET ends by the first of at most three attempts that is
  -- neither a failed call nor answered with a status from 500; the result is an error if that
  -- status is from 400, and what the body decodes to if it is lower. If all three attempts failed
  -- or were so answered, it ends with an error.
  pub get-Ends :
      (c : Client) (path : String) (extra : List (String × String)) (req : ClientRequest) (w : W)
      → t.new_request (c.base_url <> path) ≡ ok req
      → Ends t unmarshal (prepared c extra req) 3 0 w (get t unmarshal c path extra w)
  unfolding get
  get-Ends c path extra req w built =
      rw (built, get) (attempts-Ends t unmarshal (prepared c extra req) 3 0 (other_fault "") w)

  -- The other end is down: every call fails or is answered with a server error, and stays so.
  pub record StaysDown (Down : W → Type 0) : Type 0 where
    pub send_down :
        (req : ClientRequest) (w : W)
        → Down w
        → ((e : Fault) × (classify t unmarshal (t.send req w).0 ≡ retry e)) × Down (t.send req w).1
    pub sleep_down : (n : ℕ) (w : W) → Down w → Down (t.sleep n w)

  module _ (Down : W → Type 0) (downs : StaysDown Down) where
    pause_down : (n : ℕ) (w : W) → Down w → Down (pause t n w)
    pause_down zero w h = h
    pause_down (suc n) w h = downs.sleep_down (suc n * 100) w h

    -- An action fails, and leaves the other end down.
    abbrev pub Fails : {B : Type 0} → Result B × W → Type 0
    Fails (r, w) = ((e : Fault) × (r ≡ err e)) × Down w

    attempts-Fails :
        (rounds a : ℕ) (last : Fault) (req : ClientRequest) (w : W)
        → Down w
        → Fails (attempts t unmarshal rounds a last req w)
    unfolding attempts
    attempts-Fails zero a last req w h = ((_, refl), h)
    attempts-Fails (suc rounds) a last req w h =
        let ((e, failed), h') = downs.send_down req (pause t a w) (pause_down a w h) in
        rw (failed, attempts) (attempts-Fails rounds (suc a) e req _ h')

    pub get-Fails :
        (c : Client) (path : String) (extra : List (String × String)) (w : W)
        → Down w
        → Fails (get t unmarshal c path extra w)
    unfolding get
    get-Fails c path extra w h = split (t.new_request (c.base_url <> path)) refl
      where
        split :
            (r : Result ClientRequest)
            → t.new_request (c.base_url <> path) ≡ r
            → Fails (get t unmarshal c path extra w)
        split (err e) same = rw (same, get) ((_, refl), h)
        split (ok req) same =
            rw (same, get) (attempts-Fails 3 0 (other_fault "") (prepared c extra req) w h)
