-- ===== src/Boot/Closing.antt =====
-- What `Run` of lib/boot/boot.go leaves open.
use food_delivery_analytics.Prelude.{
  ℕ, String, ◌≡◌, refl, ap, ◌∙◌, arith, Bool, true, false, List, [], ◌∷◌, nat_beq, if◌then◌else◌,
}
use food_delivery_analytics.Effect.{Action, Result, ok, err, pure, continue, ◌>>=◌}
use food_delivery_analytics.Messaging.Broker.{wrapped, wrap_result}
use food_delivery_analytics.Boot.{deferred}

-- The connections that are opened: to the database, and to the broker, by their numbers.
pub data Handle : Type 0 where
  database : ℕ → Handle
  broker : ℕ → Handle

abbrev pub same_handle : Handle → Handle → Bool
same_handle (database a) (database b) = nat_beq a b
same_handle (broker a) (broker b) = nat_beq a b
same_handle _ _ = false

same_handle_refl : (h : Handle) → same_handle h h ≡ true
same_handle_refl (database a) = ground arith
same_handle_refl (broker a) = ground arith

-- A list without one occurrence of a handle; as it is if it has none.
abbrev pub remove : Handle → List Handle → List Handle
remove h [] = []
remove h (k ∷ ks) = let rest = remove h ks in if same_handle h k then ks else k ∷ rest

pub remove_first : (h : Handle) (hs : List Handle) → remove h (h ∷ hs) ≡ hs
remove_first h hs = rw (same_handle_refl h) refl

-- An action closes what it opens and nothing else, whatever it returns: the same connections are
-- open after it as were before it.
pub record Closes {W A : Type 0} (opened : W → List Handle) (m : Action W A) : Type 0 where
  pub at : (w : W) → opened (m w).1 ≡ opened w

module _ {W : Type 0} (opened : W → List Handle) where
  -- An action that succeeds opens the connection that it answers, and one that fails opens none.
  abbrev pub OpensOne : {A : Type 0} → (A → Handle) → Result A × W → List Handle → Type 0
  OpensOne handle_of (ok a, v) hs = opened v ≡ handle_of a ∷ hs
  OpensOne handle_of (err e, v) hs = opened v ≡ hs

  abbrev pub Opens : {A : Type 0} → (A → Handle) → Action W A → Type 0
  Opens handle_of m = (w : W) → OpensOne handle_of (m w) (opened w)

  -- A call that closes one connection, and no other.
  abbrev pub Shuts : Handle → (W → W) → Type 0
  Shuts h f = (w : W) → opened (f w) ≡ remove h (opened w)

  Closes-continue :
      {A B : Type 0} (r : Result A) (f : A → Action W B) (w : W)
      → ((a : A) → Closes opened (f a))
      → opened (continue r f w).1 ≡ opened w
  Closes-continue (ok a) f w h = (h a).at w
  Closes-continue (err e) f w h = refl

  pub Closes-bind :
      {A B : Type 0} (m : Action W A) (f : A → Action W B)
      → Closes opened m
      → ((a : A) → Closes opened (f a))
      → Closes opened (m >>= f)
  Closes-bind m f hm hf = record { at = λ w. Closes-continue (m w).0 f (m w).1 hf ∙ hm.at w }

  pub Closes-if :
      {A : Type 0} (b : Bool) (m n : Action W A)
      → Closes opened m
      → Closes opened n
      → Closes opened (if b then m else n)
  Closes-if true m n hm hn = hm
  Closes-if false m n hm hn = hn

  pub Closes-pure : {A : Type 0} (a : A) → Closes opened (pure {W = W} a)
  Closes-pure a = record { at = λ w. refl }

  pub Closes-wrapped :
      {A : Type 0} (message : String) (m : Action W A)
      → Closes opened m
      → Closes opened (wrapped message m)
  Closes-wrapped message m h = record { at = h.at }

  pub Opens-wrapped :
      {A : Type 0} (message : String) (handle_of : A → Handle) (m : Action W A)
      → Opens handle_of m
      → Opens handle_of (wrapped message m)
  Opens-wrapped {A} message handle_of m h w = split (m w).0 (m w).1 (h w)
    where
      split :
          (r : Result A) (v : W)
          → OpensOne handle_of (r, v) (opened w)
          → OpensOne handle_of (wrap_result message r, v) (opened w)
      split (ok a) v opens = opens
      split (err e) v opens = opens

  -- A connection that was opened last and is shut leaves the others.
  pub shut_last :
      (h : Handle) (hs : List Handle) (f : W → W) (v : W)
      → Shuts h f
      → opened v ≡ h ∷ hs
      → opened (f v) ≡ hs
  shut_last h hs f v shuts opens = shuts v ∙ ap (remove h) opens ∙ remove_first h hs

  -- What is opened, used and shut by a deferred call is closed in the end.
  pub bracket :
      {A B : Type 0} (handle_of : A → Handle) (r : Result A) (v : W) (hs : List Handle)
      (later : A → W → W) (body : A → Action W B)
      → OpensOne handle_of (r, v) hs
      → ((a : A) → Shuts (handle_of a) (later a))
      → ((a : A) → Closes opened (body a))
      → opened (continue r (λ a. deferred (later a) (body a)) v).1 ≡ hs
  bracket handle_of (ok a) v hs later body opens shuts closes =
      shut_last (handle_of a) hs (later a) (body a v).1 (shuts a) ((closes a).at v ∙ opens)
  bracket handle_of (err e) v hs later body opens shuts closes = opens

  pub Closes-bracket :
      {A B : Type 0} (handle_of : A → Handle) (m : Action W A) (later : A → W → W)
      (body : A → Action W B)
      → Opens handle_of m
      → ((a : A) → Shuts (handle_of a) (later a))
      → ((a : A) → Closes opened (body a))
      → Closes opened (m >>= λ a. deferred (later a) (body a))
  Closes-bracket handle_of m later body opens shuts closes = record {
    at = λ w. bracket handle_of (m w).0 (m w).1 (opened w) later body (opens w) shuts closes;
  }
