-- ===== src/Mongo/Connection.antt =====
-- pkg/mongo/client.go, with the driver's calls as parameters; clients are known by their numbers.
use food_delivery_analytics.Prelude.{ℕ, String}
use food_delivery_analytics.Effect.{Action, pure, ◌>>=◌, ◌>>◌}

pub record MongoLib (W : Type 0) : Type 0 where
  pub connect : String → Action W ℕ
  -- `c.Ping(ctx, readpref.Primary())`
  pub ping : ℕ → Action W (Unit {0})
  pub disconnect : ℕ → Action W (Unit {0})

-- `Client`: the driver's, and the name of its database.
pub record MongoClient : Type 0 where
  pub inner : ℕ
  pub db : String

module _ {W : Type 0} (lib : MongoLib W) where
  unfoldable pub connect : String → String → Action W MongoClient
  connect uri database = do
    c ← lib.connect uri
    lib.ping c
    pure (record { inner = c; db = database })

  abbrev pub disconnect : MongoClient → Action W (Unit {0})
  disconnect c = lib.disconnect c.inner
