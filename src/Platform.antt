-- ===== src/Platform.antt =====
-- What the program uses and does not implement: the database session, the Redis client and the
-- cryptographic libraries, as one parameter.
pub mod Redis
pub mod Orm
pub mod Crypto
pub mod Text
use smartcourse_core.Platform.Redis.{RedisClient}
use smartcourse_core.Platform.Orm.{OrmSession}
use smartcourse_core.Platform.Text.{TextLibrary}
use smartcourse_core.Platform.Crypto.{CryptoLibrary}

pub record Platform : Type 1 where
  pub redis : RedisClient
  pub open redis use *
  pub orm : OrmSession
  pub open orm use *
  pub crypto : CryptoLibrary
  pub open crypto use *
  pub texts : TextLibrary
  pub open texts use *
