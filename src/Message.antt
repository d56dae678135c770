-- ===== src/Message.antt =====
-- waku/waku_core/message/message.nim: a message. Its texts are lists of bytes. A timestamp, an
-- `int64` of nanoseconds, is a natural number:
-- times before 1970 are left out.
use nwaku.Base.{ℕ, Bool, List}

pub record WakuMessage : Type 0 where
  pub payload : List ℕ
  pub content_topic : List ℕ
  pub meta : List ℕ
  pub version : ℕ
  pub timestamp : ℕ
  pub ephemeral : Bool
  pub proof : List ℕ
